-- ===== src/Client/P2p.antt =====
-- `getStreamInP2pUrl` of client/client.go: where a peer is to send the contents of a volume.
use baggageclaim.Prelude.{
  ℕ, ◌<◌, ◌≤◌, ◌≢◌, ◌⊎◌, inl, inr, All, String, ◌≡◌, refl, ap, ◌∙◌, Bool, true, Option, none, some,
  List, [], ◌∷◌, ◌++◌, Mem, nat_eq, if◌then◌else◌,
}
use baggageclaim.Disk.World.{Bytes}
use baggageclaim.Api.P2p.{
  Address, Interface, P2pServer, P2pAnswer, p2p_url, get_p2p_url_failed, ip_text, digits, url_text,
  get_p2p_url,
}
use baggageclaim.Api.P2p.Found.{Suits, IsOfFamily, AreReadable, get_p2p_url_found}

-- how one Read of a body of at most 1024 bytes ends
pub data ReadEnd : Type 0 where
  no_error end_of_file read_failed : ReadEnd

pub record P2pResponse : Type 0 where
  pub status : ℕ
  pub bytes_read : Bytes
  pub read_end : ReadEnd

-- the errors, and the use of a request that could not be made
pub data P2pError : Type 0 where
  no_request not_sent not_read bad_url nil_request : P2pError
  bad_status : ℕ → P2pError

-- the URL of the route StreamIn for a handle, with the parameter `path`
pub record StreamInUrl : Type 0 where
  pub scheme : Bytes
  pub host : Bytes
  pub handle : String
  pub path : String

pub data P2pResult : Type 0 where
  stream_in_url : StreamInUrl → P2pResult
  gave_up : P2pError → P2pResult

-- Whether rata makes the two requests, what comes back of the first, where anything does, and the
-- scheme and the host that url.Parse finds, where it does not fail.
pub record P2pClient : Type 0 where
  pub makes_get_p2p_url : Bool
  pub makes_stream_in : String → Bool
  pub response : Option P2pResponse
  pub parse : Bytes → Option (Bytes × Bytes)

-- the bytes of the body, unless the read failed or gave none at its end
abbrev pub read_body : Bytes → ReadEnd → Option Bytes
read_body bs no_error = some bs
read_body [] end_of_file = none
read_body (b ∷ bs) end_of_file = some (b ∷ bs)
read_body bs read_failed = none

module _ (client : P2pClient) (dest_handle path : String) where
  abbrev pub if_parsed : Option (Bytes × Bytes) → P2pResult
  if_parsed none = gave_up bad_url
  if_parsed (some (scheme, host)) =
      if client.makes_stream_in dest_handle
      then stream_in_url
          (record { scheme = scheme; host = host; handle = dest_handle; path = path })
      else gave_up nil_request

  abbrev pub if_read : Option Bytes → P2pResult
  if_read none = gave_up not_read
  if_read (some bs) = if_parsed (client.parse bs)

  abbrev pub if_responded : Option P2pResponse → P2pResult
  if_responded none = gave_up not_sent
  if_responded (some r) =
      if nat_eq r.status 200
      then if_read (read_body r.bytes_read r.read_end)
      else gave_up (bad_status r.status)

  unfoldable pub get_stream_in_p2p_url : P2pResult
  get_stream_in_p2p_url =
      if client.makes_get_p2p_url then if_responded client.response else gave_up no_request

-- what the server sends of its answer, in one piece
abbrev pub sent : P2pAnswer → P2pResponse
sent (p2p_url u) = record { status = 200; bytes_read = u; read_end = end_of_file }
sent get_p2p_url_failed = record { status = 500; bytes_read = []; read_end = end_of_file }

-- "http"
abbrev pub http : Bytes
http = 104 ∷ 116 ∷ 116 ∷ 112 ∷ []

-- The text holds digits and points only, as that of an IPv4 address does.
abbrev pub IsDotted : Bytes → Type 0
IsDotted ip = All (λ b. (b ≡ 46) ⊎ ((48 ≤ b) × (b ≤ 57))) ip

-- url.Parse of a URL whose host is a dotted address with a port of 16 bits
pub record IsParser (parse : Bytes → Option (Bytes × Bytes)) : Type 0 where
  pub parse-url_text :
      (ip : Bytes) (port : ℕ)
      → IsDotted ip
      → port < 65536
      → parse (url_text ip port) ≡ some (http, ip ++ (58 ∷ digits 5 port))

url_text-read_body :
    (ip : Bytes) (port : ℕ) → read_body (url_text ip port) end_of_file ≡ some (url_text ip port)
unfolding url_text
url_text-read_body ip port = refl

-- `String` of the IP of each address that is read is dotted, or has a colon.
abbrev pub AreIpTexts : List Interface → Type 0
AreIpTexts is =
    (i : Interface) (addrs : List Address) (a : Address)
    → Mem i is
    → i.addresses ≡ some addrs
    → Mem a addrs
    → IsDotted (ip_text a) ⊎ Mem 58 (ip_text a)

dotted :
    (family : ℕ) (a : Address)
    → family ≢ 6
    → IsOfFamily family a
    → IsDotted (ip_text a) ⊎ Mem 58 (ip_text a)
    → IsDotted (ip_text a)
dotted family a four fits (inl digits_and_points) = digits_and_points
dotted family a four (inl (six, no_point)) (inr colon) = absurd (four six)
dotted family a four (inr (other, no_colon)) (inr colon) = absurd (no_colon colon)

module _ (client : P2pClient) (server : P2pServer) (dest_handle path : String) where
  -- The URL leads to an address of the server.
  abbrev pub LeadsTo : List Interface → StreamInUrl → Type 0
  LeadsTo is url =
      (i : Interface) × (a : Address) × Mem i is
      × Suits server i a
      × (url ≡ record {
        scheme = http;
        host = ip_text a ++ (58 ∷ digits 5 server.p2p_stream_port);
        handle = dest_handle;
        path = path;
      })

  -- A client that asks a server of the family 4 for its address gets a URL to stream to: it has the
  -- handle and the path that the client gave, and leads to the port of the server at an address of an
  -- interface with a matching name. The interfaces can be read and have such an address, the text of
  -- each address holds only digits and points or has a colon, the port has 16 bits, the requests can be
  -- made, the answer comes back whole, and URLs with such a host are parsed.
  pub get_stream_in_p2p_url-get_p2p_url :
      (is : List Interface) (i : Interface) (a : Address)
      → IsParser client.parse
      → server.p2p_interface_family ≢ 6
      → server.p2p_stream_port < 65536
      → AreIpTexts is
      → client.makes_get_p2p_url ≡ true
      → client.makes_stream_in dest_handle ≡ true
      → client.response ≡ some (sent (get_p2p_url server (some is)))
      → AreReadable server is
      → Mem i is
      → Suits server i a
      → (url : StreamInUrl) × (get_stream_in_p2p_url client dest_handle path ≡ stream_in_url url)
        × LeadsTo is url
  unfolding get_stream_in_p2p_url
  get_stream_in_p2p_url-get_p2p_url is i a parses four port texts makes makes_in response readable m
        suits =
      let (u, answered, (j, b, among, fits, made)) =
        get_p2p_url_found server is i a readable m suits in
      let (matches, (addrs, at, within, family)) = fits in
      let four_text =
        dotted server.p2p_interface_family b four family (texts j addrs b among at within) in
      let came : client.response
          ≡ some (sent (p2p_url (url_text (ip_text b) server.p2p_stream_port))) =
        response ∙ ap (λ r. some (sent r)) (answered ∙ ap p2p_url made) in
      (
        _,
        rw makes (
            rw came (
              rw (url_text-read_body (ip_text b) server.p2p_stream_port) (
                rw (parses.parse-url_text (ip_text b) server.p2p_stream_port four_text port)
                  (rw makes_in refl)))),
        (j, b, among, fits, refl),
      )
