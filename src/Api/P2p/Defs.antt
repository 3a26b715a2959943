-- ===== src/Api/P2p/Defs.antt =====
-- api/p2p_server.go: the address at which peers reach the server.
use baggageclaim.Prelude.{
  ℕ, zero, suc, ◌+◌, ◌/◌, ◌%◌, nat_eq, ltb, String, Bool, false, not, ◌||◌, Option, none, some,
  List, [], ◌∷◌, ◌++◌, if◌then◌else◌,
}
use baggageclaim.Disk.World.{Bytes}

-- An address of a network interface, with the text of its IP; one of another type leaves the IP nil.
pub data Address : Type 0 where
  ip_net : Bytes → Address
  ip_addr : Bytes → Address
  other_address : Address

-- an interface, and what its `Addrs` returns
pub record Interface : Type 0 where
  pub name : String
  pub addresses : Option (List Address)

-- The pattern is what its MatchString tests.
pub record P2pServer : Type 0 where
  pub p2p_interface_pattern : String → Bool
  pub p2p_interface_family : ℕ
  pub p2p_stream_port : ℕ

-- 200 with a URL, or 500
pub data P2pAnswer : Type 0 where
  p2p_url : Bytes → P2pAnswer
  get_p2p_url_failed : P2pAnswer

-- strings.Contains for one byte
abbrev pub has_byte : ℕ → Bytes → Bool
has_byte c [] = false
has_byte c (b ∷ bs) = nat_eq b c || has_byte c bs

-- `ip.String()`; that of a nil IP is "<nil>"
abbrev pub ip_text : Address → Bytes
ip_text (ip_net ip) = ip
ip_text (ip_addr ip) = ip
ip_text other_address = 60 ∷ 110 ∷ 105 ∷ 108 ∷ 62 ∷ []

-- An address of the family has no point, or, where the family is not 6, no colon.
abbrev pub of_family : ℕ → Address → Bool
of_family family a =
    if nat_eq family 6 then not (has_byte 46 (ip_text a)) else not (has_byte 58 (ip_text a))

-- the digits of a port, which has five at most
unfoldable pub digits : ℕ → ℕ → Bytes
digits zero n = []
digits (suc k) n =
    let rest = digits k (n / 10) in if ltb n 10 then (48 + n) ∷ [] else rest ++ ((48 + n % 10) ∷ [])

-- "http://%s:%d"
unfoldable pub url_text : Bytes → ℕ → Bytes
url_text ip port = (104 ∷ 116 ∷ 116 ∷ 112 ∷ 58 ∷ 47 ∷ 47 ∷ []) ++ ip ++ (58 ∷ digits 5 port)

module _ (server : P2pServer) where
  abbrev pub try_addresses : List Address → P2pAnswer → P2pAnswer
  try_addresses [] rest = rest
  try_addresses (a ∷ more) rest =
      let later = try_addresses more rest in
      if of_family server.p2p_interface_family a
      then p2p_url (url_text (ip_text a) server.p2p_stream_port)
      else later

  abbrev pub with_addresses : Option (List Address) → P2pAnswer → P2pAnswer
  with_addresses none rest = get_p2p_url_failed
  with_addresses (some addrs) rest = try_addresses addrs rest

  unfoldable pub try_interfaces : List Interface → P2pAnswer
  try_interfaces [] = get_p2p_url_failed
  try_interfaces (i ∷ is) =
      let rest = try_interfaces is in
      if server.p2p_interface_pattern i.name then with_addresses i.addresses rest else rest

  unfoldable pub get_p2p_url : Option (List Interface) → P2pAnswer
  get_p2p_url none = get_p2p_url_failed
  get_p2p_url (some ifaces) = try_interfaces ifaces
