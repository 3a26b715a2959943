-- ===== src/Examples/Peers.antt =====
-- A peer that asks a server where to stream to.
use baggageclaim.Prelude.{
  ℕ, zero, suc, ◌+◌, ◌/◌, ◌%◌, ◌<◌, nat_eq, ltb, Bool, Bool-cases, false, ◌&&◌, ◌||◌, none, ◌++◌,
  ◌⊎◌, Mem, sym, subst, ◌∙◌, arith, if◌then◌else◌, ◌≡◌, refl, ap, true, Option, some, [], ◌∷◌, inl,
  inr, ◌==◌, drop,
}
use baggageclaim.Disk.World.{Bytes}
use baggageclaim.Api.P2p.{
  ip_net, ip_text, digits, Interface, P2pServer, p2p_url, url_text, get_p2p_url,
}
use baggageclaim.Api.P2p.Found.{AreReadable, IsOfFamily, Answered, get_p2p_url_found}
use baggageclaim.Client.P2p.{
  P2pClient, StreamInUrl, IsParser, IsDotted, AreIpTexts, LeadsTo, http, sent, stream_in_url,
  get_stream_in_p2p_url, get_stream_in_p2p_url-get_p2p_url,
}

-- an interface with an address of each family
abbrev ethernet : Interface
ethernet = record {
  name = "eth0";
  addresses = some (ip_net (58 ∷ 58 ∷ 49 ∷ []) ∷ ip_net (49 ∷ 46 ∷ 50 ∷ []) ∷ []);
}

abbrev p2p_server : P2pServer
p2p_server = record {
  p2p_interface_pattern = λ name. name == "eth0";
  p2p_interface_family = 4;
  p2p_stream_port = 7766;
}

ethernet_readable : AreReadable p2p_server (ethernet ∷ [])
ethernet_readable i (inr none_left) matches = absurd none_left
ethernet_readable i (inl same) matches = (_, ap (λ (j : Interface). j.addresses) same)

second_IsOfFamily : IsOfFamily 4 (ip_net (49 ∷ 46 ∷ 50 ∷ []))
second_IsOfFamily = inr (
  omega arith,
  λ m. elim m [
    | inl e ↦ absurd (omega arith)
    | inr (inl e) ↦ absurd (omega arith)
    | inr (inr (inl e)) ↦ absurd (omega arith)
    | inr (inr (inr none_left)) ↦ absurd none_left
  ],
)

get_p2p_url_found_example :
    (u : Bytes) × (get_p2p_url p2p_server (some (ethernet ∷ [])) ≡ p2p_url u)
    × Answered p2p_server (ethernet ∷ []) u
get_p2p_url_found_example =
    get_p2p_url_found p2p_server (ethernet ∷ []) ethernet (ip_net (49 ∷ 46 ∷ 50 ∷ []))
      ethernet_readable (inl refl) (refl, (_, refl, inr (inl refl), second_IsOfFamily))

ethernet-AreIpTexts : AreIpTexts (ethernet ∷ [])
ethernet-AreIpTexts i addrs a (inr none_left) at m = absurd none_left
ethernet-AreIpTexts i addrs a (inl same) at m =
    let these : addrs ≡ ip_net (58 ∷ 58 ∷ 49 ∷ []) ∷ ip_net (49 ∷ 46 ∷ 50 ∷ []) ∷ [] =
      cc (sym at ∙ ap (λ (j : Interface). j.addresses) same) in
    texts (subst (λ l. Mem a l) these m)
  where
    texts :
        Mem a (ip_net (58 ∷ 58 ∷ 49 ∷ []) ∷ ip_net (49 ∷ 46 ∷ 50 ∷ []) ∷ [])
        → IsDotted (ip_text a) ⊎ Mem 58 (ip_text a)
    texts (inl six) = rw six (inr (inl refl))
    texts (inr (inl four)) =
        rw four
          (inl (inr (omega arith, omega arith), (inl refl, (inr (omega arith, omega arith), tt))))
    texts (inr (inr none_left)) = absurd none_left

-- "http://"
abbrev http_slashes : Bytes
http_slashes = 104 ∷ 116 ∷ 116 ∷ 112 ∷ 58 ∷ 47 ∷ 47 ∷ []

abbrev has_prefix : Bytes → Bytes → Bool
has_prefix [] u = true
has_prefix (a ∷ p) [] = false
has_prefix (a ∷ p) (b ∷ u) = nat_eq a b && has_prefix p u

-- what stands before the path, the query or the fragment
abbrev authority : Bytes → Bytes
authority [] = []
authority (b ∷ bs) =
    let rest = authority bs in if nat_eq b 47 || nat_eq b 63 || nat_eq b 35 then [] else b ∷ rest

abbrev parse : Bytes → Option (Bytes × Bytes)
parse u = if has_prefix (http_slashes) u then some (http, authority (drop 7 u)) else none

authority-append : (ip rest : Bytes) → IsDotted ip → authority (ip ++ rest) ≡ ip ++ authority rest
authority-append [] rest h = refl
authority-append (b ∷ ip) rest h = ground (arith, h.0, authority-append ip rest h.1)

IsDotted-append : (bs cs : Bytes) → IsDotted bs → IsDotted cs → IsDotted (bs ++ cs)
IsDotted-append [] cs h k = k
IsDotted-append (b ∷ bs) cs h k = (h.0, IsDotted-append bs cs h.1 k)

digit : (n : ℕ) → n < 10 → IsDotted ((48 + n) ∷ [])
digit n h = (inr (omega arith, omega arith), tt)

digits-IsDotted : (k n : ℕ) → IsDotted (digits k n)
unfolding digits
digits-IsDotted zero n = tt
digits-IsDotted (suc k) n = elim (Bool-cases (ltb n 10)) [
  | inl small ↦ rw small (digit n (ground (arith, small)))
  | inr large ↦ rw large (
      IsDotted-append (digits k (n / 10)) _ (digits-IsDotted k (n / 10))
        (digit (n % 10) (omega arith)))
]

authority-IsDotted : (ip : Bytes) → IsDotted ip → authority ip ≡ ip
authority-IsDotted [] h = refl
authority-IsDotted (b ∷ ip) h = ground (arith, h.0, authority-IsDotted ip h.1)

parse-IsParser : IsParser parse
unfolding url_text
parse-IsParser = record {
  parse-url_text = λ ip port plain small.
      ap (λ bs. some (http, bs))
        (authority-append ip (58 ∷ digits 5 port) plain
          ∙ ap (λ bs. ip ++ 58 ∷ bs) (authority-IsDotted (digits 5 port) (digits-IsDotted 5 port)));
}

abbrev p2p_client : P2pClient
p2p_client = record {
  makes_get_p2p_url = true;
  makes_stream_in = λ h. true;
  response = some (sent (get_p2p_url p2p_server (some (ethernet ∷ []))));
  parse = parse;
}

get_stream_in_p2p_url-get_p2p_url_example :
    (url : StreamInUrl) × (get_stream_in_p2p_url p2p_client "h" "." ≡ stream_in_url url)
    × LeadsTo p2p_client p2p_server "h" "." (ethernet ∷ []) url
get_stream_in_p2p_url-get_p2p_url_example =
    get_stream_in_p2p_url-get_p2p_url p2p_client p2p_server "h" "." (ethernet ∷ []) ethernet
      (ip_net (49 ∷ 46 ∷ 50 ∷ [])) parse-IsParser (omega arith) (omega arith) ethernet-AreIpTexts
      refl refl refl ethernet_readable (inl refl)
      (refl, (_, refl, inr (inl refl), second_IsOfFamily))
