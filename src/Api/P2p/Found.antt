-- ===== src/Api/P2p/Found.antt =====
-- Which addresses `GetP2pUrl` answers with.
use baggageclaim.Prelude.{
  ℕ, nat_eq, ◌≢◌, arith, ◌≡◌, refl, sym, subst, ◌∙◌, true, false, Option, none, some, List, [], ◌∷◌,
  Bool-cases, ◌⊎◌, inl, inr, Mem, if◌then◌else◌,
}
use baggageclaim.Disk.World.{Bytes}
use baggageclaim.Api.P2p.Defs.{
  Address, Interface, P2pServer, P2pAnswer, p2p_url, ip_text, has_byte, of_family, url_text,
  try_addresses, with_addresses, try_interfaces, get_p2p_url,
}

Mem-has_byte : (c : ℕ) (bs : Bytes) → Mem c bs → has_byte c bs ≡ true
Mem-has_byte c [] m = absurd m
Mem-has_byte c (b ∷ bs) (inl same) = ground (arith, same)
Mem-has_byte c (b ∷ bs) (inr m) = ground (arith, Mem-has_byte c bs m)

has_byte-Mem : (c : ℕ) (bs : Bytes) → has_byte c bs ≡ true → Mem c bs
has_byte-Mem c [] h = absurd (cc h)
has_byte-Mem c (b ∷ bs) h = elim (Bool-cases (nat_eq b c)) [
  | inl same ↦ inl (ground (arith, same))
  | inr other ↦ inr (has_byte-Mem c bs (ground (arith, h, other)))
]

pub not_Mem-has_byte : (c : ℕ) (bs : Bytes) → ¬ Mem c bs → has_byte c bs ≡ false
not_Mem-has_byte c bs out = elim (Bool-cases (has_byte c bs)) [
  | inl found ↦ absurd (out (has_byte-Mem c bs found))
  | inr missed ↦ missed
]

not_has_byte-Mem : (c : ℕ) (bs : Bytes) → has_byte c bs ≡ false → ¬ Mem c bs
not_has_byte-Mem c bs missed m = absurd (cc (missed, Mem-has_byte c bs m))

-- The text of an address of the family 6 has no point, and that of another family no colon.
abbrev pub IsOfFamily : ℕ → Address → Type 0
IsOfFamily family a = ((family ≡ 6) × ¬ Mem 46 (ip_text a)) ⊎ ((family ≢ 6) × ¬ Mem 58 (ip_text a))

of_family-IsOfFamily : (family : ℕ) (a : Address) → of_family family a ≡ true → IsOfFamily family a
of_family-IsOfFamily family a h = elim (Bool-cases (nat_eq family 6)) [
  | inl six ↦ inl (ground (arith, six), not_has_byte-Mem 46 (ip_text a) (ground (arith, six, h)))
  | inr four ↦ inr (ground (arith, four), not_has_byte-Mem 58 (ip_text a) (ground (arith, four, h)))
]

IsOfFamily-of_family : (family : ℕ) (a : Address) → IsOfFamily family a → of_family family a ≡ true
IsOfFamily-of_family family a (inl (six, out)) =
    ground (arith, six, not_Mem-has_byte 46 (ip_text a) out)
IsOfFamily-of_family family a (inr (four, out)) =
    ground (arith, four, not_Mem-has_byte 58 (ip_text a) out)

module _ (server : P2pServer) where
  -- An address that the server may be reached at.
  abbrev pub Suits : Interface → Address → Type 0
  Suits i a =
      (server.p2p_interface_pattern i.name ≡ true)
      × ((addrs : List Address) × (i.addresses ≡ some addrs)
          × Mem a addrs
          × IsOfFamily server.p2p_interface_family a)

  abbrev pub IsAnswerOf : Interface → Address → P2pAnswer → Type 0
  IsAnswerOf i a answer =
      Suits i a × (answer ≡ p2p_url (url_text (ip_text a) server.p2p_stream_port))

  -- the answer that an address gives, or the rest
  try_addresses_found :
      (addrs : List Address) (rest : P2pAnswer)
      → ((a : Address) × Mem a addrs
          × (of_family server.p2p_interface_family a ≡ true)
          × (try_addresses server addrs rest
              ≡ p2p_url (url_text (ip_text a) server.p2p_stream_port)))
        ⊎ ((try_addresses server addrs rest ≡ rest)
            × ((a : Address) → Mem a addrs → of_family server.p2p_interface_family a ≡ false))
  try_addresses_found [] rest = inr (refl, λ a m. absurd m)
  try_addresses_found (b ∷ addrs) rest =
      elim (Bool-cases (of_family server.p2p_interface_family b)) [
        | inl fits ↦ inl (b, inl refl, fits, rw fits refl)
        | inr not_fit ↦ elim (try_addresses_found addrs rest) [
          | inl (a, m, fits, e) ↦ inl (a, inr m, fits, rw not_fit e)
          | inr (e, no_fit) ↦ inr (
            rw not_fit e,
            λ a m. elim m [ inl same ↦ rw same not_fit | inr among ↦ no_fit a among ],
          )
        ]
      ]

  -- an answer with a URL comes of an address of a matching interface
  abbrev pub Answered : List Interface → Bytes → Type 0
  Answered is u =
      (i : Interface) × (a : Address) × Mem i is
      × Suits i a
      × (u ≡ url_text (ip_text a) server.p2p_stream_port)

  Answered-later :
      (i : Interface) (is : List Interface) (u : Bytes) → Answered is u → Answered (i ∷ is) u
  Answered-later i is u (j, a, m, suits, e) = (j, a, inr m, suits, e)

  with_addresses_sound :
      (i : Interface) (is : List Interface) (o : Option (List Address)) (rest : P2pAnswer)
      (u : Bytes)
      → server.p2p_interface_pattern i.name ≡ true
      → i.addresses ≡ o
      → (rest ≡ p2p_url u → Answered is u)
      → with_addresses server o rest ≡ p2p_url u
      → Answered (i ∷ is) u
  with_addresses_sound i is none rest u matches at on e = absurd (cc e)
  with_addresses_sound i is (some addrs) rest u matches at on e =
      elim (try_addresses_found addrs rest) [
        | inl (a, m, fits, given) ↦ (
          i,
          a,
          inl refl,
          (matches, (addrs, at, m, of_family-IsOfFamily server.p2p_interface_family a fits)),
          cc (sym e ∙ given),
        )
        | inr (skipped, no_fit) ↦ Answered-later i is u (on (sym skipped ∙ e))
      ]

  try_interfaces_sound :
      (is : List Interface) (u : Bytes) → try_interfaces server is ≡ p2p_url u → Answered is u
  unfolding try_interfaces
  try_interfaces_sound [] u e = absurd (cc e)
  try_interfaces_sound (i ∷ is) u e = elim (Bool-cases (server.p2p_interface_pattern i.name)) [
    | inl matches ↦
        with_addresses_sound i is i.addresses (try_interfaces server is) u matches refl
          (try_interfaces_sound is u) (rw matches at e)
    | inr no_match ↦ Answered-later i is u (try_interfaces_sound is u (rw no_match at e))
  ]

  -- The addresses of the matching interfaces can be read.
  abbrev pub AreReadable : List Interface → Type 0
  AreReadable is =
      (i : Interface)
      → Mem i is
      → server.p2p_interface_pattern i.name ≡ true
      → (addrs : List Address) × (i.addresses ≡ some addrs)

  abbrev pub IsUrl : P2pAnswer → Type 0
  IsUrl answer = (u : Bytes) × (answer ≡ p2p_url u)

  try_addresses-IsUrl :
      (addrs : List Address) (rest : P2pAnswer)
      → IsUrl rest
      → IsUrl (try_addresses server addrs rest)
  try_addresses-IsUrl addrs rest (u, e) = elim (try_addresses_found addrs rest) [
    | inl (a, m, fits, given) ↦ (_, given)
    | inr (skipped, no_fit) ↦ (u, skipped ∙ e)
  ]

  try_addresses_fit :
      (addrs : List Address) (rest : P2pAnswer) (a : Address)
      → Mem a addrs
      → of_family server.p2p_interface_family a ≡ true
      → IsUrl (try_addresses server addrs rest)
  try_addresses_fit addrs rest a m fits = elim (try_addresses_found addrs rest) [
    | inl (b, among, fits_b, given) ↦ (_, given)
    | inr (skipped, no_fit) ↦ absurd (cc (no_fit a m, fits))
  ]

  first_interface :
      (i : Interface) (rest : P2pAnswer) (a : Address)
      → Suits i a
      → IsUrl (
          if server.p2p_interface_pattern i.name
          then with_addresses server i.addresses rest
          else rest)
  first_interface i rest a (matches, (addrs, at, m, fits)) = rw matches (
      rw at (
        try_addresses_fit addrs rest a m (IsOfFamily-of_family server.p2p_interface_family a fits)))

  later_interface :
      (i : Interface) (rest : P2pAnswer)
      → (server.p2p_interface_pattern i.name ≡ true
          → (addrs : List Address) × (i.addresses ≡ some addrs))
      → IsUrl rest
      → IsUrl (
          if server.p2p_interface_pattern i.name
          then with_addresses server i.addresses rest
          else rest)
  later_interface i rest readable url = elim (Bool-cases (server.p2p_interface_pattern i.name)) [
    | inl matches ↦
        let (addrs, at) = readable matches in
        rw matches (rw at (try_addresses-IsUrl addrs rest url))
    | inr no_match ↦ rw no_match url
  ]

  try_interfaces_complete :
      (is : List Interface) (i : Interface) (a : Address)
      → AreReadable is
      → Mem i is
      → Suits i a
      → IsUrl (try_interfaces server is)
  unfolding try_interfaces
  try_interfaces_complete [] i a readable m suits = absurd m
  try_interfaces_complete (j ∷ is) i a readable (inl same) suits =
      first_interface j (try_interfaces server is) a (subst (λ k. Suits k a) same suits)
  try_interfaces_complete (j ∷ is) i a readable (inr m) suits =
      later_interface j (try_interfaces server is) (readable j (inl refl))
        (try_interfaces_complete is i a (λ k among. readable k (inr among)) m suits)

  -- Where the addresses of the interfaces with a matching name can be read, and one of them is of the
  -- right family, `GetP2pUrl` answers with a URL; and that URL is made of the server's port and of an
  -- address of the right family, of an interface whose name matches. An address is of the right family
  -- where its text has no point, for the family 6, or no colon, for any other.
  pub get_p2p_url_found :
      (is : List Interface) (i : Interface) (a : Address)
      → AreReadable is
      → Mem i is
      → Suits i a
      → (u : Bytes) × (get_p2p_url server (some is) ≡ p2p_url u) × Answered is u
  unfolding get_p2p_url
  get_p2p_url_found is i a readable m suits =
      let (u, e) = try_interfaces_complete is i a readable m suits in
      (u, e, try_interfaces_sound is u e)
