-- ===== src/Examples/Wire.antt =====
-- A wire format for tables of text, such as an encoder and a decoder of JSON could be.
use Prim.Native.Nat.{Ordering, lt, eq, gt, compare}
use Prim.Native.Char.{Char, char, code, IsScalar}
use Prim.Native.String.{[] as nil, ◌∷◌ as ◌⊳◌}
use baggageclaim.Prelude.{
  ℕ, zero, suc, String, ◌≡◌, refl, sym, ap, subst, ◌⊎◌, inl, inr, Option, none, some, List, [], ◌∷◌,
  ◌++◌,
}
use baggageclaim.Disk.World.{Bytes}

pub IsScalar-cases :
    (n : ℕ) (a b c : Ordering)
    → compare n 55296 ≡ a
    → compare 57343 n ≡ b
    → compare n 1114112 ≡ c
    → (IsScalar n ≡ Unit) ⊎ (IsScalar n ≡ ⊥)
IsScalar-cases n lt b c e f g = inl (rw e refl)
IsScalar-cases n eq lt lt e f g = inl (rw (e, f, g) refl)
IsScalar-cases n eq lt _ e f g = inr (rw (e, f, g) refl)
IsScalar-cases n eq _ c e f g = inr (rw (e, f) refl)
IsScalar-cases n gt lt lt e f g = inl (rw (e, f, g) refl)
IsScalar-cases n gt lt _ e f g = inr (rw (e, f, g) refl)
IsScalar-cases n gt _ c e f g = inr (rw (e, f) refl)

abbrev pub as_char : (n : ℕ) → (IsScalar n ≡ Unit) ⊎ (IsScalar n ≡ ⊥) → Option Char
as_char n (inl e) = some (char n (subst (λ T. T) (sym e) tt))
as_char n (inr e) = none

as_char_scalar :
    (n : ℕ) (p : IsScalar n) (c : (IsScalar n ≡ Unit) ⊎ (IsScalar n ≡ ⊥))
    → as_char n c ≡ some (char n p)
as_char_scalar n p (inl e) =
    ap (λ q. some (char n q)) (subst (λ T. (a b : T) → a ≡ b) (sym e) (λ a b. refl) _ p)
as_char_scalar n p (inr e) = absurd (subst (λ T. T) e p)

unfoldable pub of_code : ℕ → Option Char
of_code n = as_char n (IsScalar-cases n _ _ _ refl refl refl)

of_code-code : (c : Char) → of_code (code c) ≡ some c
unfolding of_code
of_code-code (char n p) = as_char_scalar n p _

-- A list of texts is written as, for each of them, 1 and the numbers of its characters plus 2; then 0.
abbrev pub put_text : String → Bytes → Bytes
put_text nil rest = rest
put_text (c ⊳ s) rest = suc (suc (code c)) ∷ put_text s rest

abbrev pub put_texts : List String → Bytes → Bytes
put_texts [] rest = 0 ∷ rest
put_texts (s ∷ ss) rest = 1 ∷ put_text s (put_texts ss rest)

abbrev pub with_char : Option Char → Option (String × List String) → Option (String × List String)
with_char (some c) (some (s, ss)) = some (c ⊳ s, ss)
with_char _ _ = none

abbrev pub with_start : Option (String × List String) → Option (String × List String)
with_start (some (s, ss)) = some ("", s ∷ ss)
with_start none = none

-- the texts of a message, of which the first has begun before it
unfoldable pub read_texts : Bytes → Option (String × List String)
read_texts [] = none
read_texts (zero ∷ bs) = some ("", [])
read_texts (suc zero ∷ bs) = with_start (read_texts bs)
read_texts (suc (suc n) ∷ bs) = with_char (of_code n) (read_texts bs)

read_texts-put_text :
    (s : String) (bs : Bytes) (ss : List String)
    → read_texts bs ≡ some ("", ss)
    → read_texts (put_text s bs) ≡ some (s, ss)
unfolding read_texts
read_texts-put_text nil bs ss h = h
read_texts-put_text (c ⊳ s) bs ss h = rw (of_code-code c, read_texts-put_text s bs ss h) refl

pub read_texts-put_texts :
    (ss : List String) (bs : Bytes) → read_texts (put_texts ss bs) ≡ some ("", ss)
unfolding read_texts
read_texts-put_texts [] bs = refl
read_texts-put_texts (s ∷ ss) bs =
    rw (read_texts-put_text s (put_texts ss bs) ss (read_texts-put_texts ss bs)) refl

put_text-append : (s : String) (bs cs : Bytes) → put_text s bs ++ cs ≡ put_text s (bs ++ cs)
put_text-append nil bs cs = refl
put_text-append (c ⊳ s) bs cs = rw (put_text-append s bs cs) refl

pub put_texts-append :
    (ss : List String) (bs cs : Bytes) → put_texts ss bs ++ cs ≡ put_texts ss (bs ++ cs)
put_texts-append [] bs cs = refl
put_texts-append (s ∷ ss) bs cs =
    rw (put_text-append s (put_texts ss bs) cs, put_texts-append ss bs cs) refl
