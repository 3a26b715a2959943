-- ===== src/Uidgid/MaxValid.antt =====
-- uidgid/max_valid_uid.go: the id that is taken for the greatest one of a user
-- namespace, from the lines of /proc/self/uid_map.
use baggageclaim.Prelude.{
  ℕ, ◌+◌, ◌-◌, ◌^◌, ◌%◌, ◌≤◌, ◌≡◌, refl, Option, none, some, List, [], ◌∷◌, ◌++◌, ltb,
  if◌then◌else◌, arith, ap, ◌∙◌,
}

abbrev pub max_int : ℕ
max_int = 2 ^ 63 - 1

-- A line of the file: the container, host and size that Sscanf reads from it, or none where it reads
-- less than three numbers.
pub record MapLine : Type 0 where
  pub container : ℕ
  pub host : ℕ
  pub size : ℕ

unfoldable pub min_uint : ℕ → ℕ → ℕ
min_uint a b = if ltb a b then a else b

-- `container+size-1` on 64-bit unsigned words
unfoldable pub last_id : MapLine → ℕ
last_id l = (l.container + l.size + 2 ^ 64 - 1) % 2 ^ 64

-- the loop over the lines; none stands for the ParseError
unfoldable pub max_valid_from : ℕ → List (Option MapLine) → Option ℕ
max_valid_from m [] = some m
max_valid_from m (none ∷ lines) = none
max_valid_from m (some l ∷ lines) = max_valid_from (min_uint (last_id l) max_int) lines

unfoldable pub max_valid : List (Option MapLine) → Option ℕ
unfolding max_valid_from
max_valid lines = max_valid_from 0 lines

max_valid_from-le :
    (m n : ℕ) (lines : List (Option MapLine))
    → m ≤ max_int
    → max_valid_from m lines ≡ some n
    → n ≤ max_int
unfolding max_valid_from min_uint
max_valid_from-le m n [] h e = ground arith
max_valid_from-le m n (none ∷ lines) h e = ground arith
max_valid_from-le m n (some l ∷ lines) h e =
    max_valid_from-le (min_uint (last_id l) max_int) n lines (ground arith) e

-- The id that is found fits an int, so that the conversion to one changes nothing.
pub max_valid-le-max_int :
    (lines : List (Option MapLine)) (n : ℕ) → max_valid lines ≡ some n → n ≤ max_int
unfolding max_valid
max_valid-le-max_int lines n e = max_valid_from-le 0 n lines (omega arith) e

max_valid_from-last :
    (m n : ℕ) (l : MapLine) (lines : List (Option MapLine))
    → max_valid_from m lines ≡ some n
    → max_valid_from m (lines ++ some l ∷ []) ≡ some (min_uint (last_id l) max_int)
unfolding max_valid_from
max_valid_from-last m n l [] e = refl
max_valid_from-last m n l (none ∷ lines) e = absurd (ground arith)
max_valid_from-last m n l (some k ∷ lines) e =
    max_valid_from-last (min_uint (last_id k) max_int) n l lines e

-- The last id of a line that holds an id and ends within 64 bits, or the greatest int.
min_uint-last_id :
    (l : MapLine)
    → 1 ≤ l.container + l.size
    → l.container + l.size ≤ 2 ^ 64
    → min_uint (last_id l) max_int ≡ (
        if ltb (l.container + l.size - 1) 9223372036854775807
        then l.container + l.size - 1
        else 9223372036854775807)
unfolding min_uint last_id
min_uint-last_id l low high = rw (word_pred (l.container + l.size) low high) refl
  where
    word_pred : (n : ℕ) → 1 ≤ n → n ≤ 2 ^ 64 → (n + 2 ^ 64 - 1) % 2 ^ 64 ≡ n - 1
    word_pred n low high = omega arith

-- Where the lines parse, adding a line at the end that is not empty at 0 and ends within 64 bits makes
-- the result the id before the sum of the line's first id and its size, or 2^63-1 where that is
-- smaller, whatever the lines above it say.
pub max_valid-last :
    (lines : List (Option MapLine)) (n : ℕ) (l : MapLine)
    → max_valid lines ≡ some n
    → 1 ≤ l.container + l.size
    → l.container + l.size ≤ 2 ^ 64
    → max_valid (lines ++ some l ∷ [])
      ≡ some (
          if ltb (l.container + l.size - 1) 9223372036854775807
          then l.container + l.size - 1
          else 9223372036854775807)
unfolding max_valid
max_valid-last lines n l e low high =
    max_valid_from-last 0 n l lines e ∙ ap some (min_uint-last_id l low high)
