-- ===== src/Prelude/Table.antt =====
-- Finite tables keyed by text: a Go `map[string]V`, or a directory of named entries. A new key goes
-- last. The order is neither that of a Go map, which has none, nor that in which a directory is
-- listed, which is alphabetical: nothing is stated about it.
use Prim.Native.Nat.{◌≤◌, ◌+◌}
use Prim.Native.String.{String}
use mathlib.Core.Path.{◌≡◌, refl, sym}
use mathlib.Core.Logic.{inl, inr}
use mathlib.Core.Option.{Option, none, some}
use mathlib.Core.List.{List, [], ◌∷◌}
use native.Mathlib.Omega.{arith}
use text.Mathlib.Text.{◌==◌}
use text.Mathlib.TextEquality.{eq_iff}
use baggageclaim.Prelude.Tests.{if◌then◌else◌, Bool-cases}
use baggageclaim.Prelude.Lists.{length, Mem}

abbrev pub Table {ℓ} : Type ℓ → Type ℓ
Table V = List (String × V)

module _ {ℓ} {V : Type ℓ} where
  unfoldable pub get : String → Table V → Option V
  get k [] = none
  get k ((j, v) ∷ t) = if j == k then some v else get k t

  unfoldable pub put : String → V → Table V → Table V
  put k v [] = (k, v) ∷ []
  put k v ((j, u) ∷ t) = if j == k then (k, v) ∷ t else (j, u) ∷ put k v t

  unfoldable pub delete : String → Table V → Table V
  delete k [] = []
  delete k ((j, v) ∷ t) = let rest = delete k t in if j == k then rest else (j, v) ∷ rest

  unfoldable pub keys : Table V → List String
  keys [] = []
  keys ((j, v) ∷ t) = j ∷ keys t

  pub get-put :
      (j k : String) (v : V) (t : Table V)
      → get j (put k v t) ≡ (if k == j then some v else get j t)
  unfolding get put
  get-put j k v [] = refl
  get-put j k v ((i, u) ∷ t) = ground (arith, eq_iff i k, eq_iff i j, eq_iff k j, get-put j k v t)

  pub get-delete :
      (j k : String) (t : Table V) → get j (delete k t) ≡ (if k == j then none else get j t)
  unfolding get delete
  get-delete j k [] = ground arith
  get-delete j k ((i, u) ∷ t) = ground (arith, eq_iff i k, eq_iff i j, eq_iff k j, get-delete j k t)

  pub length-delete_le : (k : String) (t : Table V) → length (delete k t) ≤ length t
  unfolding delete
  length-delete_le k [] = omega arith
  length-delete_le k ((i, u) ∷ t) = ground (arith, length-delete_le k t)

  pub length-delete :
      (k : String) (v : V) (t : Table V) → get k t ≡ some v → length (delete k t) + 1 ≤ length t
  unfolding get delete
  length-delete k v [] h = absurd (ground arith)
  length-delete k v ((i, u) ∷ t) h = ground (arith, length-delete_le k t, length-delete k v t)

  -- Each key is there once, as in a map.
  abbrev pub IsMap : Table V → Type ℓ
  IsMap [] = Unit
  IsMap ((j, v) ∷ t) = (get j t ≡ none) × IsMap t

  pub put-IsMap : (k : String) (v : V) (t : Table V) → IsMap t → IsMap (put k v t)
  unfolding get put
  put-IsMap k v [] h = (refl, tt)
  put-IsMap k v ((i, u) ∷ t) h =
      ground (arith, put-IsMap k v t h.1, get-put i k v t, eq_iff i k, eq_iff k i)

module _ {V : Type 0} where
  pub get-keys : (k : String) (t : Table V) → Mem k (keys t) → (v : V) × (get k t ≡ some v)
  unfolding get keys
  get-keys k [] m = absurd m
  get-keys k ((j, v) ∷ t) m = elim (Bool-cases (j == k)) [
    | inl same ↦ (v, rw same refl)
    | inr differ ↦ rw differ (get-keys k t (ground (arith, m, eq_iff j k, differ)))
  ]

  pub keys-get : (k : String) (v : V) (t : Table V) → get k t ≡ some v → Mem k (keys t)
  unfolding get keys
  keys-get k v [] e = absurd (cc e)
  keys-get k v ((j, u) ∷ t) e = elim (Bool-cases (j == k)) [
    | inl same ↦ inl (sym ((eq_iff j k).0 same))
    | inr differ ↦ inr (keys-get k v t (rw differ at e))
  ]

pub ruleset table_laws = (get-put, get-delete)
