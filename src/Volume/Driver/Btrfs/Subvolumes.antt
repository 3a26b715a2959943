-- ===== src/Volume/Driver/Btrfs/Subvolumes.antt =====
-- Which subvolumes the walk over a tree finds.
use baggageclaim.Prelude.{
  String, ◌≡◌, refl, ap, ◌∙◌, none, some, List, [], ◌∷◌, ◌++◌, map, append_assoc, append-nil,
  nat_eq, if◌then◌else◌, Bool-cases, inl, inr,
}
use baggageclaim.Volume.Driver.Btrfs.Defs.{
  Trail, Tree, lost, file, dir, Entries, unreadable, nil, cons, btrfs_volume_ino, walk_tree,
  walk_entries,
}

-- The subvolumes of a tree by their paths from it, a directory before what is in it.
unfoldable mutual
  pub subvolumes : Tree → List Trail
  subvolumes lost = []
  subvolumes file = []
  subvolumes (dir none entries) = []
  subvolumes (dir (some ino) entries) =
      (if nat_eq ino btrfs_volume_ino then [] ∷ [] else []) ++ subvolumes_in entries

  pub subvolumes_in : Entries → List Trail
  subvolumes_in unreadable = []
  subvolumes_in nil = []
  subvolumes_in (cons name t rest) = map (λ p. name ∷ p) (subvolumes t) ++ subvolumes_in rest

-- Every entry of a tree can be looked at.
unfoldable mutual
  pub IsReadable : Tree → Type 0
  IsReadable lost = ⊥
  IsReadable file = Unit
  IsReadable (dir none entries) = ⊥
  IsReadable (dir (some ino) entries) = AreReadable entries

  pub AreReadable : Entries → Type 0
  AreReadable unreadable = ⊥
  AreReadable nil = Unit
  AreReadable (cons name t rest) = IsReadable t × AreReadable rest

abbrev below_path : Trail → List Trail → List Trail
below_path p = map (λ q. p ++ q)

map-append :
    (p : Trail) (xs ys : List Trail) → below_path p (xs ++ ys) ≡ below_path p xs ++ below_path p ys
map-append p [] ys = refl
map-append p (x ∷ xs) ys = ap (λ zs. (p ++ x) ∷ zs) (map-append p xs ys)

below_name :
    (p : Trail) (name : String) (xs : List Trail)
    → below_path p (map (λ q. name ∷ q) xs) ≡ below_path (p ++ (name ∷ [])) xs
below_name p name [] = refl
below_name p name (x ∷ xs) = rw (append_assoc p (name ∷ []) x) (rw (below_name p name xs) refl)

mutual
  unfolding walk_tree subvolumes IsReadable

  walk_lem :
      (p : Trail) (t : Tree) (to_delete : List Trail)
      → IsReadable t
      → walk_tree p t to_delete ≡ some (to_delete ++ below_path p (subvolumes t))
  walk_lem p lost to_delete r = absurd r
  walk_lem p file to_delete r = rw (append-nil to_delete) refl
  walk_lem p (dir none entries) to_delete r = absurd r
  walk_lem p (dir (some ino) entries) to_delete r =
      elim (Bool-cases (nat_eq ino btrfs_volume_ino)) [
        | inl sub ↦ rw sub (
            rw (walk_entries_lem p entries (to_delete ++ (p ∷ [])) r) (
              rw
                (
                  append-nil p,
                  append_assoc to_delete (p ∷ []) (below_path p (subvolumes_in entries)),
                )
                refl))
        | inr plain ↦ rw plain (walk_entries_lem p entries to_delete r)
      ]

  walk_entries_lem :
      (p : Trail) (entries : Entries) (to_delete : List Trail)
      → AreReadable entries
      → walk_entries p entries to_delete ≡ some (to_delete ++ below_path p (subvolumes_in entries))
  walk_entries_lem p unreadable to_delete r = absurd r
  walk_entries_lem p nil to_delete r = rw (append-nil to_delete) refl
  walk_entries_lem p (cons name t rest) to_delete r =
      rw (walk_lem (p ++ (name ∷ [])) t to_delete r.0) (
        rw (walk_entries_lem p rest (to_delete ++ below_path (p ++ (name ∷ [])) (subvolumes t)) r.1)
          (rw
            (
              map-append p (map (λ q. name ∷ q) (subvolumes t)) (subvolumes_in rest),
              below_name p name (subvolumes t),
              append_assoc to_delete (below_path (p ++ (name ∷ [])) (subvolumes t))
                  (below_path p (subvolumes_in rest)),
            )
            refl))

below_path-nil : (xs : List Trail) → below_path [] xs ≡ xs
below_path-nil [] = refl
below_path-nil (x ∷ xs) = rw (below_path-nil xs) refl

-- Where every entry can be looked at, the walk finds the subvolumes.
pub walk_tree-subvolumes : (t : Tree) → IsReadable t → walk_tree [] t [] ≡ some (subvolumes t)
walk_tree-subvolumes t r = walk_lem [] t [] r ∙ ap some (below_path-nil (subvolumes t))
