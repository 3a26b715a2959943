-- ===== src/Volume/Driver/Btrfs/Order.antt =====
-- The order in which the walk over a tree finds its subvolumes.
use baggageclaim.Prelude.{
  String, ◌≡◌, refl, Bool, true, false, none, some, List, [], ◌∷◌, ◌++◌, map, nat_eq, Bool-cases,
  inl, inr, ◌==◌, ◌&&◌, arith, eq_iff,
}
use baggageclaim.Volume.Driver.Btrfs.Defs.{
  Trail, Tree, lost, file, dir, Entries, unreadable, nil, cons, btrfs_volume_ino,
}
use baggageclaim.Volume.Driver.Btrfs.Subvolumes.{subvolumes, subvolumes_in}

-- whether the second path goes on below the first
abbrev pub below : Trail → Trail → Bool
below [] [] = false
below [] (y ∷ q) = true
below (x ∷ p) [] = false
below (x ∷ p) (y ∷ q) = (x == y) && below p q

-- The path is below none of these.
abbrev pub NotBelow : Trail → List Trail → Type 0
NotBelow p [] = Unit
NotBelow p (q ∷ qs) = (below q p ≡ false) × NotBelow p qs

-- None of these is below the path.
abbrev pub NothingBelow : Trail → List Trail → Type 0
NothingBelow p [] = Unit
NothingBelow p (q ∷ qs) = (below p q ≡ false) × NothingBelow p qs

-- No path is below a later one.
abbrev pub TopDown : List Trail → Type 0
TopDown [] = Unit
TopDown (p ∷ ps) = NotBelow p ps × TopDown ps

-- The name is none of those of the entries.
abbrev pub IsNew : String → Entries → Type 0
IsNew name unreadable = Unit
IsNew name nil = Unit
IsNew name (cons other t rest) = ((other == name) ≡ false) × IsNew name rest

-- The entries of each directory have different names.
unfoldable mutual
  pub IsNamed : Tree → Type 0
  IsNamed lost = Unit
  IsNamed file = Unit
  IsNamed (dir ino entries) = AreNamed entries

  pub AreNamed : Entries → Type 0
  AreNamed unreadable = Unit
  AreNamed nil = Unit
  AreNamed (cons name t rest) = IsNew name rest × IsNamed t × AreNamed rest

root-NotBelow : (qs : List Trail) → NotBelow [] qs
root-NotBelow [] = tt
root-NotBelow ([] ∷ qs) = (refl, root-NotBelow qs)
root-NotBelow ((y ∷ q) ∷ qs) = (refl, root-NotBelow qs)

NotBelow-append :
    (p : Trail) (xs ys : List Trail) → NotBelow p xs → NotBelow p ys → NotBelow p (xs ++ ys)
NotBelow-append p [] ys a b = b
NotBelow-append p (x ∷ xs) ys (e, a) b = (e, NotBelow-append p xs ys a b)

NotBelow-map :
    (name : String) (p : Trail) (xs : List Trail)
    → NotBelow p xs
    → NotBelow (name ∷ p) (map (λ q. name ∷ q) xs)
NotBelow-map name p [] a = tt
NotBelow-map name p (x ∷ xs) (e, a) =
    (rw e (ground (arith, eq_iff name name)), NotBelow-map name p xs a)

NotBelow-other :
    (name other : String) (p : Trail) (xs : List Trail)
    → (other == name) ≡ false
    → NotBelow (name ∷ p) (map (λ q. other ∷ q) xs)
NotBelow-other name other p [] ne = tt
NotBelow-other name other p (x ∷ xs) ne = (rw ne refl, NotBelow-other name other p xs ne)

-- A path under a new name is below none of the subvolumes of the entries.
new-NotBelow :
    (name : String) (p : Trail) (entries : Entries)
    → IsNew name entries
    → NotBelow (name ∷ p) (subvolumes_in entries)
unfolding subvolumes
new-NotBelow name p unreadable new = tt
new-NotBelow name p nil new = tt
new-NotBelow name p (cons other t rest) (ne, new) =
    NotBelow-append (name ∷ p) (map (λ q. other ∷ q) (subvolumes t)) (subvolumes_in rest)
      (NotBelow-other name other p (subvolumes t) ne) (new-NotBelow name p rest new)

TopDown-entry :
    (name : String) (entries : Entries) (ps : List Trail)
    → IsNew name entries
    → TopDown ps
    → TopDown (subvolumes_in entries)
    → TopDown (map (λ q. name ∷ q) ps ++ subvolumes_in entries)
TopDown-entry name entries [] new a b = b
TopDown-entry name entries (p ∷ ps) new (first, a) b = (
  NotBelow-append (name ∷ p) (map (λ q. name ∷ q) ps) (subvolumes_in entries)
      (NotBelow-map name p ps first) (new-NotBelow name p entries new),
  TopDown-entry name entries ps new a b,
)

mutual
  unfolding subvolumes IsNamed

  subvolumes_lem : (t : Tree) → IsNamed t → TopDown (subvolumes t)
  subvolumes_lem lost n = tt
  subvolumes_lem file n = tt
  subvolumes_lem (dir none entries) n = tt
  subvolumes_lem (dir (some ino) entries) n = elim (Bool-cases (nat_eq ino btrfs_volume_ino)) [
    | inl sub ↦ rw sub (root-NotBelow (subvolumes_in entries), subvolumes_in_lem entries n)
    | inr plain ↦ rw plain (subvolumes_in_lem entries n)
  ]

  subvolumes_in_lem : (entries : Entries) → AreNamed entries → TopDown (subvolumes_in entries)
  subvolumes_in_lem unreadable n = tt
  subvolumes_in_lem nil n = tt
  subvolumes_in_lem (cons name t rest) (new, n, ns) =
      TopDown-entry name rest (subvolumes t) new (subvolumes_lem t n) (subvolumes_in_lem rest ns)

-- No subvolume is below one that the walk finds later.
pub subvolumes-TopDown : (t : Tree) → IsNamed t → TopDown (subvolumes t)
subvolumes-TopDown t n = subvolumes_lem t n
