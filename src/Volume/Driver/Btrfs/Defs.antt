-- ===== src/Volume/Driver/Btrfs/Defs.antt =====
-- The operations of `BtrFSDriver`, and `isSubvolume` of is_subvolume_linux.go.
use baggageclaim.Prelude.{
  ℕ, String, Bool, true, false, Option, none, some, List, [], ◌∷◌, ◌++◌, nat_eq, if◌then◌else◌,
}

-- the names from the data directory of a volume down to an entry
abbrev pub Trail : Type 0
Trail = List String

-- What filepath.Walk finds below a path, the entries of a directory in the order of their names: an
-- entry that cannot be looked at is lost; the number of an inode is none where the second look of
-- `isSubvolume` fails; what is in a directory may be unreadable.
mutual
  pub data Tree : Type 0 where
    lost : Tree
    file : Tree
    dir : Option ℕ → Entries → Tree

  pub data Entries : Type 0 where
    unreadable : Entries
    nil : Entries
    cons : String → Tree → Entries → Entries

-- The program btrfs, on the state of the machine: whether `subvolume create`, `subvolume delete` and
-- `subvolume snapshot` succeed, and the state after them. The data directory of a volume is walked as
-- the tree that the machine has there.
pub record Btrfs (S V : Type 0) : Type 0 where
  pub tree : V → S → Tree
  pub create : V → S → Bool × S
  pub delete : V → Trail → S → Bool × S
  pub snapshot : (above child : V) → S → Bool × S

-- btrfsVolumeIno
abbrev pub btrfs_volume_ino : ℕ
btrfs_volume_ino = 256

abbrev pub is_subvolume : Option ℕ → Option Bool
is_subvolume none = none
is_subvolume (some ino) = some (nat_eq ino btrfs_volume_ino)

abbrev pub and_then : {A B : Type 0} → Option A → (A → Option B) → Option B
and_then none next = none
and_then (some a) next = next a

abbrev pub add_if : Trail → List Trail → Bool → Option (List Trail)
add_if p to_delete is_sub = some (if is_sub then to_delete ++ (p ∷ []) else to_delete)

-- `findSubvolumes` at a directory
abbrev pub find_subvolumes : Trail → Option ℕ → List Trail → Option (List Trail)
find_subvolumes p ino to_delete = and_then (is_subvolume ino) (add_if p to_delete)

-- filepath.Walk with `findSubvolumes`, which goes on with the paths found so far
unfoldable mutual
  pub walk_tree : Trail → Tree → List Trail → Option (List Trail)
  walk_tree p lost to_delete = none
  walk_tree p file to_delete = some to_delete
  walk_tree p (dir ino entries) to_delete =
      and_then (find_subvolumes p ino to_delete) (walk_entries p entries)

  pub walk_entries : Trail → Entries → List Trail → Option (List Trail)
  walk_entries p unreadable to_delete = none
  walk_entries p nil to_delete = some to_delete
  walk_entries p (cons name t rest) to_delete =
      and_then (walk_tree (p ++ (name ∷ [])) t to_delete) (walk_entries p rest)

module _ {S V : Type 0} (btrfs : Btrfs S V) where
  abbrev pub if_deleted : V → Trail → Bool × S → Bool × S
  if_deleted vol p (false, s) = (false, s)
  if_deleted vol p (true, s) = btrfs.delete vol p s

  -- the loop from the last path down to the first
  unfoldable pub delete_backwards : V → List Trail → S → Bool × S
  delete_backwards vol [] s = (true, s)
  delete_backwards vol (p ∷ ps) s = if_deleted vol p (delete_backwards vol ps s)

  abbrev pub if_walked : V → Option (List Trail) → S → Bool × S
  if_walked vol none s = (false, s)
  if_walked vol (some to_delete) s = delete_backwards vol to_delete s

  unfoldable pub destroy_volume : V → S → Bool × S
  destroy_volume vol s = if_walked vol (walk_tree [] (btrfs.tree vol s) []) s

  unfoldable pub create_volume : V → S → Bool × S
  create_volume vol s = btrfs.create vol s

  unfoldable pub create_copy_on_write_layer : V → V → S → Bool × S
  create_copy_on_write_layer child above s = btrfs.snapshot above child s
