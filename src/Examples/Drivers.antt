-- ===== src/Examples/Drivers.antt =====
-- A start of the server, and a volume of the btrfs driver with one subvolume in another.
use baggageclaim.Prelude.{
  ◌≡◌, ◌≤◌, refl, subst, arith, Bool, true, false, some, List, [], ◌∷◌, ◌++◌,
}
use baggageclaim.Volume.Driver.Btrfs.{Trail, Tree, lost, dir, nil, cons, Btrfs, destroy_volume}
use baggageclaim.Volume.Driver.Btrfs.Subvolumes.{subvolumes}
use baggageclaim.Volume.Driver.Btrfs.Order.{NothingBelow, IsNamed}
use baggageclaim.Volume.Driver.Btrfs.Subvolumes.{IsReadable}
use baggageclaim.Volume.Driver.Btrfs.Cleared.{IsBtrfs, destroy_volume_clears}
use baggageclaim.Startup.Image.{Shell, create, run}
use baggageclaim.Startup.Selection.{
  line, end_of_file, Host, BaggageclaimCommand, btrfs_driver, mount_size, select_driver,
  btrfs_bytes,
}
use baggageclaim.Startup.Chosen.{mount_size-le, Supported, select_driver-Supported}

-- The data directory with a subvolume "x" in it, the data directory alone, and neither.
data Nesting : Type 0 where
  both outer gone : Nesting

abbrev tree : Unit {0} → Nesting → Tree
tree vol both = dir (some 256) (cons "x" (dir (some 256) nil) nil)
tree vol outer = dir (some 256) nil
tree vol gone = lost

abbrev delete : Unit {0} → Trail → Nesting → Bool × Nesting
delete vol [] outer = (true, gone)
delete vol (n ∷ p) both = (true, outer)
delete vol p s = (false, s)

abbrev small : Btrfs Nesting (Unit {0})
small = record {
  tree = tree;
  create = λ vol s. (true, outer);
  delete = delete;
  snapshot = λ above child s. (true, s);
}

delete_law :
    (s : Nesting) (above after : List Trail) (p : Trail)
    → subvolumes (tree tt s) ≡ above ++ (p ∷ after)
    → NothingBelow p (above ++ after)
    → ((delete tt p s).0 ≡ true) × (subvolumes (tree tt (delete tt p s).1) ≡ above ++ after)
unfolding subvolumes
delete_law both [] after [] e free =
    let rest : after ≡ ("x" ∷ []) ∷ [] = cc e in absurd (cc (subst (NothingBelow []) rest free).0)
delete_law both [] after (n ∷ p) e free = absurd (cc e)
delete_law both (x ∷ []) after [] e free = absurd (cc e)
delete_law both (x ∷ []) after (n ∷ p) e free = (refl, cc e)
delete_law both (x ∷ y ∷ []) after p e free = absurd (cc e)
delete_law both (x ∷ y ∷ z ∷ above) after p e free = absurd (cc e)
delete_law outer [] after [] e free = (refl, cc e)
delete_law outer [] after (n ∷ p) e free = absurd (cc e)
delete_law outer (x ∷ []) after p e free = absurd (cc e)
delete_law outer (x ∷ y ∷ above) after p e free = absurd (cc e)
delete_law gone [] after p e free = absurd (cc e)
delete_law gone (x ∷ above) after p e free = absurd (cc e)

small-IsBtrfs : IsBtrfs small
small-IsBtrfs = record { delete = λ vol s above after p e free. delete_law s above after p e free }

destroy_volume_clears_example :
    ((destroy_volume small tt both).0 ≡ true)
    × (subvolumes (tree tt (destroy_volume small tt both).1) ≡ [])
unfolding subvolumes IsReadable IsNamed
destroy_volume_clears_example =
    destroy_volume_clears small small-IsBtrfs tt both (tt, tt) (tt, tt, tt)

-- a disk of 64 GiB
mount_size-le_example :
    (mount_size 68719476736 ≤ 68719476736) × (mount_size 68719476736 ≡ 57982058496)
mount_size-le_example = mount_size-le 68719476736 (omega arith)

abbrev willing : Shell
willing asked r = some []

-- a host with btrfs, and a volumes directory that is not on it
abbrev start_host : Host
start_host = record {
  statfs = some (record { fs_type = 0xef53; blocks = 16777216; bsize = 4096 });
  kernel_supports_overlay = some true;
  filesystems = some (line (9 ∷ 101 ∷ []) (line (9 ∷ btrfs_bytes) end_of_file));
  look_path = λ name. true;
}

abbrev command : BaggageclaimCommand
command = record {
  volumes_dir = "/volumes";
  driver = "detect";
  btrfs_bin = "btrfs";
  mkfs_bin = "mkfs.btrfs";
  overlays_dir = "";
}

select_driver-Supported_example :
    Supported willing command start_host
      (btrfs_driver "btrfs")
      (select_driver willing command start_host []).1
unfolding select_driver create run
select_driver-Supported_example =
    select_driver-Supported willing command start_host [] (btrfs_driver "btrfs") refl
