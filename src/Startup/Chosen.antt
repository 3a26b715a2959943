-- ===== src/Startup/Chosen.antt =====
-- What can be said of the driver that is chosen, and of the image that is made for it.
use baggageclaim.Prelude.{
  ℕ, String, subst, sym, ap, ◌∙◌, ◌-◌, ◌≤◌, ◌<◌, ◌^◌, ◌≡◌, refl, arith, ltb, Bool, true, false,
  Option, none, some, List, ◌∷◌, ◌⊎◌, inl, inr, ◌==◌, Bool-cases, nat_eq, nat_eq→eq, if◌then◌else◌,
  ◌%◌, not, ◌&&◌,
}
use Prim.Native.String.{◌++◌}
use baggageclaim.Disk.World.{Bytes}
use baggageclaim.Startup.Image.{Shell, MachineRequest, make_image, run, and_then, create}
use baggageclaim.Startup.Selection.{
  FsStat, Host, BaggageclaimCommand, StartDriver, overlay_driver, btrfs_driver, Selected, using,
  failed, kernel_too_old, unknown_driver, naive_driver, reserve, disk_size, mount_size,
  select_driver, pick, if_created, prepare, if_supported, if_checked, if_stat, btrfs_fs_type,
}

-- The image for a disk of less than 2 ^ 63 bytes is never larger than the disk: it leaves 10 GiB
-- free where the disk has as much, and is as large as the disk where it has not, though the
-- subtraction wraps around there.
pub mount_size-le :
    (size : ℕ)
    → size < 2 ^ 63
    → (mount_size size ≤ size)
      × (mount_size size ≡ (if ltb size reserve then size else size - reserve))
unfolding mount_size
mount_size-le size h = (ground arith, ground arith)

using-injective : {a b : StartDriver} → using a ≡ using b → a ≡ b
using-injective e = cc

module _ (machine : Shell) (cmd : BaggageclaimCommand) where
  -- the name that each driver goes by, and what it takes
  abbrev Fits : String → Bool → StartDriver → Type 0
  Fits name k (overlay_driver dir) = ((name == "overlay") ≡ true) × (k ≡ true)
  Fits name k (btrfs_driver bin) = (name == "btrfs") ≡ true
  Fits name k naive_driver = (name == "naive") ≡ true

  -- `pick` by the outcomes of its tests
  abbrev pick_by : (is_overlay is_btrfs is_naive k : Bool) → String → Selected
  pick_by true _ _ true name = using (overlay_driver cmd.overlays_dir)
  pick_by true _ _ false name = failed kernel_too_old
  pick_by false true _ k name = using (btrfs_driver cmd.btrfs_bin)
  pick_by false false true k name = using naive_driver
  pick_by false false false k name = failed (unknown_driver name)

  pick_lem :
      (name : String) (k : Bool)
      → pick machine cmd name k
        ≡ pick_by (name == "overlay") (name == "btrfs") (name == "naive") k name
  pick_lem name k = ground arith

  pick_by-Fits :
      (o b n k : Bool) (name : String) (d : StartDriver)
      → (name == "overlay") ≡ o
      → (name == "btrfs") ≡ b
      → (name == "naive") ≡ n
      → pick_by o b n k name ≡ using d
      → Fits name k d
  pick_by-Fits true b n true name d eo eb en e =
      subst (Fits name true) (using-injective e) (eo, refl)
  pick_by-Fits true b n false name d eo eb en e = absurd (cc e)
  pick_by-Fits false true n k name d eo eb en e = subst (Fits name k) (using-injective e) eb
  pick_by-Fits false false true k name d eo eb en e = subst (Fits name k) (using-injective e) en
  pick_by-Fits false false false k name d eo eb en e = absurd (cc e)

  pick-Fits :
      (name : String) (k : Bool) (d : StartDriver)
      → pick machine cmd name k ≡ using d
      → Fits name k d
  pick-Fits name k d e = pick_by-Fits _ _ _ k name d refl refl refl (sym (pick_lem name k) ∙ e)

  -- the request for the image
  abbrev image_request : FsStat → MachineRequest
  image_request stat =
      make_image (cmd.volumes_dir ++ ".img") cmd.volumes_dir cmd.mkfs_bin
        (mount_size (disk_size stat))

  -- The directory of the volumes is on btrfs, or an image with btrfs has been mounted there.
  abbrev OnBtrfs : FsStat → List MachineRequest → Type 0
  OnBtrfs stat asked =
      (stat.fs_type % 2 ^ 32 ≡ btrfs_fs_type)
      ⊎ ((out : Bytes) × (earlier : List MachineRequest) × (asked ≡ image_request stat ∷ earlier)
          × (machine earlier (image_request stat) ≡ some out))

  abbrev Usable : FsStat → Bool → StartDriver → List MachineRequest → Type 0
  Usable stat k (overlay_driver dir) asked = k ≡ true
  Usable stat k (btrfs_driver bin) asked = OnBtrfs stat asked
  Usable stat k naive_driver asked = Unit

  Fits-Usable :
      (name : String) (stat : FsStat) (k : Bool) (d : StartDriver) (asked : List MachineRequest)
      → Fits name k d
      → ((name == "btrfs") ≡ true → OnBtrfs stat asked)
      → Usable stat k d asked
  Fits-Usable name stat k (overlay_driver dir) asked fits on = fits.1
  Fits-Usable name stat k (btrfs_driver bin) asked fits on = on fits
  Fits-Usable name stat k naive_driver asked fits on = tt

  if_created-Usable :
      (name : String) (stat : FsStat) (k : Bool) (asked : List MachineRequest) (d : StartDriver)
      (o : Option Bytes)
      → machine asked (image_request stat) ≡ o
      → (if_created machine cmd name k
          (and_then o (λ out later. (some tt, later)) (image_request stat ∷ asked))).0
        ≡ using d
      → Usable stat k d
          (if_created machine cmd name k
            (and_then o (λ out later. (some tt, later)) (image_request stat ∷ asked))).1
  if_created-Usable name stat k asked d none ran e = absurd (cc e)
  if_created-Usable name stat k asked d (some out) ran e =
      Fits-Usable name stat k d (image_request stat ∷ asked) (pick-Fits name k d e)
        (λ b. inr (out, asked, refl, ran))

  pick-Usable :
      (name : String) (stat : FsStat) (k : Bool) (asked : List MachineRequest) (d : StartDriver)
      → ((name == "btrfs") ≡ true → nat_eq (stat.fs_type % 2 ^ 32) btrfs_fs_type ≡ true)
      → pick machine cmd name k ≡ using d
      → Usable stat k d asked
  pick-Usable name stat k asked d typed e =
      Fits-Usable name stat k d asked (pick-Fits name k d e)
        (λ b. inl (nat_eq→eq (stat.fs_type % 2 ^ 32) btrfs_fs_type (typed b)))

  prepare-Usable :
      (name : String) (stat : FsStat) (k : Bool) (asked : List MachineRequest) (d : StartDriver)
      → (prepare machine cmd name stat k asked).0 ≡ using d
      → Usable stat k d (prepare machine cmd name stat k asked).1
  unfolding create run
  prepare-Usable name stat k asked d e =
      let needed = (name == "btrfs") && not (nat_eq (stat.fs_type % 2 ^ 32) btrfs_fs_type) in
      elim (Bool-cases needed) [
        | inl make ↦ rw make (
            if_created-Usable name stat k asked d (machine asked (image_request stat)) refl
              (rw make at e))
        | inr leave ↦
            rw leave
              (pick-Usable name stat k asked d (λ b. ground (arith, leave, b)) (rw leave at e))
      ]

  if_supported-Usable :
      (host : Host) (stat : FsStat) (k : Bool) (listed : Option Bool) (asked : List MachineRequest)
      (d : StartDriver)
      → (if_supported machine cmd host stat k listed asked).0 ≡ using d
      → Usable stat k d (if_supported machine cmd host stat k listed asked).1
  if_supported-Usable host stat k none asked d e = absurd (cc e)
  if_supported-Usable host stat k (some listed) asked d e = prepare-Usable _ stat k asked d e

  -- what the machine is to give for a driver
  abbrev pub Supported : Host → StartDriver → List MachineRequest → Type 0
  Supported host (overlay_driver dir) asked = host.kernel_supports_overlay ≡ some true
  Supported host (btrfs_driver bin) asked =
      (stat : FsStat) × (host.statfs ≡ some stat) × OnBtrfs stat asked
  Supported host naive_driver asked = Unit

  Usable-Supported :
      (host : Host) (stat : FsStat) (k : Bool) (d : StartDriver) (asked : List MachineRequest)
      → host.statfs ≡ some stat
      → host.kernel_supports_overlay ≡ some k
      → Usable stat k d asked
      → Supported host d asked
  Usable-Supported host stat k (overlay_driver dir) asked st ks u = ks ∙ ap some u
  Usable-Supported host stat k (btrfs_driver bin) asked st ks u = (stat, st, u)
  Usable-Supported host stat k naive_driver asked st ks u = tt

  checked_Supported :
      (host : Host) (stat : FsStat) (o : Option Bool) (asked : List MachineRequest)
      (d : StartDriver)
      → host.statfs ≡ some stat
      → host.kernel_supports_overlay ≡ o
      → (if_checked machine cmd host stat o asked).0 ≡ using d
      → Supported host d (if_checked machine cmd host stat o asked).1
  checked_Supported host stat none asked d st ks e = absurd (cc e)
  checked_Supported host stat (some k) asked d st ks e =
      Usable-Supported host stat k d _ st ks (if_supported-Usable host stat k _ _ d e)

  stat_Supported :
      (host : Host) (o : Option FsStat) (asked : List MachineRequest) (d : StartDriver)
      → host.statfs ≡ o
      → (if_stat machine cmd host o asked).0 ≡ using d
      → Supported host d (if_stat machine cmd host o asked).1
  stat_Supported host none asked d st e = absurd (cc e)
  stat_Supported host (some stat) asked d st e =
      checked_Supported host stat host.kernel_supports_overlay asked d st refl e

  -- Whatever is configured and whatever the machine does, a server that starts has a driver that it
  -- can use: with the overlay driver the kernel supports it, and with the btrfs driver the volumes
  -- directory is on a btrfs file system, or the last thing asked of the machine was to make an image
  -- with one and to mount it there, and that did not fail.
  pub select_driver-Supported :
      (host : Host) (asked : List MachineRequest) (d : StartDriver)
      → (select_driver machine cmd host asked).0 ≡ using d
      → Supported host d (select_driver machine cmd host asked).1
  unfolding select_driver
  select_driver-Supported host asked d = stat_Supported host host.statfs asked d refl
