-- ===== src/Volume/Driver/Overlay/Destroy.antt =====
-- `DestroyVolume` of the overlay driver.
use baggageclaim.Prelude.{◌+◌, String, ◌≡◌, refl, none, some, List, ◌⊎◌, inl, inr, arith, eq_iff}
use baggageclaim.Prelude.Table.{Table, get, delete, get-delete}
use baggageclaim.Disk.World.{NoFaults, BaseVolume, Dir, File, node, directory}
use baggageclaim.Disk.Action.{not_exist, syscall, err, call, tick}
use baggageclaim.Volume.Driver.Overlay.Defs.{
  Mount, Machine, without, unmount, remove_work, remove_layer, destroy_volume,
}

delete_gone : {A : Type 0} (h : String) (t : Table A) → get h (delete h t) ≡ none
delete_gone h t = ground (arith, get-delete h h t, eq_iff h h)

-- When no call fails: a volume without a mount is refused, with EINVAL where its data directory is
-- there and with ENOENT where it is missing, and nothing of it is removed; of a volume with a mount the
-- last one is gone, and so are its layer and its work directory.
pub destroy_volume_lem :
    (v : BaseVolume) (m : Machine) (ms : List Mount)
    → NoFaults m.world
    → ((d : Dir) (fs : List File)
        → node v.stage v.handle m.world ≡ some (directory (record d { files = some fs }))
        → without v m.mounts ≡ none
        → destroy_volume v m ≡ (err (syscall 22), record m { world = tick m.world }))
      × ((node v.stage v.handle m.world ≡ none)
            ⊎ ((d : Dir) × (node v.stage v.handle m.world
                  ≡ some (directory (record d { files = none }))))
          → without v m.mounts ≡ none
          → destroy_volume v m ≡ (err not_exist, record m { world = tick m.world }))
      × (without v m.mounts ≡ some ms
          → let m' = (destroy_volume v m).1 in
            (m'.mounts ≡ ms) × (get v.handle m'.layers ≡ none) × (get v.handle m'.works ≡ none))
unfolding destroy_volume unmount remove_work remove_layer call
destroy_volume_lem v m ms nf = (
  λ d fs at bare. rw (nf m.world.clock) (rw at (rw bare refl)),
  λ missing bare. elim missing [
    | inl at ↦ rw (nf m.world.clock) (rw at (rw bare refl))
    | inr (d, at) ↦ rw (nf m.world.clock) (rw at (rw bare refl))
  ],
  λ mounted.
      rw (nf m.world.clock, mounted)
        (rw (nf (m.world.clock + 1)) (
          rw (nf (m.world.clock + 1 + 1))
            (refl, delete_gone v.handle m.layers, delete_gone v.handle m.works))),
)
