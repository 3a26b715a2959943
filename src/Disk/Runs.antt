-- ===== src/Disk/Runs.antt =====
-- The calls of the system when none fails: what each gives, and the world after it.
use baggageclaim.Prelude.{String, ◌≡◌, refl, none, some, [], ◌∷◌}
use baggageclaim.Disk.World.{
  World, Dir, empty_dir, directory, BaseVolume, NoFaults, node, set_node, delete_node,
}
use baggageclaim.Disk.Action.{Error, ok, err, call, tick}
use baggageclaim.Disk.Calls.{
  get_dir, put_dir, mkdir, mkdir_files, remove_files, remove_all, rename, replace, move, symlink,
  root_file,
}

module _ (v : BaseVolume) (w : World) (nf : NoFaults w) where
  pub mkdir_run :
      node v.stage v.handle w ≡ none
      → mkdir v w ≡ (ok tt, set_node v.stage v.handle (directory empty_dir) (tick w))
  unfolding mkdir call
  mkdir_run free = rw (nf w.clock) (rw free refl)

  pub remove_all_run : remove_all v w ≡ (ok tt, delete_node v.stage v.handle (tick w))
  unfolding remove_all call
  remove_all_run = rw (nf w.clock) refl

  module _ (d : Dir) (at : node v.stage v.handle w ≡ some (directory d)) where
    pub mkdir_files_run :
        d.files ≡ none
        → mkdir_files v w ≡ (
          ok tt,
          set_node v.stage v.handle
              (directory (record d { files = some (root_file ∷ []) }))
              (tick w),
        )
    unfolding mkdir_files call get_dir put_dir
    mkdir_files_run bare = rw (nf w.clock) (rw at (rw bare refl))

    pub remove_files_run :
        remove_files v w
        ≡ (ok tt, set_node v.stage v.handle (directory (record d { files = none })) (tick w))
    unfolding remove_files call put_dir
    remove_files_run = rw (nf w.clock) (rw at refl)

    pub symlink_run :
        (target : String)
        → d.parent ≡ none
        → symlink target v w ≡ (
          ok tt,
          set_node v.stage v.handle (directory (record d { parent = some target })) (tick w),
        )
    unfolding symlink call get_dir put_dir
    symlink_run target bare = rw (nf w.clock) (rw at (rw bare refl))

    pub rename_run :
        (u : BaseVolume)
        → replace (node u.stage u.handle w) ≡ ok tt
        → rename v u w
          ≡ (ok tt, set_node u.stage u.handle (directory d) (delete_node v.stage v.handle (tick w)))
    unfolding rename call get_dir move
    rename_run u free = rw (nf w.clock) (rw at (rw free refl))

    pub rename_taken :
        (u : BaseVolume) (e : Error)
        → replace (node u.stage u.handle w) ≡ err e
        → rename v u w ≡ (err e, tick w)
    unfolding rename call get_dir move
    rename_taken u e taken = rw (nf w.clock) (rw at (rw taken refl))
