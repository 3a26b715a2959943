-- ===== src/Examples/Descendants.antt =====
-- A volume with a copy-on-write child.
use baggageclaim.Prelude.{
  ℕ, ◌<◌, String, ◌≡◌, refl, sym, subst, Bool-cases, inl, inr, none, some, [], ◌∷◌, ◌==◌, eq_iff,
  if◌then◌else◌, arith,
}
use baggageclaim.Prelude.Table.{Table, get, put, delete, keys}
use baggageclaim.Disk.World.{World, Stage, live, Dir, Node, directory, node}
use baggageclaim.Disk.Action.{ok}
use baggageclaim.Volume.Driver.Naive.{naive-IsConfined}
use baggageclaim.Disk.Action.{call}
use baggageclaim.Disk.Calls.{
  get_dir, put_dir, stat, rename, move, remove_files, remove_all, read_dir, eval_symlinks,
}
use baggageclaim.Volume.Filesystem
use baggageclaim.Volume.Filesystem.{lookup_volume, destroy, destroy_dead, cleanup, parent}
use baggageclaim.Volume.Repository.{destroy_volume, locked, find}
use baggageclaim.Volume.Repository.Descendants.{
  destroy_volume_and_descendants, has_handle, destroy_children,
}
use baggageclaim.Volume.Repository.Descendants.Pruned.{Below}
use baggageclaim.Volume.Repository.Descendants.Fuel.{
  Ranked, destroy_descendants_fuel, destroy_descendants_visible,
}
use baggageclaim.Examples.Setting.{host, repo, empty_world}
use baggageclaim.Examples.Volumes.{base_dir}

abbrev child_dir : Dir
child_dir = record base_dir { parent = some "base" }

abbrev family : Stage → Table Node
family live = ("base", directory base_dir) ∷ ("layer", directory child_dir) ∷ []
family _ = []

abbrev pub family_world : World
family_world = record empty_world { tables = family }

abbrev pub rank : String → ℕ
rank h = if h == "base" then 1 else 0

found_base :
    (d : Dir) (p : String) → some (directory base_dir) ≡ some (directory d) → d.parent ≡ some p → ⊥
found_base d p e up = cc

found_layer :
    (d : Dir) (p : String)
    → some (directory child_dir) ≡ some (directory d)
    → d.parent ≡ some p
    → p ≡ "base"
found_layer d p e up = cc

only_link :
    (c p : String) (d : Dir)
    → node live c family_world ≡ some (directory d)
    → d.parent ≡ some p
    → ("layer" ≡ c) × (p ≡ "base")
unfolding get
only_link c p d at up = elim (Bool-cases ("base" == c)) [
  | inl e ↦ absurd (found_base d p (rw e at (at)) up)
  | inr e ↦ elim (Bool-cases ("layer" == c)) [
    | inl f ↦ ((eq_iff "layer" c).0 f, found_layer d p (rw (e, f) at (at)) up)
    | inr f ↦ absurd (cc (rw (e, f) at (at)))
  ]
]

pub family_world-Ranked : Ranked rank family_world
family_world-Ranked c p (d, at, up) =
    let (child, above) = only_link c p d at up in
    subst (λ k. rank k < rank p) child
      (subst (λ k. rank "layer" < rank k) (sym above) (omega arith))

destroy_descendants_fuel_example :
    destroy_volume_and_descendants repo 2 "base" family_world
    ≡ destroy_volume_and_descendants repo 7 "base" family_world
destroy_descendants_fuel_example =
    destroy_descendants_fuel repo (naive-IsConfined host) rank 2 7 "base" family_world
      family_world-Ranked (omega arith) (omega arith)

-- what was run: both volumes are gone
both_gone :
    let (r, w) = destroy_volume_and_descendants repo 2 "base" family_world in
    (r ≡ ok tt) × (node live "base" w ≡ none) × (node live "layer" w ≡ none)
unfolding destroy_volume_and_descendants Filesystem.list_volumes has_handle destroy_children parent
    eval_symlinks read_dir destroy_volume locked find lookup_volume stat destroy rename move get_dir
    get put delete call destroy_dead remove_files put_dir cleanup remove_all keys
both_gone = (refl, refl, refl)

destroy_descendants_visible_example :
    ((destroy_volume_and_descendants repo 2 "base" family_world).0 ≡ ok tt
      → node live "base" (destroy_volume_and_descendants repo 2 "base" family_world).1 ≡ none)
    × ((k : String)
        → ¬ Below family_world "base" k
        → node live k (destroy_volume_and_descendants repo 2 "base" family_world).1
          ≡ node live k family_world)
destroy_descendants_visible_example =
    destroy_descendants_visible repo (naive-IsConfined host) 2 "base" family_world
