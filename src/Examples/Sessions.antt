-- ===== src/Examples/Sessions.antt =====
-- A session with a repository that uses the naive driver, from a disk with nothing on it.
use baggageclaim.Prelude.{◌≡◌, refl, true, false, none, some, List, [], ◌∷◌, Mem, ◌↔◌}
use baggageclaim.Prelude.Table.{put}
use baggageclaim.Disk.Action.{exist, volume_does_not_exist, parent_volume_not_found, ok, err}
use baggageclaim.Volume.Properties.{copy_into, update_property}
use baggageclaim.Volume.Spec.{
  Entry, Store, nothing, layer_of, Command, create, destroy, get, change_property, find_parent,
  read_flag, change_flag, assign, Reply, created, changed, found, flag, shown, perform, meant,
  run_all,
}
use baggageclaim.Volume.Spec.Create.{with_naive}
use baggageclaim.Volume.Spec.Represents.{Represents}
use baggageclaim.Volume.Spec.Refines.{Represents-empty, run_all-perform}
use baggageclaim.Disk.World.{World}
use baggageclaim.Volume.Repository.{Volume, list_volumes}
use baggageclaim.Volume.Spec.Listed.{Listed, list_volumes-Listed}
use baggageclaim.Examples.Setting.{json-IsJson, repo, empty_world}

abbrev empty_store : Store
empty_store h = none

abbrev session : List Command
session =
    create "base" nothing (("team", "main") ∷ []) false
    ∷ create "layer" (layer_of "base") [] true
    ∷ create "base" nothing [] true
    ∷ create "x" (layer_of "y") [] true
    ∷ change_property "layer" "ttl" "5"
    ∷ change_flag "layer" false
    ∷ get "layer"
    ∷ find_parent "layer"
    ∷ destroy "base"
    ∷ find_parent "layer"
    ∷ read_flag "base"
    ∷ []

abbrev base : Entry
base = record { properties = ("team", "main") ∷ []; privileged = false; parent = none }

abbrev layer : Entry
layer = record { properties = []; privileged = true; parent = some "base" }

abbrev changed_layer : Entry
changed_layer = record { properties = ("ttl", "5") ∷ []; privileged = false; parent = some "base" }

abbrev replies : List Reply
replies =
    created (ok (shown "base" false base))
    ∷ created (ok (shown "layer" false layer))
    ∷ created (err exist)
    ∷ created (err parent_volume_not_found)
    ∷ changed (ok tt)
    ∷ changed (ok tt)
    ∷ found (ok (some (shown "layer" false changed_layer)))
    ∷ found (ok (some (shown "base" false base)))
    ∷ changed (ok tt)
    ∷ found (ok none)
    ∷ flag (err volume_does_not_exist)
    ∷ []

run_all-perform_example :
    ((run_all (perform (with_naive repo)) session empty_world).0 ≡ replies)
    × Represents repo
        (run_all (perform (with_naive repo)) session empty_world).1
        (run_all meant session empty_store).1
unfolding run_all meant update_property copy_into put
run_all-perform_example =
    run_all-perform repo json-IsJson session empty_world empty_store
      (Represents-empty repo empty_world (λ n. refl) (λ s. refl))

-- the map with the volume "base" alone, and a disk that stands for it
abbrev base_store : Store
base_store = assign "base" (some base) empty_store

abbrev base_only : World
base_only =
    (run_all (perform (with_naive repo)) (create "base" nothing (("team", "main") ∷ []) false ∷ [])
      empty_world).1

base_only-Represents : Represents repo base_only base_store
unfolding run_all meant
base_only-Represents =
    (run_all-perform repo json-IsJson (create "base" nothing (("team", "main") ∷ []) false ∷ [])
      empty_world empty_store (Represents-empty repo empty_world (λ n. refl) (λ s. refl))).1

list_volumes-Listed_example :
    (volumes : List Volume) × ((list_volumes (with_naive repo) (("team", "main") ∷ []) base_only).0
      ≡ ok (volumes, []))
    × ((volume : Volume) → Mem volume volumes ↔ Listed (("team", "main") ∷ []) base_store volume)
list_volumes-Listed_example =
    list_volumes-Listed repo (("team", "main") ∷ []) base_only base_store base_only-Represents
