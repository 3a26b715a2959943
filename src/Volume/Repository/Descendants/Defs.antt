-- ===== src/Volume/Repository/Descendants/Defs.antt =====
-- The recursion over the volumes whose parent is the one that goes.
use baggageclaim.Prelude.{
  ℕ, zero, suc, String, Bool, true, false, ◌||◌, Option, none, some, List, [], ◌∷◌, ◌==◌,
  if◌then◌else◌,
}
use baggageclaim.Disk.World.{BaseVolume}
use baggageclaim.Disk.Action.{
  volume_does_not_exist, stack_overflow, Result, ok, err, Action, pure, raise, attempt, ◌>>=◌, ◌>>◌,
}
use baggageclaim.Volume.Filesystem
use baggageclaim.Volume.Filesystem.{parent}
use baggageclaim.Volume.Repository.Defs.{Repository, destroy_volume}

-- the loop that looks for the handle
unfoldable pub has_handle : String → List BaseVolume → Bool
has_handle h [] = false
has_handle h (v ∷ vs) = v.handle == h || has_handle h vs

-- A candidate whose parent cannot be read, or that has none, is passed over.
abbrev pub if_child :
    (String → Action Unit) → String → BaseVolume → Result (Option BaseVolume) → Action Unit
if_child destroy_it h v (ok (some u)) = if u.handle == h then destroy_it v.handle else pure tt
if_child destroy_it h v (ok none) = pure tt
if_child destroy_it h v (err _) = pure tt

-- the loop over the candidates
unfoldable pub destroy_children : (String → Action Unit) → String → List BaseVolume → Action Unit
destroy_children destroy_it h [] = pure tt
destroy_children destroy_it h (v ∷ vs) =
    let rest = destroy_children destroy_it h vs in
    do above ← attempt (parent v); if_child destroy_it h v above; rest

module _ (repo : Repository) where
  abbrev pub if_listed : (String → Action Unit) → String → List BaseVolume → Bool → Action Unit
  if_listed destroy_it h vs false = raise volume_does_not_exist
  if_listed destroy_it h vs true = do destroy_children destroy_it h vs; destroy_volume repo h

  -- Each level of the recursion takes one unit of fuel. Links that go round would end in a stack
  -- overflow.
  unfoldable pub destroy_volume_and_descendants : ℕ → String → Action Unit
  destroy_volume_and_descendants zero h = raise stack_overflow
  destroy_volume_and_descendants (suc n) h =
      let destroy_it = destroy_volume_and_descendants n in
      do vs ← Filesystem.list_volumes; if_listed destroy_it h vs (has_handle h vs)
