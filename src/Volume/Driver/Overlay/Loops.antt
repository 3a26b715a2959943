-- ===== src/Volume/Driver/Overlay/Loops.antt =====
-- What the loops of the overlay driver leave alone.
use baggageclaim.Prelude.{ℕ, String, refl, Option, none, some, List, [], ◌∷◌}
use baggageclaim.Prelude.Table.{get}
use baggageclaim.Disk.World.{BaseVolume, File}
use baggageclaim.Disk.Action.{cp_failed}
use baggageclaim.Volume.Filesystem.{parent}
use baggageclaim.Volume.Filesystem.Frame.{parent-Keeps}
use baggageclaim.Volume.Strategy.Host.{Host}
use baggageclaim.Volume.Driver.Overlay.Root.{climb, climb-Keeps}
use baggageclaim.Volume.Driver.Overlay.Defs.{
  Step, on_disk, copy_to, copy_layer, root_of, find_root_parent, bind_mount, overlay_mount,
  recover_as, recover_each, recover_cows,
}
use baggageclaim.Volume.Driver.Overlay.Mounted.{
  Goes, Goes-pure, Goes-raise, Goes-on_disk, Goes-bind, call-Goes, bind_mount-Goes,
  overlay_mount-Goes,
}

recover_as-Goes :
    (v : BaseVolume) (rest : Step (List (BaseVolume × BaseVolume)))
    → Goes rest
    → (o : Option BaseVolume) → Goes (recover_as v rest o)
recover_as-Goes v rest goes none = Goes-bind (bind_mount v) _ (bind_mount-Goes v) (λ u. goes)
recover_as-Goes v rest goes (some u) = Goes-bind rest _ goes (λ cows. Goes-pure _)

pub recover_each-Goes : (vs : List BaseVolume) → Goes (recover_each vs)
unfolding recover_each
recover_each-Goes [] = Goes-pure []
recover_each-Goes (v ∷ vs) =
    Goes-bind (on_disk (parent v)) _ (Goes-on_disk (parent v) (parent-Keeps v))
      (recover_as-Goes v (recover_each vs) (recover_each-Goes vs))

module _ (host : Host) (n : ℕ) where
  copy_to-Goes : (to : String) (o : Option (List File)) → Goes (copy_to host to o)
  copy_to-Goes to none = Goes-raise cp_failed
  copy_to-Goes to (some fs) = record { at = λ m. record { nodes = λ k. refl; mounts = λ x i. i } }

  pub copy_layer-Goes : (from to : String) → Goes (copy_layer host from to)
  unfolding copy_layer
  copy_layer-Goes from to =
      Goes-bind (on_disk _) _ call-Goes
        (λ u. record { at = λ m. (copy_to-Goes to (get from m.layers)).at m })

  root_of-Goes :
      (child above : BaseVolume) (o : Option BaseVolume) → Goes (root_of host n child above o)
  root_of-Goes child above none = Goes-pure above
  root_of-Goes child above (some u) =
      Goes-bind (copy_layer host above.handle child.handle) _ (copy_layer-Goes _ _)
        (λ x. Goes-on_disk (climb n u) (climb-Keeps n u))

  pub find_root_parent-Goes :
      (child above : BaseVolume) → Goes (find_root_parent host n child above)
  unfolding find_root_parent
  find_root_parent-Goes child above =
      Goes-bind (on_disk (parent above)) _ (Goes-on_disk (parent above) (parent-Keeps above))
        (root_of-Goes child above)

  pub recover_cows-Goes : (cows : List (BaseVolume × BaseVolume)) → Goes (recover_cows host n cows)
  unfolding recover_cows
  recover_cows-Goes [] = Goes-pure tt
  recover_cows-Goes ((child, above) ∷ cows) =
      Goes-bind (find_root_parent host n child above) _ (find_root_parent-Goes child above) (λ root.
        Goes-bind (overlay_mount child root) _ (overlay_mount-Goes child root)
          (λ u. recover_cows-Goes cows))
