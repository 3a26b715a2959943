-- ===== src/Volume/Spec/Create.antt =====
-- `CreateVolume` with the naive driver, when no call fails, once the new volume is in init/.
use baggageclaim.Prelude.{String, ◌≡◌, refl, ◌∙◌, false, none}
use baggageclaim.Disk.World.{
  World, directory, init, live, dead, BaseVolume, NoFaults, node, delete_node,
}
use baggageclaim.Disk.Action.{Action, ok, err, exist, tick, ◌>>=◌, attempt}
use baggageclaim.Disk.FrameCalls.{node-set_node_self, node-delete_node_self}
use baggageclaim.Volume.Metadata.Json.{IsJson}
use baggageclaim.Volume.Filesystem.{volume_at}
use baggageclaim.Volume.Driver.Naive.{naive}
use baggageclaim.Volume.Repository.{Repository, Volume, set_up, unless_initialized}
use baggageclaim.Volume.Repository.Created.{prepared}
use baggageclaim.Volume.Spec.Meaning.{Entry, shown}
use baggageclaim.Volume.Spec.New.{Ready}
use baggageclaim.Volume.Spec.SetUp.{
  Stands, destroy_run, prepared_run, finish_run, finish_taken, prepared-Stands, destroyed-dead,
  destroyed-place,
}

-- a repository that uses the naive driver
abbrev pub with_naive : Repository → Repository
with_naive repo = record repo { driver = naive repo.host }

-- Nothing of a volume is in init/ or in dead/.
abbrev pub Clean : String → World → Type 0
Clean h w = (node init h w ≡ none) × (node dead h w ≡ none)

module _ (repo : Repository) (laws : IsJson repo.json) (h : String) (e : Entry) where
  -- what `CreateVolume` does with a volume in init/
  abbrev pub guarded : BaseVolume → Action Volume
  guarded v = do
    made ← attempt (set_up (with_naive repo) v e.properties e.privileged)
    unless_initialized (with_naive repo) v made

  module _ (w : World) (nf : NoFaults w) (ready : Ready h e.parent w) where
    pub guarded_free :
        node live h w ≡ none
        → ((guarded (volume_at init h) w).0 ≡ ok (shown h false e))
          × Stands (with_naive repo) h e (guarded (volume_at init h) w).1
          × Clean h (guarded (volume_at init h) w).1
    guarded_free free =
        let (d, at, gone, files) = ready in
        let R = with_naive repo in
        let (w3, run, at3, nf3, kept) = prepared_run R h e.properties e.privileged w d nf at in
        let free3 = kept.nodes live h (λ s. cc s) ∙ free in
        let gone3 = kept.nodes dead h (λ s. cc s) ∙ gone in
        let d3 = prepared R e.properties e.privileged d in
        rw run (
          rw (finish_run R h e.properties e.privileged w3 d3 nf3 at3 free3) (
            refl,
            prepared-Stands R laws h e.properties e.privileged e.parent _ d files
                (node-set_node_self live h (directory d3) (delete_node init h (tick w3))),
            (node-delete_node_self init h (tick w3), gone3),
          ))

    pub guarded_taken :
        (old : Entry)
        → Stands (with_naive repo) h old w
        → ((guarded (volume_at init h) w).0 ≡ err exist) × Clean h (guarded (volume_at init h) w).1
    guarded_taken old (held, holds, _) =
        let (d, at, gone, files) = ready in
        let R = with_naive repo in
        let (w3, run, at3, nf3, kept) = prepared_run R h e.properties e.privileged w d nf at in
        let there = kept.nodes live h (λ s. cc s) ∙ holds.at in
        let gone3 = kept.nodes dead h (λ s. cc s) ∙ gone in
        let d3 = prepared R e.properties e.privileged d in
        rw run (
          rw (finish_taken R h e.properties e.privileged w3 d3 nf3 at3 held there) (
            rw (destroy_run R h init (tick w3) d3 nf3 at3 gone3) (
              refl,
              (
                destroyed-place R h init (tick w3) d3 nf3 at3 gone3 (λ s. cc s),
                destroyed-dead R h init (tick w3) d3 nf3 at3 gone3,
              ),
            )))
