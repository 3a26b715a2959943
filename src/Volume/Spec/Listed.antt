-- ===== src/Volume/Spec/Listed.antt =====
-- What `ListVolumes` finds on a disk that stands for a map.
use baggageclaim.Prelude.{
  String, ◌≡◌, refl, subst, true, Option, none, some, List, [], ◌∷◌, map, Mem, Bool-cases, inl, inr,
  ◌↔◌, if◌then◌else◌,
}
use baggageclaim.Prelude.Table.{keys, get-keys, keys-get}
use baggageclaim.Disk.World.{World, Node, directory, live, node, entries}
use baggageclaim.Disk.Action.{ok, tick, call}
use baggageclaim.Disk.Calls.{read_dir}
use baggageclaim.Disk.Frame.{Unchanged-tick}
use baggageclaim.Volume.Properties.{Properties, has_properties}
use baggageclaim.Volume.Filesystem
use baggageclaim.Volume.Filesystem.{volume_at}
use baggageclaim.Volume.Repository.{Repository, Volume, volume_from, collect, list_volumes}
use baggageclaim.Volume.Repository.Frame.{volume_from-Keeps}
use baggageclaim.Volume.Repository.Reads.{volume_from_run}
use baggageclaim.Volume.Spec.Meaning.{Entry, Store, shown}
use baggageclaim.Volume.Spec.SetUp.{Stands}
use baggageclaim.Volume.Spec.Create.{with_naive}
use baggageclaim.Volume.Spec.Represents.{Represents, Represents-same, Shows, Everywhere}

-- the volumes of the map at these handles that have the properties
abbrev pick_entry : Properties → String → Option Entry → List Volume → List Volume
pick_entry query h none rest = rest
pick_entry query h (some e) rest =
    if has_properties e.properties query then shown h e.privileged e ∷ rest else rest

abbrev picked : Properties → Store → List String → List Volume
picked query σ [] = []
picked query σ (h ∷ hs) = pick_entry query h (σ h) (picked query σ hs)

-- the handles of the map
abbrev Held : Store → List String → Type 0
Held σ [] = Unit
Held σ (h ∷ hs) = ((e : Entry) × (σ h ≡ some e)) × Held σ hs

all-Held :
    (σ : Store) (hs : List String)
    → ((h : String) → Mem h hs → (e : Entry) × (σ h ≡ some e))
    → Held σ hs
all-Held σ [] all = tt
all-Held σ (h ∷ hs) all = (all h (inl refl), all-Held σ hs (λ k m. all k (inr m)))

-- The map has the volume, and the volume has the properties.
abbrev pub Listed : Properties → Store → Volume → Type 0
Listed query σ volume =
    (h : String) × (e : Entry) × (σ h ≡ some e)
    × (has_properties e.properties query ≡ true)
    × (volume ≡ shown h e.privileged e)

pick_entry-Mem :
    (query : Properties) (h : String) (o : Option Entry) (rest : List Volume) (volume : Volume)
    → Mem volume rest
    → Mem volume (pick_entry query h o rest)
pick_entry-Mem query h none rest volume m = m
pick_entry-Mem query h (some e) rest volume m =
    elim (Bool-cases (has_properties e.properties query)) [
      | inl has ↦ rw has (inr m)
      | inr has_not ↦ rw has_not m
    ]

pick_entry-Listed :
    (query : Properties) (σ : Store) (h : String) (o : Option Entry) (rest : List Volume)
    (volume : Volume)
    → σ h ≡ o
    → (Mem volume rest → Listed query σ volume)
    → Mem volume (pick_entry query h o rest)
    → Listed query σ volume
pick_entry-Listed query σ h none rest volume at on m = on m
pick_entry-Listed query σ h (some e) rest volume at on m =
    elim (Bool-cases (has_properties e.properties query)) [
      | inl has ↦ elim (rw has at m) [ inl same ↦ (h, e, at, has, same) | inr among ↦ on among ]
      | inr has_not ↦ on (rw has_not at m)
    ]

picked-Listed :
    (query : Properties) (σ : Store) (hs : List String) (volume : Volume)
    → Mem volume (picked query σ hs)
    → Listed query σ volume
picked-Listed query σ [] volume m = absurd m
picked-Listed query σ (h ∷ hs) volume m =
    pick_entry-Listed query σ h (σ h) (picked query σ hs) volume refl
      (picked-Listed query σ hs volume) m

picked-Mem :
    (query : Properties) (σ : Store) (hs : List String) (h : String) (e : Entry)
    → Mem h hs
    → σ h ≡ some e
    → has_properties e.properties query ≡ true
    → Mem (shown h e.privileged e) (picked query σ hs)
picked-Mem query σ [] h e m there has = absurd m
picked-Mem query σ (k ∷ hs) h e (inl same) there has =
    subst (λ j. Mem (shown h e.privileged e) (pick_entry query j (σ j) (picked query σ hs))) same
      (rw there (rw has (inl refl)))
picked-Mem query σ (k ∷ hs) h e (inr m) there has =
    pick_entry-Mem query k (σ k) (picked query σ hs) (shown h e.privileged e)
      (picked-Mem query σ hs h e m there has)

module _ (repo : Repository) (query : Properties) where
  abbrev R : Repository
  R = with_naive repo

  collect_run :
      (hs : List String) (w : World) (σ : Store)
      → Represents repo w σ
      → Held σ hs
      → (collect R query (map (volume_at live) hs) w).0 ≡ ok (picked query σ hs, [])
  unfolding collect
  collect_run [] w σ rep held = refl
  collect_run (h ∷ hs) w σ rep ((e, there), held) =
      let (d, holds, files) : Stands R h e w = subst (λ o. Shows repo h o w) there (rep.shows h) in
      let kept = (volume_from-Keeps {P = Everywhere} R (volume_at live h)).at w in
      let rest =
        collect_run hs (volume_from R (volume_at live h) w).1 σ (Represents-same repo rep kept)
          held in
      rw (volume_from_run R h e.properties e.privileged w d rep.no_faults holds) (
        rw rest (
          rw there (elim (Bool-cases (has_properties e.properties query)) [
            | inl has ↦ rw has refl
            | inr has_not ↦ rw has_not refl
          ])))

  -- every entry of live/ is a volume of the map
  entry_held :
      (w : World) (σ : Store)
      → Represents repo w σ
      → (h : String) → Mem h (keys (entries live w))
      → (e : Entry) × (σ h ≡ some e)
  entry_held w σ rep h m =
      let (n, at) = get-keys h (entries live w) m in held_at (σ h) refl (rep.shows h) at
    where
      held_at :
          {n : Node} (o : Option Entry)
          → σ h ≡ o
          → Shows repo h o w
          → node live h w ≡ some n
          → (e : Entry) × (σ h ≡ some e)
      held_at none there shows at = absurd (cc (shows, at))
      held_at (some e) there shows at = (e, there)

  -- On a disk that stands for a map, and when no call fails, `ListVolumes` succeeds with no volume
  -- corrupted, and it lists exactly the volumes of the map that have the properties of the query,
  -- each with its path in live/, its properties and its flag.
  pub list_volumes-Listed :
      (w : World) (σ : Store)
      → Represents repo w σ
      → (volumes : List Volume) × ((list_volumes R query w).0 ≡ ok (volumes, []))
        × ((volume : Volume) → Mem volume volumes ↔ Listed query σ volume)
  unfolding list_volumes Filesystem.list_volumes read_dir call
  list_volumes-Listed w σ rep =
      let hs = keys (entries live w) in
      (
        picked query σ hs,
        rw (rep.no_faults w.clock) (
            collect_run hs (tick w) σ (Represents-same repo rep (Unchanged-tick w))
              (all-Held σ hs (entry_held w σ rep))),
        λ volume. (
          picked-Listed query σ hs volume,
          λ listed.
              let (h, e, there, has, same) = listed in
              let (d, holds, files) : Stands R h e w =
                subst (λ o. Shows repo h o w) there (rep.shows h) in
              let m = keys-get h (directory d) (entries live w) holds.at in
              rw same (picked-Mem query σ hs h e m there has),
        ),
      )
