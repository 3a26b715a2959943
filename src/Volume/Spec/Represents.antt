-- ===== src/Volume/Spec/Represents.antt =====
-- The disk and the map that it stands for.
use baggageclaim.Prelude.{
  String, ◌≡◌, ◌≢◌, sym, ◌⊎◌, ◌∙◌, subst, Option, none, some, ◌==◌, eq_iff, arith, Bool-cases, inl,
  inr,
}
use baggageclaim.Disk.World.{World, init, live, dead, NoFaults, node}
use baggageclaim.Disk.Frame.{Places, Unchanged}
use baggageclaim.Volume.Repository.{Repository}
use baggageclaim.Volume.Spec.Meaning.{Entry, Store, assign}
use baggageclaim.Volume.Spec.SetUp.{Stands, NoFaults-Unchanged}
use baggageclaim.Volume.Spec.Create.{with_naive, Clean}

abbrev pub Shows : Repository → String → Option Entry → World → Type 0
Shows repo h none w = node live h w ≡ none
Shows repo h (some e) w = Stands (with_naive repo) h e w

-- No call fails, init/ and dead/ hold nothing, and live/ holds the volumes of the map.
pub record Represents (repo : Repository) (w : World) (σ : Store) : Type 0 where
  pub no_faults : NoFaults w
  pub clean : (h : String) → Clean h w
  pub shows : (h : String) → Shows repo h (σ h) w

-- the entries of the other handles
abbrev pub OtherThan : String → Places
OtherThan h s k = k ≢ h

abbrev pub Everywhere : Places
Everywhere s k = Unit

pub Shows-same :
    (repo : Repository) (k : String) (o : Option Entry) (w w' : World)
    → node live k w' ≡ node live k w
    → Shows repo k o w
    → Shows repo k o w'
Shows-same repo k none w w' same free = same ∙ free
Shows-same repo k (some e) w w' same (d, holds, files) = (
  d,
  record { at = same ∙ holds.at; properties = holds.properties; privileged = holds.privileged },
  files,
)

pub assign_same : (h : String) (o : Option Entry) (σ : Store) → assign h o σ h ≡ o
assign_same h o σ = ground (arith, eq_iff h h)

pub assign_other :
    (h : String) (o : Option Entry) (σ : Store) (k : String) → k ≢ h → assign h o σ k ≡ σ k
assign_other h o σ k ne = ground (arith, eq_iff h k)

same_or_other : (k h : String) → (h ≡ k) ⊎ (k ≢ h)
same_or_other k h = elim (Bool-cases (k == h)) [
  | inl same ↦ inl (sym ((eq_iff k h).0 same))
  | inr differ ↦ inr (grind (arith, eq_iff k h))
]

module _ (repo : Repository) {w w' : World} {σ : Store} (rep : Represents repo w σ) where
  -- An action on one volume changes the map at its handle only.
  pub Represents-advance :
      (h : String) (τ : Store)
      → ((k : String) → k ≢ h → τ k ≡ σ k)
      → Unchanged (OtherThan h) w w'
      → Clean h w'
      → Shows repo h (τ h) w'
      → Represents repo w' τ
  Represents-advance h τ others kept clean shows = record {
    no_faults = NoFaults-Unchanged kept rep.no_faults;
    clean = λ k. elim (same_or_other k h) [
      | inl same ↦ subst (λ x. Clean x w') same clean
      | inr differ ↦
          (kept.nodes init k differ ∙ (rep.clean k).0, kept.nodes dead k differ ∙ (rep.clean k).1)
    ];
    shows = λ k. elim (same_or_other k h) [
      | inl same ↦ subst (λ x. Shows repo x (τ x) w') same shows
      | inr differ ↦
          rw (others k differ)
            (Shows-same repo k (σ k) w w' (kept.nodes live k differ) (rep.shows k))
    ];
  }

  pub Represents-same : Unchanged Everywhere w w' → Represents repo w' σ
  Represents-same kept = record {
    no_faults = NoFaults-Unchanged kept rep.no_faults;
    clean = λ k. (kept.nodes init k tt ∙ (rep.clean k).0, kept.nodes dead k tt ∙ (rep.clean k).1);
    shows = λ k. Shows-same repo k (σ k) w w' (kept.nodes live k tt) (rep.shows k);
  }
