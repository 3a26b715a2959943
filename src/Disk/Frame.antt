-- ===== src/Disk/Frame.antt =====
-- What an action leaves alone: the entries at a set of places, the faults to come, and the locks.
use baggageclaim.Prelude.{subst, String, ◌≡◌, refl, ◌∙◌}
use baggageclaim.Disk.World.{Stage, World, NoFaults, node}
use baggageclaim.Disk.Action.{
  Error, Result, ok, err, Action, pure, raise, done, read, change, call, continue, ◌>>=◌, attempt,
  tick,
}

-- A set of places on the disk.
abbrev pub Places : Type 1
Places = Stage → String → Type 0

pub record Unchanged (P : Places) (w w' : World) : Type 0 where
  pub nodes : (s : Stage) (h : String) → P s h → node s h w' ≡ node s h w
  pub faults : w'.faults ≡ w.faults
  pub held : w'.held ≡ w.held

pub record Keeps (P : Places) {A : Type 0} (m : Action A) : Type 0 where
  pub at : (w : World) → Unchanged P w (m w).1

module _ {P : Places} where
  pub Unchanged-refl : (w : World) → Unchanged P w w
  Unchanged-refl w = record { nodes = λ s h p. refl; faults = refl; held = refl }

  pub Unchanged-trans : {u v w : World} → Unchanged P u v → Unchanged P v w → Unchanged P u w
  Unchanged-trans a b = record {
    nodes = λ s h p. b.nodes s h p ∙ a.nodes s h p;
    faults = b.faults ∙ a.faults;
    held = b.held ∙ a.held;
  }

  pub Unchanged-tick : (w : World) → Unchanged P w (tick w)
  Unchanged-tick w = record { nodes = λ s h p. refl; faults = refl; held = refl }

  pub Keeps-done : {A : Type 0} (r : Result A) → Keeps P (done r)
  Keeps-done r = record { at = Unchanged-refl }

  pub Keeps-pure : {A : Type 0} (a : A) → Keeps P (pure a)
  Keeps-pure a = record { at = Unchanged-refl }

  pub Keeps-raise : {A : Type 0} (e : Error) → Keeps P (raise {A = A} e)
  Keeps-raise e = record { at = Unchanged-refl }

  pub Keeps-read : {A : Type 0} (f : World → A) → Keeps P (read f)
  Keeps-read f = record { at = Unchanged-refl }

  pub Keeps-tick : Keeps P (change tick)
  Keeps-tick = record { at = Unchanged-tick }

  pub Keeps-call : Keeps P call
  unfolding call
  Keeps-call = record { at = Unchanged-tick }

module _ {P : Places} {A B : Type 0} where
  Keeps-continue :
      (f : A → Action B) → ((a : A) → Keeps P (f a)) → (r : Result A) → Keeps P (continue f r)
  Keeps-continue f kf (ok a) = kf a
  Keeps-continue f kf (err e) = Keeps-raise e

  pub Keeps-bind :
      (m : Action A) (f : A → Action B) → Keeps P m → ((a : A) → Keeps P (f a)) → Keeps P (m >>= f)
  Keeps-bind m f km kf = record {
    at = λ w. Unchanged-trans (km.at w) ((Keeps-continue f kf (m w).0).at (m w).1);
  }

module _ {P : Places} {A : Type 0} where
  pub Keeps-attempt : (m : Action A) → Keeps P m → Keeps P (attempt m)
  Keeps-attempt m km = record { at = λ w. km.at w }

ok-injective : {A : Type 0} {a b : A} → ok a ≡ ok b → a ≡ b
ok-injective e = cc

-- What holds of every value that an action returns.
pub record Ensures {A : Type 0} (Q : A → Type 0) (m : Action A) : Type 0 where
  pub of : (w : World) (a : A) → (m w).0 ≡ ok a → Q a

module _ {A : Type 0} {Q : A → Type 0} where
  pub Ensures-pure : (a : A) → Q a → Ensures Q (pure a)
  Ensures-pure a q = record { of = λ w b e. subst Q (ok-injective e) q }

  pub Ensures-raise : (e : Error) → Ensures Q (raise e)
  Ensures-raise e = record { of = λ w b h. absurd (cc) }

module _ {A B : Type 0} {Q : B → Type 0} where
  Ensures-continue :
      (f : A → Action B) → ((a : A) → Ensures Q (f a)) → (r : Result A) → Ensures Q (continue f r)
  Ensures-continue f each (ok a) = each a
  Ensures-continue f each (err e) = Ensures-raise e

  pub Ensures-bind :
      (m : Action A) (f : A → Action B) → ((a : A) → Ensures Q (f a)) → Ensures Q (m >>= f)
  Ensures-bind m f each = record { of = λ w b e. (Ensures-continue f each (m w).0).of (m w).1 b e }

module _ {A B : Type 0} (Q : A → Type 0) {R : B → Type 0} where
  Ensures-continue_ensured :
      (f : A → Action B) (r : Result A)
      → ((a : A) → r ≡ ok a → Q a)
      → ((a : A) → Q a → Ensures R (f a))
      → Ensures R (continue f r)
  Ensures-continue_ensured f (ok a) q each = each a (q a refl)
  Ensures-continue_ensured f (err e) q each = Ensures-raise e

  pub Ensures-bind_ensured :
      (m : Action A) (f : A → Action B)
      → Ensures Q m
      → ((a : A) → Q a → Ensures R (f a))
      → Ensures R (m >>= f)
  Ensures-bind_ensured m f q each = record {
    of = λ w b e. (Ensures-continue_ensured f (m w).0 (q.of w) each).of (m w).1 b e;
  }

module _ {P : Places} {A B : Type 0} (Q : A → Type 0) where
  Keeps-continue_ensured :
      (f : A → Action B) (r : Result A)
      → ((a : A) → r ≡ ok a → Q a)
      → ((a : A) → Q a → Keeps P (f a))
      → Keeps P (continue f r)
  Keeps-continue_ensured f (ok a) q kf = kf a (q a refl)
  Keeps-continue_ensured f (err e) q kf = Keeps-raise e

  -- the rest of the block may use what is known of the value
  pub Keeps-bind_ensured :
      (m : Action A) (f : A → Action B)
      → Ensures Q m
      → Keeps P m
      → ((a : A) → Q a → Keeps P (f a))
      → Keeps P (m >>= f)
  Keeps-bind_ensured m f q km kf = record {
    at = λ w. Unchanged-trans (km.at w) ((Keeps-continue_ensured f (m w).0 (q.of w) kf).at (m w).1);
  }

pub ruleset value_rules = (Ensures-pure, Ensures-raise, Ensures-bind)

-- the frame of an action that may change every entry
abbrev pub nowhere : Places
nowhere s h = ⊥

pub NoFaults-Keeps :
    {A : Type 0} (m : Action A) (w : World) → Keeps nowhere m → NoFaults w → NoFaults (m w).1
NoFaults-Keeps m w k nf n = rw (k.at w).faults (nf n)

pub ruleset frame_rules = (
  Keeps-done, Keeps-pure, Keeps-raise, Keeps-read, Keeps-call, Keeps-tick, Keeps-bind,
  Keeps-attempt,
)
