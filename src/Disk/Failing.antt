-- ===== src/Disk/Failing.antt =====
-- What an action leaves alone when it fails: less than what it leaves alone in any case.
use baggageclaim.Prelude.{◌≡◌, refl, ◌≢◌}
use baggageclaim.Disk.World.{World, Dir, BaseVolume}
use baggageclaim.Disk.Action.{Error, Result, ok, err, Action, pure, attempt, continue, ◌>>=◌}
use baggageclaim.Disk.Calls.{rename, move}
use baggageclaim.Disk.Frame.{
  Places, Unchanged, Keeps, Ensures, Unchanged-trans, Unchanged-refl, frame_rules,
}
use baggageclaim.Disk.FrameCalls.{get_dir-Keeps}

pub record KeepsFailing (P : Places) {A : Type 0} (m : Action A) : Type 0 where
  pub at : (w : World) (e : Error) → (m w).0 ≡ err e → Unchanged P w (m w).1

module _ {P : Places} where
  pub KeepsFailing-ok :
      {A : Type 0} (m : Action A) → ((w : World) (e : Error) → (m w).0 ≢ err e) → KeepsFailing P m
  KeepsFailing-ok m never = record { at = λ w e h. absurd (never w e h) }

  pub KeepsFailing-pure : {A : Type 0} (a : A) → KeepsFailing P (pure a)
  KeepsFailing-pure a = record { at = λ w e h. Unchanged-refl w }

module _ {P : Places} {A B : Type 0} where
  after_failure :
      (m : Action A) (f : A → Action B) (w w' : World) (r : Result A)
      → Unchanged P w w'
      → ((a : A) → KeepsFailing P (f a))
      → (e : Error) → (continue f r w').0 ≡ err e
      → Unchanged P w (continue f r w').1
  after_failure m f w w' (ok a) u each e h = Unchanged-trans u ((each a).at w' e h)
  after_failure m f w w' (err x) u each e h = u

  -- The last step alone may change what the others leave alone.
  pub KeepsFailing-bind :
      (m : Action A) (f : A → Action B)
      → Keeps P m
      → ((a : A) → KeepsFailing P (f a))
      → KeepsFailing P (m >>= f)
  KeepsFailing-bind m f k each = record {
    at = λ w e h. after_failure m f w (m w).1 (m w).0 (k.at w) each e h;
  }

  after_failure_ensured :
      (Q : A → Type 0) (f : A → Action B) (w w' : World) (r : Result A)
      → Unchanged P w w'
      → ((a : A) → r ≡ ok a → Q a)
      → ((a : A) → Q a → KeepsFailing P (f a))
      → (e : Error) → (continue f r w').0 ≡ err e
      → Unchanged P w (continue f r w').1
  after_failure_ensured Q f w w' (ok a) u q each e h =
      Unchanged-trans u ((each a (q a refl)).at w' e h)
  after_failure_ensured Q f w w' (err x) u q each e h = u

  pub KeepsFailing-bind_ensured :
      (Q : A → Type 0) (m : Action A) (f : A → Action B)
      → Ensures Q m
      → Keeps P m
      → ((a : A) → Q a → KeepsFailing P (f a))
      → KeepsFailing P (m >>= f)
  KeepsFailing-bind_ensured Q m f q k each = record {
    at = λ w e h. after_failure_ensured Q f w (m w).1 (m w).0 (k.at w) (q.of w) each e h;
  }

  after_last :
      (m : Action A) (g : A → B) (w w' : World) (r : Result A)
      → ((e : Error) → r ≡ err e → Unchanged P w w')
      → (e : Error) → (continue (λ a. pure (g a)) r w').0 ≡ err e
      → Unchanged P w (continue (λ a. pure (g a)) r w').1
  after_last m g w w' (ok a) u e h = absurd (cc)
  after_last m g w w' (err x) u e h = u x refl

  pub KeepsFailing-map :
      (m : Action A) (g : A → B) → KeepsFailing P m → KeepsFailing P (m >>= λ a. pure (g a))
  KeepsFailing-map m g k = record { at = λ w e h. after_last m g w (m w).1 (m w).0 (k.at w) e h }

  after_attempt :
      (g : Result A → Action B) (w w' : World) (r : Result A)
      → ((e : Error) → r ≡ err e → Unchanged P w w')
      → ((a : A) (v : World) (e : Error) → (g (ok a) v).0 ≢ err e)
      → ((e : Error) → Keeps P (g (err e)))
      → (e : Error) → (g r w').0 ≡ err e
      → Unchanged P w (g r w').1
  after_attempt g w w' (ok a) u never each e h = absurd (never a w' e h)
  after_attempt g w w' (err x) u never each e h = Unchanged-trans (u x refl) ((each x).at w')

  -- a failure that is handled by an action that keeps what it should, and then passed on
  pub KeepsFailing-attempt :
      (m : Action A) (g : Result A → Action B)
      → KeepsFailing P m
      → ((a : A) (v : World) (e : Error) → (g (ok a) v).0 ≢ err e)
      → ((e : Error) → Keeps P (g (err e)))
      → KeepsFailing P (attempt m >>= g)
  KeepsFailing-attempt m g k never each = record {
    at = λ w e h. after_attempt g w (m w).1 (m w).0 (k.at w) never each e h;
  }

module _ {P : Places} where
  move-KeepsFailing : (v u : BaseVolume) (d : Dir) → KeepsFailing P (move v u d)
  unfolding move
  move-KeepsFailing v u d = KeepsFailing-ok (move v u d) (λ w e h. cc)

  -- A rename that fails has changed nothing.
  pub rename-KeepsFailing : (v u : BaseVolume) → KeepsFailing P (rename v u)
  unfolding rename
  rename-KeepsFailing v u =
      search (frame_rules, get_dir-Keeps, KeepsFailing-bind, move-KeepsFailing) depth 9
