-- ===== src/Volume/Driver/Overlay/Mounted.antt =====
-- What the operations of the overlay driver leave alone: the volumes, and the mounts there are.
use baggageclaim.Prelude.{
  Mem, String, ◌≡◌, refl, sym, subst, ◌∙◌, Option, none, some, List, inl, inr,
}
use baggageclaim.Disk.World.{File, BaseVolume, live, node}
use baggageclaim.Disk.Action.{Error, not_exist, Result, ok, err, Action, call}
use baggageclaim.Disk.Calls.{get_dir}
use baggageclaim.Disk.Frame.{Keeps, Keeps-call}
use baggageclaim.Disk.FrameCalls.{get_dir-Keeps}
use baggageclaim.Volume.Repository.Descendants.Pruned.{InLive}
use baggageclaim.Volume.Driver.Overlay.Defs.{
  bind_of, overlay_of, Mount, Machine, Step, pure, raise, on_disk, continue, ◌>>=◌, mkdir_layer,
  mkdir_work, mount_at, mount, bind_mount, overlay_mount,
}

-- From the first state to the second, live/ is the same and no mount has gone.
pub record Onward (m m' : Machine) : Type 0 where
  pub nodes : (k : String) → node live k m'.world ≡ node live k m.world
  pub mounts : (x : Mount) → Mem x m.mounts → Mem x m'.mounts

pub record Goes {A : Type 0} (s : Step A) : Type 0 where
  pub at : (m : Machine) → Onward m (s m).1

pub Onward-refl : (m : Machine) → Onward m m
Onward-refl m = record { nodes = λ k. refl; mounts = λ x i. i }

pub Onward-trans : {l m n : Machine} → Onward l m → Onward m n → Onward l n
Onward-trans a b = record {
  nodes = λ k. b.nodes k ∙ a.nodes k;
  mounts = λ x i. b.mounts x (a.mounts x i);
}

module _ {A : Type 0} where
  pub Goes-pure : (a : A) → Goes (pure a)
  Goes-pure a = record { at = Onward-refl }

  pub Goes-raise : (e : Error) → Goes (raise {A = A} e)
  Goes-raise e = record { at = Onward-refl }

  pub Goes-on_disk : (f : Action A) → Keeps InLive f → Goes (on_disk f)
  Goes-on_disk f keeps = record {
    at = λ m. record { nodes = λ k. (keeps.at m.world).nodes live k refl; mounts = λ x i. i };
  }

module _ {A B : Type 0} where
  Goes-continue : (f : A → Step B) → ((a : A) → Goes (f a)) → (r : Result A) → Goes (continue f r)
  Goes-continue f goes (ok a) = goes a
  Goes-continue f goes (err e) = Goes-raise e

  pub Goes-bind : (s : Step A) (f : A → Step B) → Goes s → ((a : A) → Goes (f a)) → Goes (s >>= f)
  Goes-bind s f first rest = record {
    at = λ m. Onward-trans (first.at m) ((Goes-continue f rest (s m).0).at (s m).1);
  }

  continue-ok :
      (f : A → Step B) (r : Result A) (m : Machine) {b : B}
      → (continue f r m).0 ≡ ok b
      → (a : A) × (r ≡ ok a) × ((f a m).0 ≡ ok b) × (continue f r m ≡ f a m)
  continue-ok f (ok a) m h = (a, refl, h, refl)
  continue-ok f (err e) m h = absurd (cc)

  -- A block that succeeds has gone through its first step and then through the rest.
  pub step-ok :
      (s : Step A) (f : A → Step B) (m : Machine) {b : B}
      → ((s >>= f) m).0 ≡ ok b
      → (a : A) × ((s m).0 ≡ ok a) × ((f a (s m).1).0 ≡ ok b) × ((s >>= f) m ≡ f a (s m).1)
  step-ok s f m h = continue-ok f (s m).0 (s m).1 h

pub call-Goes : Goes (on_disk call)
call-Goes = Goes-on_disk call Keeps-call

pub mkdir_layer-Goes : (h : String) → Goes (mkdir_layer h)
unfolding mkdir_layer
mkdir_layer-Goes h =
    Goes-bind (on_disk call) _ call-Goes
      (λ u. record { at = λ m. record { nodes = λ k. refl; mounts = λ x i. i } })

pub mkdir_work-Goes : (h : String) → Goes (mkdir_work h)
unfolding mkdir_work
mkdir_work-Goes h =
    Goes-bind (on_disk call) _ call-Goes
      (λ u. record { at = λ m. record { nodes = λ k. refl; mounts = λ x i. i } })

mount_at-Goes : (new : Mount) (o : Option (List File)) → Goes (mount_at new o)
mount_at-Goes new none = Goes-raise not_exist
mount_at-Goes new (some fs) = record {
  at = λ m. record { nodes = λ k. refl; mounts = λ x i. inr i };
}

pub mount-Goes : (new : Mount) → Goes (mount new)
unfolding mount
mount-Goes new = Goes-bind (on_disk call) _ call-Goes (λ u.
    Goes-bind (on_disk (get_dir new.target)) _ (Goes-on_disk _ (get_dir-Keeps new.target))
      (λ d. mount_at-Goes new d.files))

pub bind_mount-Goes : (v : BaseVolume) → Goes (bind_mount v)
unfolding bind_mount
bind_mount-Goes v =
    Goes-bind (mkdir_layer v.handle) _ (mkdir_layer-Goes v.handle) (λ u. mount-Goes _)

pub overlay_mount-Goes : (child lower : BaseVolume) → Goes (overlay_mount child lower)
unfolding overlay_mount
overlay_mount-Goes child lower =
    Goes-bind (mkdir_layer child.handle) _ (mkdir_layer-Goes child.handle) (λ u.
      Goes-bind (mkdir_work child.handle) _ (mkdir_work-Goes child.handle) (λ u. mount-Goes _))

mount_at_ok :
    (new : Mount) (o : Option (List File)) (m : Machine)
    → (mount_at new o m).0 ≡ ok tt
    → Mem new (mount_at new o m).1.mounts
mount_at_ok new none m done = absurd (cc done)
mount_at_ok new (some fs) m done = inl refl

-- A mount that succeeds is there.
pub mount_ok :
    (new : Mount) (m : Machine) → (mount new m).0 ≡ ok tt → Mem new (mount new m).1.mounts
unfolding mount
mount_ok new m done =
    let (u, ok1, done1, e1) = step-ok (on_disk call) _ m done in
    let (d, ok2, done2, e2) = step-ok (on_disk (get_dir new.target)) _ (on_disk call m).1 done1 in
    subst (λ (r : Result Unit × Machine). Mem new r.1.mounts) (sym (e1 ∙ e2))
      (mount_at_ok new d.files _ done2)

pub bind_mount_ok :
    (v : BaseVolume) (m : Machine)
    → (bind_mount v m).0 ≡ ok tt
    → Mem (bind_of v) (bind_mount v m).1.mounts
unfolding bind_mount
bind_mount_ok v m done =
    let (u, ok1, done1, e1) = step-ok (mkdir_layer v.handle) _ m done in
    subst (λ (r : Result Unit × Machine). Mem (bind_of v) r.1.mounts) (sym e1)
      (mount_ok (bind_of v) _ done1)

pub overlay_mount_ok :
    (child lower : BaseVolume) (m : Machine)
    → (overlay_mount child lower m).0 ≡ ok tt
    → Mem (overlay_of child lower) (overlay_mount child lower m).1.mounts
unfolding overlay_mount
overlay_mount_ok child lower m done =
    let (u, ok1, done1, e1) = step-ok (mkdir_layer child.handle) _ m done in
    let (x, ok2, done2, e2) =
      step-ok (mkdir_work child.handle) _ (mkdir_layer child.handle m).1 done1 in
    subst (λ (r : Result Unit × Machine). Mem (overlay_of child lower) r.1.mounts) (sym (e1 ∙ e2))
      (mount_ok (overlay_of child lower) _ done2)
