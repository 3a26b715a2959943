-- ===== src/Disk/Action.antt =====
-- What a Go function that may return an error does to the world. What was done before the error
-- stays done, so the world comes back beside an error too.
use baggageclaim.Prelude.{ℕ, Option, none, some, ◌≡◌, refl, ◌+◌}
use baggageclaim.Disk.World.{World, Fault}

-- The error values of the packages volume and api, and what the library calls return: ENOENT, EEXIST,
-- ENOTDIR, any other errno, JSON that does not decode, a tar or cp process that fails,
-- a peer that does not take a stream, and a recursion that does not end.
pub data Error : Type 0 where
  volume_does_not_exist volume_is_corrupted unsupported_stream_encoding : Error
  no_parent_volume_provided parent_volume_not_found : Error
  no_strategy unknown_strategy malformed_strategy : Error
  promise_canceled promise_not_pending promise_still_pending promise_already_exists : Error
  not_exist exist not_directory malformed_json tar_failed cp_failed peer_refused stack_overflow :
      Error
  syscall : ℕ → Error

pub data Result (A : Type 0) : Type 0 where
  ok : A → Result A
  err : Error → Result A

abbrev pub Action : Type 0 → Type 0
Action A = World → Result A × World

module _ {A : Type 0} where
  abbrev pub pure : A → Action A
  pure a w = (ok a, w)

  abbrev pub raise : Error → Action A
  raise e w = (err e, w)

  -- the outcome `r` of a call, in the world after it
  abbrev pub done : Result A → Action A
  done r w = (r, w)

  abbrev pub read : (World → A) → Action A
  read f w = (ok (f w), w)

  -- run `m` and hand its outcome on as a value, as code does that looks at an error
  abbrev pub attempt : Action A → Action (Result A)
  attempt m w = let (r, w') = m w in (ok r, w')

abbrev pub change : (World → World) → Action Unit
change f w = (ok tt, f w)

module _ {A B : Type 0} where
  abbrev pub continue : (A → Action B) → Result A → Action B
  continue f (ok a) = f a
  continue f (err e) = raise e

infixl 5 ◌>>=◌ ◌>>◌
abbrev pub ◌>>=◌ : {A B : Type 0} → Action A → (A → Action B) → Action B
◌>>=◌ m f w = let (r, w') = m w in continue f r w'

abbrev pub ◌>>◌ : {A B : Type 0} → Action A → Action B → Action B
m >> k = m >>= λ _. k

abbrev pub tick : World → World
tick w = record w { clock = w.clock + 1 }

abbrev pub outcome : Option Fault → Result Unit
outcome none = ok tt
outcome (some f) = err (syscall f.errno)

-- Every call of the system can fail: it asks whether this one does.
unfoldable pub call : Action Unit
call w = (outcome (w.faults w.clock), tick w)

continue-ok :
    {A B : Type 0} (f : A → Action B) (r : Result A) (w : World) {b : B}
    → (continue f r w).0 ≡ ok b
    → (a : A) × (r ≡ ok a) × ((f a w).0 ≡ ok b) × (continue f r w ≡ f a w)
continue-ok f (ok a) w h = (a, refl, h, refl)
continue-ok f (err e) w h = absurd (cc)

-- A block that succeeds has gone through its first step and then through the rest.
pub bind-ok :
    {A B : Type 0} (m : Action A) (f : A → Action B) (w : World) {b : B}
    → ((m >>= f) w).0 ≡ ok b
    → (a : A) × ((m w).0 ≡ ok a) × ((f a (m w).1).0 ≡ ok b) × ((m >>= f) w ≡ f a (m w).1)
bind-ok m f w h = continue-ok f (m w).0 (m w).1 h

-- A block whose first step succeeds goes on with the rest.
pub bind_run :
    {A B : Type 0} (m : Action A) (f : A → Action B) (w : World) {a : A}
    → (m w).0 ≡ ok a
    → (m >>= f) w ≡ f a (m w).1
bind_run m f w e = rw e

-- What holds of the world after a block holds where its first step ends it, and where the rest does.
pub continue_world :
    {A B : Type 0} (P : World → Type 0) (f : A → Action B) (r : Result A) (w : World)
    → ((e : Error) → r ≡ err e → P w)
    → ((a : A) → r ≡ ok a → P (f a w).1)
    → P (continue f r w).1
continue_world P f (ok a) w ended went = went a refl
continue_world P f (err e) w ended went = ended e refl
