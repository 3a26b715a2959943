-- ===== src/Volume/Promise.antt =====
-- volume/promise.go and volume/promise_list.go: the outcome of a creation that goes on in the
-- background. Each method holds the lock of its object from start to end, so it is one step.
use baggageclaim.Prelude.{
  String, ◌≡◌, ◌≢◌, refl, Bool, true, false, ◌&&◌, Option, none, some, Option-cases, inl, inr, List,
  [], ◌∷◌, ◌==◌, if◌then◌else◌, arith,
}
use baggageclaim.Prelude.Table.{Table, get, put, delete, get-put, get-delete}
use baggageclaim.Disk.Action.{
  Error, promise_canceled, promise_not_pending, promise_still_pending, promise_already_exists,
}

-- Fulfilled with a value of `V`, or rejected with an error; `promise` of the source.
pub record Promise (V : Type 0) : Type 0 where
  pub volume : Option V
  pub error : Option Error

abbrev is_none : {A : Type 0} → Option A → Bool
is_none none = true
is_none (some _) = false

abbrev is_canceled : Option Error → Bool
is_canceled (some promise_canceled) = true
is_canceled _ = false

-- `GetValue`: a value, the error of the creation, or the error of the call
pub data Outcome (V : Type 0) : Type 0 where
  value : V → Outcome V
  rejected : Error → Outcome V
  unsettled : Error → Outcome V

-- a call of `Fulfill` or `Reject`
pub data Settle (V : Type 0) : Type 0 where
  fulfilling : V → Settle V
  rejecting : Error → Settle V

module _ {V : Type 0} where
  -- `NewPromise`
  abbrev pub new_promise : Promise V
  new_promise = record { volume = none; error = none }

  unfoldable pub is_pending : Promise V → Bool
  is_pending p = is_none p.volume && is_none p.error

  -- `Fulfill`: the promise after the call, and the error that the call returns
  unfoldable pub fulfill : Promise V → V → Promise V × Option Error
  unfolding is_pending
  fulfill p v =
      if is_pending p
      then (record p { volume = some v }, none)
      else (p, some (if is_canceled p.error then promise_canceled else promise_not_pending))

  -- `Reject`
  unfoldable pub reject : Promise V → Error → Promise V × Option Error
  unfolding is_pending
  reject p e =
      if is_pending p then (record p { error = some e }, none) else (p, some promise_not_pending)

  -- A promise that holds both a value and an error, which no call makes, gives both.
  abbrev outcome_of : Option V → Option Error → Outcome V
  outcome_of none none = unsettled promise_still_pending
  outcome_of none (some e) = rejected e
  outcome_of (some v) none = value v
  outcome_of (some v) (some e) = rejected e

  unfoldable pub get_value : Promise V → Outcome V
  get_value p = outcome_of p.volume p.error

  unfoldable pub settle : Promise V → Settle V → Promise V × Option Error
  unfolding fulfill reject
  settle p (fulfilling v) = fulfill p v
  settle p (rejecting e) = reject p e

  -- the calls that are made on a promise, in the order in which they get its lock
  unfoldable pub settle_all : Promise V → List (Settle V) → Promise V
  unfolding settle
  settle_all p [] = p
  settle_all p (c ∷ cs) = settle_all (settle p c).0 cs

  abbrev pub meant : Settle V → Outcome V
  meant (fulfilling v) = value v
  meant (rejecting e) = rejected e

  settle_settled :
      (p : Promise V) (c : Settle V)
      → is_pending p ≡ false
      → ((settle p c).0 ≡ p) × ((settle p c).1 ≢ none)
  unfolding settle
  settle_settled p (fulfilling v) h = rw h (refl, λ e. cc)
  settle_settled p (rejecting x) h = rw h (refl, λ e. cc)

  settle_all_settled :
      (p : Promise V) (cs : List (Settle V)) → is_pending p ≡ false → settle_all p cs ≡ p
  unfolding settle_all
  settle_all_settled p [] h = refl
  settle_all_settled p (c ∷ cs) h = rw ((settle_settled p c h).0) (settle_all_settled p cs h)

  -- The first call on a new promise settles it for good: it returns no error, whatever calls follow
  -- leave the value or the error that it set, and each of them returns an error.
  pub first_settles :
      (c d : Settle V) (cs : List (Settle V))
      → ((settle new_promise c).1 ≡ none)
        × (get_value (settle_all new_promise (c ∷ cs)) ≡ meant c)
        × ((settle (settle_all new_promise (c ∷ cs)) d).1 ≢ none)
  unfolding settle_all settle get_value
  first_settles (fulfilling v) d cs =
      let done : Promise V = record { volume = some v; error = none } in
      let kept = settle_all_settled done cs refl in
      (refl, rw kept, rw kept ((settle_settled done d refl).1))
  first_settles (rejecting e) d cs =
      let done : Promise V = record { volume = none; error = some e } in
      let kept = settle_all_settled done cs refl in
      (refl, rw kept, rw kept ((settle_settled done d refl).1))

  -- A promise that was canceled before it was fulfilled says so to whoever fulfills it, after any
  -- other calls, and to nobody that rejects it.
  pub fulfill_canceled :
      (cs : List (Settle V)) (v : V) (e : Error)
      → let p = settle_all new_promise (rejecting promise_canceled ∷ cs) in
        ((fulfill p v).1 ≡ some promise_canceled) × ((reject p e).1 ≡ some promise_not_pending)
  unfolding settle_all settle
  fulfill_canceled cs v e =
      let done : Promise V = record { volume = none; error = some promise_canceled } in
      rw (settle_all_settled done cs refl) (refl, refl)

-- volume/promise_list.go: the promises of the server by handle; an entry is a pointer.
module _ {A : Type 0} where
  unfoldable pub add_promise : Table A → String → A → Table A × Option Error
  add_promise t h p = elim (get h t) [
    | some _ ↦ (t, some promise_already_exists)
    | none ↦ (put h p t, none)
  ]

  unfoldable pub get_promise : Table A → String → Option A
  get_promise t h = get h t

  unfoldable pub remove_promise : Table A → String → Table A
  remove_promise t h = delete h t

  -- A promise that is added can be got by its handle until it is removed, and one that is refused has
  -- changed nothing; the promises of other handles stay as they are.
  pub add_promise_lem :
      (t : Table A) (h k : String) (p : A)
      → let (t', refused) = add_promise t h p in
        ((refused ≡ none)
          → (get_promise t' k ≡ (if h == k then some p else get_promise t k))
            × (get_promise (remove_promise t' h) k ≡ (if h == k then none else get_promise t k)))
        × ((refused ≢ none) → (t' ≡ t) × (get_promise t h ≢ none))
  unfolding add_promise get_promise remove_promise
  add_promise_lem t h k p = (
    λ r. elim (Option-cases (get h t)) [
      | inl e ↦
          rw (e, add_promise)
            (get-put k h p t, ground (arith, get-delete k h (put h p t), get-put k h p t))
      | inr (x, e) ↦ absurd (cc (rw (e, add_promise) at (r)))
    ],
    λ r. elim (Option-cases (get h t)) [
      | inl e ↦ absurd (r (rw (e, add_promise)))
      | inr (x, e) ↦ rw (e, add_promise) (refl, λ f. cc)
    ],
  )
