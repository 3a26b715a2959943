-- ===== src/Api/Async.antt =====
-- api/volume_server.go: a creation that goes on in the background, its check and its cancellation.
use baggageclaim.Prelude.{
  ℕ, ◌+◌, String, ◌≡◌, refl, true, Option, none, some, eq_iff, nat_eq, if◌then◌else◌, arith,
}
use baggageclaim.Prelude.Table.{Table, get, put, delete, get-put, get-delete}
use baggageclaim.Disk.World.{World}
use baggageclaim.Disk.Action.{Error, promise_canceled, Result, ok, err, Action, pure, attempt, ◌>>◌}
use baggageclaim.Volume.Promise.{
  Promise, new_promise, Outcome, value, rejected, unsettled, is_pending, fulfill, reject, get_value,
  add_promise, get_promise, remove_promise,
}
use baggageclaim.Volume.Repository.{Repository, Volume, destroy_volume}
use baggageclaim.Api.Server.{Answer, created, found, no_content, failed, creation_failed}

-- The promises that have been made, by pointer, and the list of the server, which holds pointers. The
-- goroutine of a creation keeps its pointer after the list has dropped it.
pub record Promises : Type 0 where
  pub made : ℕ → Promise Volume
  pub next : ℕ
  pub listed : Table ℕ

abbrev pub set_promise : ℕ → Promise Volume → Promises → Promises
set_promise i p s = record s { made = λ j. if nat_eq i j then p else s.made j }

-- `CreateVolumeAsync`, up to the start of its goroutine; the answer is the handle. none: refused.
abbrev pub listed_as : String → Promises → Table ℕ × Option Error → Promises × Answer String
listed_as h s (t, some e) = (s, failed 500)
listed_as h s (t, none) =
    (record (set_promise s.next new_promise s) { next = s.next + 1; listed = t }, created h)

unfoldable pub create_async : String → Promises → Promises × Answer String
create_async h s = listed_as h s (add_promise s.listed h s.next)

abbrev pub value_answer : Outcome Volume → Answer Volume
value_answer (value volume) = found volume
value_answer (rejected e) = creation_failed e
value_answer (unsettled e) = failed 500

abbrev pub check_answer : Promises → Option ℕ → Answer Volume
check_answer s none = failed 404
check_answer s (some i) =
    if is_pending (s.made i) then no_content else value_answer (get_value (s.made i))

-- `CreateVolumeAsyncCheck`
unfoldable pub check_async : String → Promises → Answer Volume
check_async h s = check_answer s (get_promise s.listed h)

abbrev pub cancel_at : String → Promises → Option ℕ → Promises × Answer Unit
cancel_at h s none = (s, failed 404)
cancel_at h s (some i) =
    if is_pending (s.made i)
    then (
      record (set_promise i (reject (s.made i) promise_canceled).0 s) {
        listed = remove_promise s.listed h;
      },
      no_content,
    )
    else (record s { listed = remove_promise s.listed h }, no_content)

-- `CreateVolumeAsyncCancel`; no other call comes between its test and its rejection.
unfoldable pub cancel_async : String → Promises → Promises × Answer Unit
cancel_async h s = cancel_at h s (get_promise s.listed h)

-- the state after a creation that is accepted
abbrev under_way : String → Promises → Promises
under_way h s = record (set_promise s.next new_promise s) {
  next = s.next + 1;
  listed = put h s.next s.listed;
}

create_async-accepted :
    (h : String) (s : Promises)
    → get_promise s.listed h ≡ none
    → create_async h s ≡ (under_way h s, created h)
unfolding create_async add_promise get_promise
create_async-accepted h s fresh = rw (fresh, add_promise)

module _ (repo : Repository) where
  abbrev pub if_canceled : Volume → Option Error → Action Unit
  if_canceled vol (some promise_canceled) = do attempt (destroy_volume repo vol.handle); pure tt
  if_canceled vol _ = pure tt

  -- the end of the goroutine: `creationFailed` and `creationSucceeded` of `createVolumeHandlerAsync`
  unfoldable pub finish_async : ℕ → Result Volume → Promises → World → Promises × World
  finish_async i (err e) s w = (set_promise i (reject (s.made i) e).0 s, w)
  finish_async i (ok vol) s w =
      let (p, refused) = fulfill (s.made i) vol in
      (set_promise i p s, (if_canceled vol refused w).1)

  -- A background creation of a handle that has none under way is accepted. Until it ends, a check is
  -- answered 204; when it ends well, a check is answered with its volume, and the disk is as the
  -- creation left it; when it fails, with the status of its error. A cancellation is answered 204 and a
  -- check after it 404; a creation that ends well after that has its volume destroyed.
  pub create_async_lem :
      (s : Promises) (h : String) (vol : Volume) (e : Error) (w : World)
      → get_promise s.listed h ≡ none
      → let s' = (create_async h s).0 in
        let canceled = (cancel_async h s').0 in
        ((create_async h s).1 ≡ created h)
        × (check_async h s' ≡ no_content)
        × (check_async h (finish_async s.next (ok vol) s' w).0 ≡ found vol)
        × ((finish_async s.next (ok vol) s' w).1 ≡ w)
        × (check_async h (finish_async s.next (err e) s' w).0 ≡ creation_failed e)
        × ((cancel_async h s').1 ≡ no_content)
        × (check_async h canceled ≡ failed 404)
        × ((finish_async s.next (ok vol) canceled w).1 ≡ (destroy_volume repo vol.handle w).1)
  unfolding create_async check_async cancel_async finish_async get_promise add_promise
      remove_promise reject fulfill is_pending get_value
  create_async_lem s h vol e w fresh =
      let here : get h (put h s.next s.listed) ≡ some s.next =
        ground (arith, get-put h h s.next s.listed, eq_iff h h) in
      let gone : get h (delete h (put h s.next s.listed)) ≡ none =
        ground (arith, get-delete h h (put h s.next s.listed), eq_iff h h) in
      let same : nat_eq s.next s.next ≡ true = ground arith in
      rw (create_async-accepted h s fresh) (
        refl,
        rw (here, same),
        rw (here, same),
        rw same,
        rw (here, same),
        rw (here, same),
        rw (here, same, gone),
        rw here (rw same (rw same refl)),
      )
