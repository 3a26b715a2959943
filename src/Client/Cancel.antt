-- ===== src/Client/Cancel.antt =====
-- What `Destroy` of a future does at a server.
use baggageclaim.Prelude.{
  ℕ, String, ◌≡◌, refl, Option, none, some, Option-cases, Bool-cases, inl, inr, eq_iff, arith,
}
use baggageclaim.Prelude.Table.{get, get-delete}
use baggageclaim.Disk.World.{World}
use baggageclaim.Volume.Promise.{get_promise, remove_promise, is_pending}
use baggageclaim.Api.{Promises, cancel_at, cancel_async}
use baggageclaim.Client.Wire.{IsWire, undecodable, ClientError, future_not_found, gave_up}
use baggageclaim.Client.Defs.{exchange, get_error, if_sent}
use baggageclaim.Client.Future.{destroy_future, of_cancel}
use baggageclaim.Client.Serve.{Server, cancel_response}
use baggageclaim.Client.Router.{serve, handle, client_of}

-- After a cancellation the server knows no promise of the handle.
pub cancel_async-get :
    (h : String) (s : Promises) → get_promise (cancel_async h s).0.listed h ≡ none
unfolding cancel_async get_promise remove_promise
cancel_async-get h s = elim (Option-cases (get h s.listed)) [
  | inl e ↦ rw e e
  | inr (i, e) ↦ rw e (elim (Bool-cases (is_pending (s.made i))) [
    | inl p ↦ rw p (ground (arith, get-delete h h s.listed, eq_iff h h))
    | inr p ↦ rw p (ground (arith, get-delete h h s.listed, eq_iff h h))
  ])
]

-- what a client is told of the cancellation of a future, by what the server knows of it
abbrev pub cancel_error : String → Option ℕ → ClientError
cancel_error h none = future_not_found h
cancel_error h (some i) = undecodable

module _ (server : Server) (laws : IsWire server.wire) (h : String) where
  cancel_told :
      (s : Promises) (o : Option ℕ)
      → if_sent (of_cancel server.wire h) (cancel_response server (cancel_at h s o).1)
        ≡ gave_up (cancel_error h o)
  unfolding get_error
  cancel_told s none = refl
  cancel_told s (some i) = elim (Bool-cases (is_pending (s.made i))) [
    | inl p ↦ rw p (rw laws.no_body refl)
    | inr p ↦ rw p (rw laws.no_body refl)
  ]

  -- Destroy of a future never returns without an error: where the server knows the future, it answers
  -- 204 with no body, which the client takes for an error whose JSON it cannot decode; elsewhere the
  -- future is not found. Afterwards the server knows no future of the handle, and the disk is as it
  -- was.
  pub destroy_future_refused :
      (s : Promises) (w : World)
      → let after = destroy_future (client_of server) h (s, w) in
        (after.0 ≡ gave_up (cancel_error h (get_promise s.listed h)))
        × (get_promise after.1.0.listed h ≡ none)
        × (after.1.1 ≡ w)
  unfolding destroy_future exchange serve handle cancel_async
  destroy_future_refused s w = (cancel_told s (get_promise s.listed h), cancel_async-get h s, refl)
