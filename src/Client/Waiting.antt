-- ===== src/Client/Waiting.antt =====
-- How long a client waits for a volume, and what it leaves behind.
use baggageclaim.Prelude.{
  ℕ, zero, suc, ◌<◌, String, ◌≡◌, refl, ◌∙◌, Bool, true, false, none, nat_eq, arith,
}
use baggageclaim.Volume.Strategy.Strategerizer.{ObjectCodec}
use baggageclaim.Client.Wire.{
  create_volume_async, create_volume_async_check, Sent, received, lost, got, Client,
}
use baggageclaim.Client.Defs.{
  Call, ClientVolume, json_body, with_status, if_sent, exchange_unchecked,
}
use baggageclaim.Client.Future.{
  of_check, after_check, poll, wait, destroy_future, wait_and_destroy, VolumeSpec, volume_request,
  create_volume,
}

-- 204 to a check: the creation has not ended
abbrev pub is_waiting : Sent → Bool
is_waiting (lost n) = false
is_waiting (received r) = nat_eq r.status 204

module _ {S : Type 0} (client : Client S) (h : String) where
  -- the state of the server after some checks
  unfoldable pub checked : ℕ → S → S
  checked zero s = s
  checked (suc k) s = checked k (client.send (create_volume_async_check h) s).1

  -- what comes back of the check after so many
  abbrev pub check_sent : ℕ → S → Sent
  check_sent k s = (client.send (create_volume_async_check h) (checked k s)).0

  after_check-waiting :
      (again : Call S ClientVolume) (sent : Sent) (s : S)
      → is_waiting sent ≡ true
      → after_check client h again (sent, s) ≡ again s
  after_check-waiting again (lost n) s waiting = absurd (cc waiting)
  after_check-waiting again (received r) s waiting = rw waiting refl

  after_check-ended :
      (again : Call S ClientVolume) (sent : Sent) (s : S)
      → is_waiting sent ≡ false
      → after_check client h again (sent, s) ≡ (if_sent (of_check client.wire h) sent, s)
  after_check-ended again (lost n) s ended = refl
  after_check-ended again (received r) s ended = rw ended refl

  poll_ends :
      (n k : ℕ) (s : S)
      → ((j : ℕ) → j < k → is_waiting (check_sent j s) ≡ true)
      → is_waiting (check_sent k s) ≡ false
      → k < n
      → poll client h n s ≡ (if_sent (of_check client.wire h) (check_sent k s), checked (suc k) s)
  unfolding poll checked
  poll_ends zero k s waiting ended lt = absurd (omega arith)
  poll_ends (suc n) zero s waiting ended lt = after_check-ended (poll client h n) _ _ ended
  poll_ends (suc n) (suc k) s waiting ended lt =
      after_check-waiting (poll client h n) (check_sent 0 s) (checked 1 s) (waiting 0 (omega arith))
      ∙ poll_ends n k _ (λ j l. waiting (suc j) (omega arith)) ended (omega arith)

  -- When the first k checks are answered 204 and the next one is not, Wait returns what it makes of
  -- that answer, with any fuel above k, and it has sent no other check. The request for a check can be
  -- made.
  pub wait_ends :
      (n k : ℕ) (s : S)
      → client.request_error (create_volume_async_check h) ≡ none
      → ((j : ℕ) → j < k → is_waiting (check_sent j s) ≡ true)
      → is_waiting (check_sent k s) ≡ false
      → k < n
      → wait client h n s ≡ (if_sent (of_check client.wire h) (check_sent k s), checked (suc k) s)
  unfolding wait
  wait_ends n k s made waiting ended lt = rw (made, wait) (poll_ends n k s waiting ended lt)

module _ {S : Type 0} (client : Client S) (codec : ObjectCodec) where
  -- A creation whose future is made waits for it: when the first k checks of the future are answered
  -- 204 and the next one is not, the result is what Wait makes of that answer, with any fuel above k.
  -- After the checks the client destroys the future, once, whatever the result. The requests for the
  -- creation and the check can be made.
  pub create_volume-wait :
      (n k : ℕ) (h future : String) (spec : VolumeSpec) (s s' : S)
      → (exchange_unchecked client
            (create_volume_async (volume_request client codec h spec))
            (with_status client.wire 201 (json_body client.wire.decode_future))
            s
          ≡ (got future, s'))
      → client.request_error (create_volume_async_check future) ≡ none
      → ((j : ℕ) → j < k → is_waiting (check_sent client future j s') ≡ true)
      → is_waiting (check_sent client future k s') ≡ false
      → k < n
      → create_volume client codec n h spec s ≡ (
        if_sent (of_check client.wire future) (check_sent client future k s'),
        (destroy_future client future (checked client future (suc k) s')).1,
      )
  unfolding create_volume wait_and_destroy
  create_volume-wait n k h future spec s s' accepted made waiting ended lt =
      rw accepted (rw (wait_ends client future n k s' made waiting ended lt) refl)
