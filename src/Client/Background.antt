-- ===== src/Client/Background.antt =====
-- A server whose creation goes on in the background while a client checks on it.
use baggageclaim.Prelude.{
  ℕ, zero, suc, ◌+◌, ◌-◌, ◌<◌, String, ◌≡◌, refl, ap, true, Option, none, some, arith,
}
use baggageclaim.Disk.World.{World}
use baggageclaim.Api.{Promises, no_content, check_async}
use baggageclaim.Client.Wire.{Client}
use baggageclaim.Client.Waiting.{checked, check_sent, is_waiting}
use baggageclaim.Client.Serve.{Server, Job, check_response}
use baggageclaim.Client.Router.{serve, handle, started, run_job}

-- The requests that are answered before the goroutine of a creation ends, that goroutine, and the
-- state of the server. No other creation comes between.
abbrev pub Running : Type 0
Running = ℕ × (Option Job × (Promises × World))

abbrev pub latest : Option Job → Option Job → Option Job
latest none before = before
latest (some job) before = some job

module _ (server : Server) where
  -- The goroutine ends after some more requests have been answered.
  abbrev pub ends_after : ℕ → Option Job → Promises × World → Running
  ends_after zero job st = (0, (none, run_job server job st))
  ends_after (suc k) job st = (suc k, (job, st))

  abbrev pub next_request : ℕ → Option Job → Promises × World → Running
  next_request zero job st = (0, (job, st))
  next_request (suc k) job st = ends_after k job st

  -- The goroutine is the one that the server has started.
  abbrev pub running : Client Running
  running = record {
    wire = server.wire;
    request_error = λ request. none;
    send = λ request (t : Running).
        let (k, (job, st)) = t in
        let (sent, st') = serve server request st in
        (sent, next_request k (latest (started server request st.0) job) st');
  }

  pub checked-ends_after :
      (h : String) (j k m : ℕ) (job : Option Job) (s : Promises) (w : World)
      → m ≡ j + k
      → checked running h j (ends_after m job (s, w)) ≡ ends_after k job (s, w)
  unfolding checked serve handle started
  checked-ends_after h zero k m job s w e =
      let same : m ≡ k = omega arith in ap (λ n. ends_after n job (s, w)) same
  checked-ends_after h (suc j) k zero job s w e = absurd (omega arith)
  checked-ends_after h (suc j) k (suc m) job s w e =
      checked-ends_after h j k m job s w (omega arith)

  pub check_sent-before :
      (h : String) (j k : ℕ) (job : Option Job) (s : Promises) (w : World)
      → check_async h s ≡ no_content
      → j < k
      → is_waiting (check_sent running h j (ends_after k job (s, w))) ≡ true
  unfolding serve handle started
  check_sent-before h j k job s w pending lt =
      rw (checked-ends_after h j (suc (k - suc j)) k job s w (omega arith)) (rw pending refl)

  pub check_sent-after :
      (h : String) (k : ℕ) (job : Option Job) (s : Promises) (w : World)
      → check_sent running h k (ends_after k job (s, w))
        ≡ check_response server (check_async h (run_job server job (s, w)).0)
  unfolding serve handle started
  check_sent-after h k job s w = rw (checked-ends_after h k 0 k job s w (omega arith)) refl

  -- the check that ends the loop comes after the end of the goroutine
  pub checked-last :
      (h : String) (k : ℕ) (job : Option Job) (s : Promises) (w : World)
      → checked running h (suc k) (ends_after k job (s, w)) ≡ (0, (none, run_job server job (s, w)))
  unfolding checked serve handle started
  checked-last h zero job s w = refl
  checked-last h (suc k) job s w = checked-last h k job s w
