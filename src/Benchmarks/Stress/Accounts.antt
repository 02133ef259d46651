-- ===== src/Benchmarks/Stress/Accounts.antt =====
-- What the counters of a stress test add up to.
use multie_layer_kache.Prelude.{
  ℕ, ◌+◌, ◌*◌, ◌≡◌, refl, String, List, [], ◌∷◌, ◌++◌, arith, length, length-append, All,
}
use multie_layer_kache.Prelude.Floats.{Double}
use multie_layer_kache.Benchmarks.Stress.{
  StressTestResult, Response, latency, exception, Session, turns, raised_session, new_result, tally,
  tally_sessions,
}

module _ {W : Type 0} ⦃d : Double W⦄ where
  tally_lem :
      (r : StressTestResult W) (responses : List (Response W))
      → let t = tally r responses in
        (t.successful_requests + t.failed_requests
          ≡ r.successful_requests + r.failed_requests + length responses)
        × (length t.latencies_ms + r.successful_requests
            ≡ length r.latencies_ms + t.successful_requests)
        × (t.total_requests ≡ r.total_requests)
  unfolding tally
  tally_lem r [] = (omega arith, refl, refl)
  tally_lem r (exception e ∷ responses) =
      let ih = tally_lem (record r { failed_requests = r.failed_requests + 1 }) responses in
      (omega (arith, ih.0), omega (arith, ih.1), ih.2)
  tally_lem r (latency ms ∷ responses) =
      let ih =
        tally_lem
          (record r {
            successful_requests = r.successful_requests + 1;
            latencies_ms = r.latencies_ms ++ ms ∷ [];
          })
          responses in
      (omega (arith, ih.0), omega (arith, ih.1, length-append r.latencies_ms (ms ∷ [])), ih.2)

  -- a session without an exception has a latency for each turn
  abbrev pub IsFull : ℕ → Session W → Type 0
  IsFull num_turns (turns lats) = length lats ≡ num_turns
  IsFull num_turns (raised_session e) = Unit

  -- the sessions that end with an exception
  abbrev pub failed_sessions : List (Session W) → ℕ
  failed_sessions [] = 0
  failed_sessions (turns lats ∷ sessions) = failed_sessions sessions
  failed_sessions (raised_session e ∷ sessions) = failed_sessions sessions + 1

  tally_sessions_from :
      (n : ℕ) (r : StressTestResult W) (sessions : List (Session W))
      → All (IsFull n) sessions
      → let t = tally_sessions n r sessions in
        (t.failed_requests ≡ r.failed_requests + failed_sessions sessions)
        × (t.total_requests ≡ r.total_requests + n * length sessions)
        × (t.successful_requests + n * failed_sessions sessions
            ≡ r.successful_requests + n * length sessions)
  unfolding tally_sessions
  tally_sessions_from n r [] full = (omega arith, grind arith, grind arith)
  tally_sessions_from n r (raised_session e ∷ sessions) (full, fulls) =
      let ih =
        tally_sessions_from n
          (record r {
            failed_requests = r.failed_requests + 1;
            total_requests = r.total_requests + n;
          })
          sessions fulls in
      (omega (arith, ih.0), grind (arith, ih.1), grind (arith, ih.2))
  tally_sessions_from n r (turns lats ∷ sessions) (full, fulls) =
      let ih =
        tally_sessions_from n
          (record r {
            latencies_ms = r.latencies_ms ++ lats;
            successful_requests = r.successful_requests + length lats;
            total_requests = r.total_requests + n;
          })
          sessions fulls in
      (omega (arith, ih.0), grind (arith, ih.1), grind (arith, ih.2, full))

  -- In the long-chat test a session that raises counts as one failed request, while all its turns count as
  -- requests: of the total, `num_turns` - 1 requests for each such session are neither successful nor
  -- failed.
  pub tally_sessions_lem :
      (num_turns : ℕ) (test_name policy_name : String) (sessions : List (Session W))
      → All (IsFull (num_turns + 1)) sessions
      → let t = tally_sessions (num_turns + 1) (new_result test_name policy_name) sessions in
        (t.failed_requests ≡ failed_sessions sessions)
        × (t.successful_requests + t.failed_requests + num_turns * failed_sessions sessions
            ≡ t.total_requests)
  unfolding new_result
  tally_sessions_lem n test_name policy_name sessions full =
      let all = tally_sessions_from (n + 1) (new_result test_name policy_name) sessions full in
      (omega (arith, all.0), grind (arith, all.0, all.1, all.2))
