-- ===== src/Tests/Load.antt =====
-- The theorems on the stress tests at two sessions and at a prompt of ten characters.
use multie_layer_kache.Prelude.{ℕ, ◌+◌, ◌*◌, ◌≤◌, ◌<◌, ◌≡◌, refl, String, List, [], ◌∷◌, arith}
use multie_layer_kache.Prelude.Fixed.{Fixed, pos, fixed_double}
use multie_layer_kache.Serving.Generation.Stream.{char_length}
use multie_layer_kache.Benchmarks.Stress.{
  Session, turns, raised_session, new_result, tally_sessions, random_prompt,
}
use multie_layer_kache.Benchmarks.Stress.Accounts.{failed_sessions, tally_sessions_lem}
use multie_layer_kache.Benchmarks.Stress.Prompt.{random_prompt_lem}

abbrev sessions : List (Session Fixed)
sessions = turns (pos 1 ∷ pos 2 ∷ pos 3 ∷ []) ∷ raised_session "timeout" ∷ []

tally_sessions_lem_example :
    let t = tally_sessions (2 + 1) (new_result "long_chat_session" "h2o") sessions in
    (t.failed_requests ≡ failed_sessions sessions)
    × (t.successful_requests + t.failed_requests + 2 * failed_sessions sessions ≡ t.total_requests)
tally_sessions_lem_example =
    tally_sessions_lem 2 "long_chat_session" "h2o" sessions (refl, (tt, tt))

abbrev always_fox : ℕ → String
always_fox i = "fox"

fox-short : (i : ℕ) → char_length (always_fox i) ≤ 3
unfolding char_length
fox-short i = omega arith

random_prompt_lem_example :
    (10 ≤ char_length (random_prompt always_fox 10) + 1)
    × (char_length (random_prompt always_fox 10) < 10 + 3)
random_prompt_lem_example = random_prompt_lem always_fox 3 10 fox-short (omega arith)
