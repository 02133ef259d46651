-- ===== src/Telemetry/Tracker/Candidates.antt =====
-- `get_candidate_blocks`: which blocks a strategy offers for migration.
use multie_layer_kache.Prelude.{ℕ, String, ◌≡◌, none, arith, string_key, ◌≢◌, eq_iff}
use multie_layer_kache.Prelude.Dict
use multie_layer_kache.Prelude.Floats.{Double}
use multie_layer_kache.Telemetry.Tracker.{Tracker, get_candidate_blocks}

module _ {W : Type 0} ⦃d : Double W⦄ where
  -- For any strategy but the four that the message lists the call raises.
  pub get_candidate_blocks_unknown :
      (t : Tracker W) (n : ℕ) (strategy : String)
      → strategy ≢ "lru"
      → strategy ≢ "low_attention"
      → strategy ≢ "age"
      → strategy ≢ "importance"
      → get_candidate_blocks t n strategy ≡ none
  unfolding get_candidate_blocks
  get_candidate_blocks_unknown t n s a b c e =
      ground
        (arith, eq_iff s "lru", eq_iff s "low_attention", eq_iff s "age", eq_iff s "importance")
