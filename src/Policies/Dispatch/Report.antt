-- ===== src/Policies/Dispatch/Report.antt =====
-- src/cache_policies/hybrid.py: `get_policy_report` of `HybridAdaptivePolicy`, with `PolicyStats.to_dict`
-- of base.py. `round x n` is Python's rounding to `n` digits.
use multie_layer_kache.Prelude.{
  ℕ, String, Bool, false, Option, some, none, List, [], ◌∷◌, length, last_n,
}
use multie_layer_kache.Prelude.Floats.{Double, nought}
use multie_layer_kache.Policies.Base.{BasePolicy, PolicyStats}
use multie_layer_kache.Policies.Hybrid.{Scorer}
use multie_layer_kache.Policies.Dispatch.{hybrid, get_name}

pub record PolicyReport (W : Type 0) : Type 0 where
  pub policy_name : String
  pub eval_count : ℕ
  pub avg_pressure_recent_100 : W
  pub last_stats : Option (PolicyStats W)
  pub learned_policy_ready : Bool

module _ {W : Type 0} where
  -- the values of the dictionary, under the names of the fields
  unfoldable pub to_dict : (W → ℕ → W) → PolicyStats W → PolicyStats W
  to_dict round s = record s {
    gpu_mem_pressure = round s.gpu_mem_pressure 4;
    evaluation_latency_ms = round s.evaluation_latency_ms 3;
  }

  abbrev pub stats_of : (W → ℕ → W) → Option (PolicyStats W) → Option (PolicyStats W)
  stats_of round none = none
  stats_of round (some s) = some (to_dict round s)

  abbrev pub readiness : Option (Scorer W) → Bool
  readiness none = false
  readiness (some learned) = learned.is_ready

module _ {W : Type 0} ⦃d : Double W⦄ where
  unfoldable pub pressure_sum : W → List W → W
  pressure_sum total [] = total
  pressure_sum total (x ∷ xs) = pressure_sum (d.add total x) xs

  abbrev pub average_pressure : List W → W
  average_pressure [] = nought
  average_pressure (x ∷ xs) =
      let recent = last_n 100 (x ∷ xs) in
      d.div (pressure_sum nought recent) (d.of_int (length recent))

  unfoldable pub get_policy_report :
      (W → ℕ → W) → Option (Scorer W) → List W → BasePolicy W → PolicyReport W
  unfolding to_dict get_name pressure_sum last_n
  get_policy_report round learned history base = record {
    policy_name = get_name (hybrid learned history);
    eval_count = base.eval_count;
    avg_pressure_recent_100 = average_pressure history;
    last_stats = stats_of round base.last_stats;
    learned_policy_ready = readiness learned;
  }
