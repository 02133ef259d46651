-- ===== src/Evaluation/Report.antt =====
-- src/evaluators/pareto.py: `ParetoAnalyzer.generate_report`. The rounded means of a policy's rows are
-- pandas' and an argument, as is the frontier.
pub mod Totals
use multie_layer_kache.Prelude.{
  ℕ, String, Bool, true, false, Option, none, some, List, [], ◌∷◌, ◌++◌, map, ◌==◌, string_key,
  if◌then◌else◌, length, filter_by,
}
use multie_layer_kache.Prelude.Members.{member}
use multie_layer_kache.Prelude.Dict.{Dict}

-- a row of the results
pub record ResultRow (W : Type 0) : Type 0 where
  pub policy_name : String
  pub memory_budget : W
  pub context_length : ℕ
  pub quality_score : W
  pub p95_latency_ms : W
  pub gpu_mem_peak_mb : W

pub record PolicySummary (W : Type 0) : Type 0 where
  pub mean_quality : W
  pub mean_p95_ms : W
  pub mean_gpu_mb : W
  pub n_results : ℕ

pub record Report (W : Type 0) : Type 0 where
  pub total_results : ℕ
  pub policies : List String
  pub pareto_frontier_size : ℕ
  pub pareto_frontier_policies : List String
  pub per_policy : Dict String (PolicySummary W)

-- the report, or the dictionary with the error
pub data ReportAnswer (W : Type 0) : Type 0 where
  reported : Report W → ReportAnswer W
  no_results : ReportAnswer W

-- `round(float(column.mean()), digits)`
pub record Means (W : Type 0) : Type 0 where
  pub rounded_mean : ℕ → List W → W

-- `unique()`: the values in the order of their first occurrence, without those seen already
unfoldable pub unique_from : List String → List String → List String
unique_from seen [] = []
unique_from seen (x ∷ xs) =
    let old = unique_from seen xs in
    let new = unique_from (x ∷ seen) xs in if member x seen then old else x ∷ new

module _ {W : Type 0} where
  unfoldable pub add_result : List (ResultRow W) → ResultRow W → List (ResultRow W)
  add_result results row = results ++ row ∷ []

  abbrev pub policy_of : ResultRow W → String
  policy_of r = r.policy_name

  -- `df[df["policy_name"] == p]`
  abbrev pub rows_of : String → List (ResultRow W) → List (ResultRow W)
  rows_of p rows = filter_by (λ r. policy_of r == p) rows

  unfoldable pub summarise : Means W → List (ResultRow W) → PolicySummary W
  summarise np sub = record {
    mean_quality = np.rounded_mean 4 (map (λ (r : ResultRow W). r.quality_score) sub);
    mean_p95_ms = np.rounded_mean 2 (map (λ (r : ResultRow W). r.p95_latency_ms) sub);
    mean_gpu_mb = np.rounded_mean 1 (map (λ (r : ResultRow W). r.gpu_mem_peak_mb) sub);
    n_results = length sub;
  }

  -- `frontier` is the names on what `compute_pareto_frontier` returns, `none` where it raises
  unfoldable pub generate_report :
      Means W → Option (List String) → List (ResultRow W) → Option (ReportAnswer W)
  unfolding unique_from summarise
  generate_report np frontier [] = some no_results
  generate_report np none (row ∷ rows) = none
  generate_report np (some frontier) (row ∷ rows) =
      let all = row ∷ rows in
      let policies = unique_from [] (map policy_of all) in
      some (
        reported (record {
          total_results = length all;
          policies = policies;
          pareto_frontier_size = length frontier;
          pareto_frontier_policies = frontier;
          per_policy = map (λ p. (p, summarise np (rows_of p all))) policies;
        }))
