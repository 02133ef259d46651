-- ===== src/Tests/Evaluation.antt =====
-- The theorems on the evaluators at short lists and at three policies.
use multie_layer_kache.Prelude.{
  ℕ, ◌*◌, ◌/◌, ◌+◌, ◌<◌, ◌≤◌, ap, min, max, ◌≡◌, refl, ◌↔◌, String, true, false, none, some, List,
  [], ◌∷◌, map, inl, arith, nat_key, string_key, length, zip, if◌then◌else◌,
}
use multie_layer_kache.Prelude.Members.{In}
use multie_layer_kache.Prelude.Floats.{nought, one, max_default}
use multie_layer_kache.Prelude.Fixed.{Fixed, pos, fixed_double, Fixed-IsOrdered, Fixed-IsExact}
use multie_layer_kache.Evaluation.Lcs.{lcs_length}
use multie_layer_kache.Evaluation.Lcs.Longest.{none_left, skip, keep, Attained, lcs_length_lem}
use multie_layer_kache.Evaluation.Distance.{levenshtein}
use multie_layer_kache.Evaluation.Distance.Scripts.{Script, done, same, delete, levenshtein_lem}
use multie_layer_kache.Evaluation.Counter.{common_count}
use multie_layer_kache.Evaluation.Quality.{
  Strings, IsExactOnCounts, is_empty, normalize_answer, tokens, token_f1, exact_match, rouge_l,
  edit_similarity, evaluate,
}
use multie_layer_kache.Evaluation.Quality.Agreement.{same_answer}
use multie_layer_kache.Evaluation.Quality.Ratios.{numerators_le}
use multie_layer_kache.Evaluation.Quality.Scores.{f1, sample_score, entry, evaluate_lem}
use multie_layer_kache.Evaluation.Pareto.{
  Point, Result, is_dominated, frontier, dropna, compute_pareto_frontier,
}
use multie_layer_kache.Evaluation.Pareto.Frontier.{
  is_dominated-frontier, compute_pareto_frontier_lem,
}
use multie_layer_kache.Prelude.Counts.{sum_of}
use multie_layer_kache.Evaluation.Report.{
  reported, ResultRow, PolicySummary, Report, Means, generate_report,
}
use multie_layer_kache.Evaluation.Report.Totals.{generate_report_lem}
use multie_layer_kache.Evaluation.Latency.{
  TrackerCall, observe, clear, new_tracker, call_all, get_all, count,
}
use multie_layer_kache.Evaluation.Latency.Recent.{latest, since_reset, call_all-get_all}

abbrev left : List ℕ
left = 1 ∷ 2 ∷ 3 ∷ []

abbrev right : List ℕ
right = 1 ∷ 3 ∷ []

abbrev three : List ℕ
three = 3 ∷ []

lcs_length_lem_example :
    (length three ≤ lcs_length left right) × Attained left right (lcs_length left right)
lcs_length_lem_example =
    lcs_length_lem left right three (skip 1 (skip 2 (keep 3 none_left))) (skip 1 (keep 3 none_left))

levenshtein_lem_example : (levenshtein left right ≤ 1) × Script left right (levenshtein left right)
levenshtein_lem_example = levenshtein_lem left right 1 (same 1 (delete 2 (same 3 done)))

numerators_le_example :
    (lcs_length left right ≤ common_count left right)
    × (common_count left right ≤ min (length left) (length right))
    × (levenshtein left right ≤ max (length left) (length right))
numerators_le_example = numerators_le left right

-- every text is one word
abbrev one_word : Strings
one_word = record {
  lower = λ s. s;
  sub = λ p r s. s;
  delete = λ c s. s;
  punctuation = ".";
  split = λ s. s ∷ [];
  split_on = λ c s. s ∷ [];
  strip = λ s. s;
  join = λ c parts. "word";
}

nothing_over : (n : ℕ) → 0 < n → 0 / (n * 1000 + 0) ≡ 0
nothing_over n h = grind arith

fixed-IsExactOnCounts : IsExactOnCounts fixed_double
fixed-IsExactOnCounts = record {
  whole = λ n h. Fixed-IsExact.div_self (pos (n * 1000)) (ground arith);
  none_of = λ n h. ap pos (nothing_over n h);
  sub_nought = refl;
  two_positive = refl;
  harmonic = refl;
}

same_answer_example :
    (exact_match one_word "a" "b" ≡ one {W = Fixed})
    × (token_f1 one_word "a" "b" ≡ one {W = Fixed})
    × (edit_similarity one_word "a" "b" ≡ one {W = Fixed})
    × (rouge_l one_word "a" "b"
        ≡ (if is_empty (tokens one_word "b") then nought {W = Fixed} else one))
unfolding normalize_answer
same_answer_example = same_answer fixed-IsExactOnCounts one_word "a" "b" refl

abbrev first_score : List Fixed → Fixed
first_score [] = pos 0
first_score (x ∷ xs) = x

evaluate_lem_example :
    entry "f1" (evaluate one_word first_score ("em" ∷ "f1" ∷ []) ("a" ∷ []) ("b" ∷ []))
    ≡ some (first_score (map (sample_score f1 one_word) (zip ("a" ∷ []) ("b" ∷ []))))
evaluate_lem_example =
    evaluate_lem f1 one_word first_score ("em" ∷ "f1" ∷ []) ("a" ∷ []) ("b" ∷ []) refl (omega arith)
      refl

abbrev point : String → ℕ → ℕ → Point Fixed
point name x y = record { policy_name = name; x = pos x; y = pos y }

abbrev small : Point Fixed
small = point "h2o" 100 80

abbrev points : List (Point Fixed)
points = small ∷ point "full_cache" 400 90 ∷ point "hybrid" 200 70 ∷ []

is_dominated-frontier_example :
    is_dominated false true (point "hybrid" 200 70) (frontier false true points)
    ≡ is_dominated false true (point "hybrid" 200 70) points
is_dominated-frontier_example =
    is_dominated-frontier Fixed-IsOrdered false true (point "hybrid" 200 70) points

abbrev results : List (Result Fixed)
results =
    record { policy_name = some "h2o"; x = some (pos 100); y = some (pos 80) }
    ∷ record { policy_name = some "hybrid"; x = some (pos 200); y = none }
    ∷ []

abbrev unsorted : List (Point Fixed) → List (Point Fixed)
unsorted l = l

compute_pareto_frontier_lem_example :
    (l : List (Point Fixed)) × (compute_pareto_frontier unsorted false true results ≡ some l)
    × ((p : Point Fixed)
        → In p l ↔ (In p (dropna results) × (is_dominated false true p (dropna results) ≡ false)))
unfolding dropna
compute_pareto_frontier_lem_example =
    compute_pareto_frontier_lem Fixed-IsOrdered false true unsorted (λ p l. ((λ m. m), λ m. m))
      results small (inl refl)

abbrev observed : List (TrackerCall Fixed)
observed = observe (pos 1) ∷ clear ∷ observe (pos 2) ∷ observe (pos 3) ∷ observe (pos 4) ∷ []

call_all-get_all_example :
    let t = call_all (new_tracker 2) observed in
    let values = since_reset [] observed in
    (get_all t ≡ latest 2 values) × (count t ≡ min 2 (length values))
call_all-get_all_example = call_all-get_all 2 observed

abbrev result_row : String → ResultRow Fixed
result_row name = record {
  policy_name = name;
  memory_budget = pos 100;
  context_length = 4096;
  quality_score = pos 80;
  p95_latency_ms = pos 30;
  gpu_mem_peak_mb = pos 900;
}

-- the largest of the values stands for their mean
abbrev largest_value : Means Fixed
largest_value = record { rounded_mean = λ digits l. max_default (pos 0) l }

generate_report_lem_example :
    (r : Report Fixed) × (generate_report largest_value
        (some ("h2o" ∷ []))
        (result_row "h2o" ∷ result_row "hybrid" ∷ result_row "h2o" ∷ [])
      ≡ some (reported r))
    × (sum_of (map (λ (e : String × PolicySummary Fixed). e.1.n_results) r.per_policy)
        ≡ r.total_results)
    × (r.total_results ≡ 3)
generate_report_lem_example =
    generate_report_lem largest_value ("h2o" ∷ []) (result_row "h2o")
      (result_row "hybrid" ∷ result_row "h2o" ∷ [])
