-- ===== src/Evaluation/Report/Totals.antt =====
-- The numbers of results in a report.
use multie_layer_kache.Prelude.{
  ℕ, ◌+◌, ◌≡◌, refl, String, true, false, List, [], ◌∷◌, map, arith, ◌==◌, string_key, length,
  All-mono, equal-true, count_by, count_by-map, length-filter_by, length-map, All, some, inl, inr,
  Bool-cases, equal_self,
}
use multie_layer_kache.Prelude.Members.{member, count_by-none}
use multie_layer_kache.Prelude.Counts.{sum_of}
use multie_layer_kache.Evaluation.Report.{
  ResultRow, PolicySummary, Means, Report, reported, unique_from, policy_of, rows_of, summarise,
  generate_report,
}

-- how often a name occurs
abbrev occurrences : List String → String → ℕ
occurrences xs p = count_by (λ x. x == p) xs

-- The names left over are not among those seen.
unique_from-unseen :
    (seen xs : List String) → All (λ p. member p seen ≡ false) (unique_from seen xs)
unfolding unique_from
unique_from-unseen seen [] = tt
unique_from-unseen seen (x ∷ xs) = elim (Bool-cases (member x seen)) [
  | inl old ↦ rw old (unique_from-unseen seen xs)
  | inr new ↦ rw new (
    new,
    All-mono (λ p h. ground (arith, h)) (unique_from (x ∷ seen) xs)
        (unique_from-unseen (x ∷ seen) xs),
  )
]

-- A name that is not among them adds nothing.
sum_of-occurrences :
    (x : String) (xs ps : List String) (seen : List String)
    → member x seen ≡ true
    → All (λ p. member p seen ≡ false) ps
    → sum_of (map (occurrences (x ∷ xs)) ps) ≡ sum_of (map (occurrences xs) ps)
sum_of-occurrences x xs [] seen h all = refl
sum_of-occurrences x xs (p ∷ ps) seen h (q, all) = elim (Bool-cases (x == p)) [
  | inl e ↦ let same : member x seen ≡ false = rw (equal-true x p e) q in absurd (cc)
  | inr e ↦ rw e (omega (arith, sum_of-occurrences x xs ps seen h all))
]

count_by-member :
    (x : String) (seen xs : List String)
    → member x seen ≡ false
    → count_by (λ y. member y (x ∷ seen)) xs ≡ occurrences xs x + count_by (λ y. member y seen) xs
count_by-member x seen [] h = omega arith
count_by-member x seen (y ∷ xs) h = elim (Bool-cases (y == x)) [
  | inl e ↦
      let free : member y seen ≡ false = rw (equal-true y x e) h in
      rw (e, free) (omega (arith, count_by-member x seen xs h))
  | inr e ↦ rw e (omega (arith, count_by-member x seen xs h))
]

sum_of-unique_from :
    (seen xs : List String)
    → sum_of (map (occurrences xs) (unique_from seen xs)) + count_by (λ y. member y seen) xs
      ≡ length xs
unfolding unique_from
sum_of-unique_from seen [] = omega arith
sum_of-unique_from seen (x ∷ xs) = elim (Bool-cases (member x seen)) [
  | inl old ↦ rw old (
      omega (
        arith,
        sum_of-unique_from seen xs,
        sum_of-occurrences x xs (unique_from seen xs) seen old (unique_from-unseen seen xs),
      ))
  | inr new ↦
      let here : member x (x ∷ seen) ≡ true = rw (equal_self x) refl in
      rw (new, equal_self x)
        (omega (
          arith,
          sum_of-unique_from (x ∷ seen) xs,
          sum_of-occurrences x xs (unique_from (x ∷ seen) xs) (x ∷ seen) here
              (unique_from-unseen (x ∷ seen) xs),
          count_by-member x seen xs new,
        ))
]

none_seen : (xs : List String) → All (λ y. member y [] ≡ false) xs
none_seen [] = tt
none_seen (x ∷ xs) = (refl, none_seen xs)

module _ {W : Type 0} where
  entries_total :
      (np : Means W) (rows : List (ResultRow W)) (ps : List String)
      → sum_of (
          map
            (λ (e : String × PolicySummary W). e.1.n_results)
            (map (λ p. (p, summarise np (rows_of p rows))) ps))
        ≡ sum_of (map (occurrences (map policy_of rows)) ps)
  unfolding summarise
  entries_total np rows [] = refl
  entries_total np rows (p ∷ ps) = omega (
    arith,
    entries_total np rows ps,
    length-filter_by (λ r. policy_of r == p) rows,
    count_by-map (λ x. x == p) policy_of rows,
  )

  -- For results that are not empty and of which the frontier is computed there is a report, and the
  -- numbers of results of its policies add up to its total, the number of results.
  pub generate_report_lem :
      (np : Means W) (frontier : List String) (row : ResultRow W) (rows : List (ResultRow W))
      → (r : Report W) × (generate_report np (some frontier) (row ∷ rows) ≡ some (reported r))
        × (sum_of (map (λ (e : String × PolicySummary W). e.1.n_results) r.per_policy)
            ≡ r.total_results)
        × (r.total_results ≡ length (row ∷ rows))
  unfolding generate_report
  generate_report_lem np frontier row rows =
      let all = row ∷ rows in
      let policies = unique_from [] (map policy_of all) in
      let r : Report W = record {
        total_results = length all;
        policies = policies;
        pareto_frontier_size = length frontier;
        pareto_frontier_policies = frontier;
        per_policy = map (λ p. (p, summarise np (rows_of p all))) policies;
      } in
      (
        r,
        refl,
        omega (
          arith,
          entries_total np all policies,
          sum_of-unique_from [] (map policy_of all),
          count_by-none (λ y. member y []) (map policy_of all) (none_seen (map policy_of all)),
          length-map policy_of all,
        ),
        refl,
      )
