-- ===== src/Policies/Hybrid/Pressure.antt =====
-- What the hybrid policy keeps under pressure, and its ring of pressures.
use multie_layer_kache.Prelude.{
  ℕ, ◌+◌, ◌≤◌, ◌<◌, ◌≡◌, ◌∙◌, refl, ap, inl, inr, true, Option, some, List, [], ◌∷◌, ◌++◌, map,
  arith, nat_key, ltb, length, length-append, length-last_n, length-map-take-le, zip, map-zip_left,
  count_by, count_by-map, count_by-cong, Bool-cases, min, either_branch,
}
use multie_layer_kache.Prelude.Floats.{Double}
use multie_layer_kache.Prelude.Sort.{sorted}
use multie_layer_kache.Prelude.Members.{In, Distinct, member, member-append, count_members-le}
use multie_layer_kache.Telemetry.Schema.{BlockState, keep_gpu, decision_eq}
use multie_layer_kache.Policies.Base.{PolicyConfig, PolicyDecision, SystemMetrics, keep_all}
use multie_layer_kache.Policies.Base.Answers.{decision_for, decision_for-map}
use multie_layer_kache.Policies.Ids.{ids, by_id, sink_ids, first_ids, at_least_one}
use multie_layer_kache.Policies.Ids.Positions.{position, member-sink_ids}
use multie_layer_kache.Policies.Heuristic.Contract.{scored_id}
use multie_layer_kache.Policies.Hybrid.{
  Scorer, score_all, medium_verdict, medium_pressure, high_verdict, high_pressure, hitter_ids,
  hybrid_decisions, note_pressure, by_score_falling,
}
use multie_layer_kache.Policies.Hybrid.Contract.{AreAligned, length-score_all}

module _ {A B : Type 0} where
  -- Every element of the left list is paired.
  In-zip :
      (a : A) (xs : List A) (ys : List B)
      → length ys ≡ length xs
      → In a xs
      → (b : B) × In (a, b) (zip xs ys)
  unfolding zip
  In-zip a [] ys h m = elim m [ ]
  In-zip a (x ∷ xs) [] h m = absurd (omega arith)
  In-zip a (x ∷ xs) (y ∷ ys) h (inl e) = (y, inl (ap (λ z. (z, y)) e))
  In-zip a (x ∷ xs) (y ∷ ys) h (inr m) =
      let (b, inside) = In-zip a xs ys (omega arith) m in (b, inr inside)

module _ {W : Type 0} ⦃d : Double W⦄ (c : PolicyConfig W) (learned : Option (Scorer W))
    (pressure : W) (m : SystemMetrics W) (blocks : List (BlockState W))
    (aligned : AreAligned learned) (dist : Distinct (ids blocks)) where
  scores : List W
  scores = score_all c learned m blocks

  scored : List (BlockState W × W)
  unfolding scores
  scored = zip blocks scores

  scored_keys : map scored_id scored ≡ ids blocks
  unfolding scored
  scored_keys =
      map-zip_left (λ (b : BlockState W). b.block_id) blocks scores
        (length-score_all c m learned blocks aligned)

  -- a verdict on the scored blocks that keeps the sinks
  sink_kept :
      (v : BlockState W × W → PolicyDecision W) (b : BlockState W)
      → ((e : BlockState W × W) → (v e).block_id ≡ scored_id e)
      → ((e : BlockState W × W)
          → member (scored_id e) (sink_ids c blocks) ≡ true
          → (v e).decision ≡ keep_gpu)
      → In b blocks
      → member b.block_id (sink_ids c blocks) ≡ true
      → decision_for b.block_id (map v scored) ≡ some keep_gpu
  unfolding scored
  sink_kept v b same kept inside sink =
      let (s, paired) =
        In-zip b blocks scores (length-score_all c m learned blocks aligned) inside in
      decision_for-map scored_id v scored (b, s) same (rw scored_keys dist) paired
      ∙ ap some (kept (b, s) sink)

  keep_all_kept :
      (b : BlockState W) → In b blocks → decision_for b.block_id (keep_all blocks) ≡ some keep_gpu
  unfolding keep_all
  keep_all_kept b inside =
      decision_for-map (λ (x : BlockState W). x.block_id) _ blocks b (λ x. refl) dist inside

  medium_kept :
      (b : BlockState W)
      → In b blocks
      → member b.block_id (sink_ids c blocks) ≡ true
      → decision_for b.block_id (medium_pressure c learned m blocks) ≡ some keep_gpu
  unfolding medium_pressure scored scores medium_verdict
  medium_kept b inside sink =
      sink_kept (medium_verdict c (sink_ids c blocks)) b (λ e. ground arith) (λ e h. ground arith)
        inside sink

  high_kept :
      (b : BlockState W)
      → In b blocks
      → member b.block_id (sink_ids c blocks) ≡ true
      → decision_for b.block_id (high_pressure c learned m blocks) ≡ some keep_gpu
  unfolding high_pressure scored scores high_verdict
  high_kept b inside sink =
      sink_kept
        (high_verdict c (sink_ids c blocks) (hitter_ids c blocks (score_all c learned m blocks))) b
        (λ e. ground arith) (λ e h. ground arith) inside sink

  -- At every pressure, given a learned policy (if any) with one score for each block and blocks with
  -- distinct ids: a block at one of the first `sink_token_blocks` positions is kept on the GPU.
  pub hybrid_keeps_sinks :
      (b : BlockState W)
      → In b blocks
      → position b blocks < c.sink_token_blocks
      → decision_for b.block_id (hybrid_decisions c learned pressure m blocks) ≡ some keep_gpu
  unfolding hybrid_decisions
  hybrid_keeps_sinks b inside early =
      let sink : member b.block_id (sink_ids c blocks) ≡ true =
        member-sink_ids c blocks b dist inside ∙ ground arith in
      let Keeps : List (PolicyDecision W) → Type 0 =
        λ out. decision_for b.block_id out ≡ some keep_gpu in
      either_branch Keeps (d.lt pressure c.memory_pressure_low) _ _ (keep_all_kept b inside) (
        either_branch Keeps (d.lt pressure c.memory_pressure_high) _ _ (medium_kept b inside sink)
          (high_kept b inside sink))

  kept_ids : List ℕ
  kept_ids = sink_ids c blocks ++ hitter_ids c blocks (score_all c learned m blocks)

  length-kept_ids :
      length kept_ids ≤ c.sink_token_blocks + at_least_one (length blocks) c.heavy_hitter_fraction
  unfolding kept_ids sink_ids hitter_ids first_ids
  length-kept_ids =
      let n = at_least_one (length blocks) c.heavy_hitter_fraction in
      let ranked = sorted by_score_falling (zip blocks (score_all c learned m blocks)) in
      omega (
        arith,
        length-append (sink_ids c blocks) (hitter_ids c blocks (score_all c learned m blocks)),
        length-map-take-le c.sink_token_blocks (λ (b : BlockState W). b.block_id)
            (sorted by_id blocks),
        length-map-take-le n (λ (e : BlockState W × W). BlockState.block_id e.0) ranked,
      )

  -- at high pressure a block is kept exactly if it is a sink or a heavy hitter
  kept_exactly :
      (sinks hitters : List ℕ) (e : BlockState W × W)
      → decision_eq (high_verdict c sinks hitters e).decision keep_gpu
        ≡ member (scored_id e) (sinks ++ hitters)
  unfolding high_verdict
  kept_exactly sinks hitters e = ground (arith, member-append (scored_id e) sinks hitters)

  -- At high pressure, given a learned policy (if any) with one score for each block and blocks with
  -- distinct ids: no more blocks stay on the GPU at full precision than there may be sinks and heavy
  -- hitters.
  pub high_pressure_bound :
      count_by
        (λ x. decision_eq (PolicyDecision.decision x) keep_gpu)
        (high_pressure c learned m blocks)
      ≤ c.sink_token_blocks + at_least_one (length blocks) c.heavy_hitter_fraction
  unfolding high_pressure kept_ids scored scores
  high_pressure_bound =
      let hitters = hitter_ids c blocks (score_all c learned m blocks) in
      let verdict = high_verdict c (sink_ids c blocks) hitters in
      let scored_pairs = zip blocks (score_all c learned m blocks) in
      omega (
        arith,
        count_by-map (λ (x : PolicyDecision W). decision_eq x.decision keep_gpu) verdict
            scored_pairs,
        count_by-cong (λ (e : BlockState W × W). decision_eq (verdict e).decision keep_gpu)
            (λ (e : BlockState W × W). member (scored_id e) kept_ids) scored_pairs
            (kept_exactly (sink_ids c blocks) hitters),
        count_members-le scored_id kept_ids scored_pairs (rw scored_keys dist),
        length-kept_ids,
      )

-- The ring of pressures never holds more than 1000 values, and its last one is the newest.
pub note_pressure_bound :
    {W : Type 0} (pressure : W) (history : List W)
    → length history ≤ 1000
    → length (note_pressure pressure history) ≡ min 1000 (length history + 1)
unfolding note_pressure
note_pressure_bound pressure history h =
    let longer = history ++ pressure ∷ [] in
    elim (Bool-cases (ltb 1000 (length longer))) [
      | inl over ↦
          rw over (omega (arith, length-last_n 999 longer, length-append history (pressure ∷ [])))
      | inr fits ↦ rw fits (ground (arith, length-append history (pressure ∷ [])))
    ]
