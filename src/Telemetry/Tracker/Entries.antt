-- ===== src/Telemetry/Tracker/Entries.antt =====
-- The dictionary behind `BlockTracker`: the loops of `release_request_blocks` and `increment_age`,
-- key by key.
use mathlib.Core.Option
use multie_layer_kache.Prelude.{
  ℕ, ◌+◌, String, ◌≡◌, ◌∙◌, refl, ap, inl, inr, false, Option, none, some, List, [], ◌∷◌, map,
  arith, not, ◌==◌, nat_key, string_key, nat_equal_iff, if◌then◌else◌, Bool-cases, equal-true,
  filter_by, length,
}
use multie_layer_kache.Prelude.Dict
use multie_layer_kache.Prelude.Dict.{Dict, get-remove, get_absent, remove_absent, remove_self}
use multie_layer_kache.Prelude.Members.{In, Distinct, member}
use multie_layer_kache.Telemetry.Schema.{BlockState}
use multie_layer_kache.Telemetry.Tracker.{stale_ids, pop_all, aged}

abbrev pub aged_block : {W : Type 0} → ℕ → BlockState W → BlockState W
aged_block step b = record b { block_age_steps = step }

-- What a release of the request `r` leaves under a key.
abbrev pub unreleased : {W : Type 0} → String → Option (BlockState W) → Option (BlockState W)
unreleased r none = none
unreleased r (some b) = if b.request_id == r then none else some b

abbrev pub Blocks : Type 0 → Type 0
Blocks W = Dict ℕ (BlockState W)

module _ {W : Type 0} where
  pub get-pop_all :
      (ids : List ℕ) (blocks : Blocks W) (j : ℕ)
      → Dict.get j (pop_all ids blocks) ≡ (if member j ids then none else Dict.get j blocks)
  unfolding pop_all
  get-pop_all [] blocks j = refl
  get-pop_all (bid ∷ ids) blocks j =
      ground (arith, get-pop_all ids (Dict.remove bid blocks) j, get-remove bid j blocks)

  pub get-aged :
      (step : ℕ) (blocks : Blocks W) (j : ℕ)
      → Dict.get j (map (aged step) blocks) ≡ Option.map (aged_block step) (Dict.get j blocks)
  unfolding Dict.get
  get-aged step [] j = refl
  get-aged step ((i, b) ∷ blocks) j = ground (arith, get-aged step blocks j)

  pub keys-aged :
      (step : ℕ) (blocks : Blocks W) → Dict.keys (map (aged step) blocks) ≡ Dict.keys blocks
  keys-aged step [] = refl
  keys-aged step ((i, b) ∷ blocks) = ap (◌∷◌ i) (keys-aged step blocks)

  -- A key that is not popped keeps its place at the front.
  pop_all_other :
      (ids : List ℕ) (i : ℕ) (b : BlockState W) (blocks : Blocks W)
      → member i ids ≡ false
      → pop_all ids ((i, b) ∷ blocks) ≡ (i, b) ∷ pop_all ids blocks
  unfolding pop_all Dict.remove
  pop_all_other [] i b blocks h = refl
  pop_all_other (bid ∷ ids) i b blocks h =
      ground (arith, pop_all_other ids i b (Dict.remove bid blocks), nat_equal_iff i bid)

  member-stale_absent :
      (r : String) (blocks : Blocks W) (i : ℕ)
      → (In i (Dict.keys blocks) → ⊥)
      → member i (stale_ids r blocks) ≡ false
  unfolding stale_ids
  member-stale_absent r [] i out = refl
  member-stale_absent r ((k, b) ∷ blocks) i out =
      ground (arith, member-stale_absent r blocks i (λ m. out (inr m)), λ (p : i ≡ k). out (inl p))

  pop_all_self :
      (ids : List ℕ) (i : ℕ) (b : BlockState W) (blocks : Blocks W)
      → (In i (Dict.keys blocks) → ⊥)
      → pop_all (i ∷ ids) ((i, b) ∷ blocks) ≡ pop_all ids blocks
  unfolding pop_all
  pop_all_self ids i b blocks out =
      ap (pop_all ids) (remove_self i b blocks ∙ remove_absent i blocks (get_absent i blocks out))

  -- What a release leaves: the other requests' blocks, in their order.
  pub pop_all-stale :
      (r : String) (blocks : Blocks W)
      → Distinct (Dict.keys blocks)
      → pop_all (stale_ids r blocks) blocks
        ≡ filter_by (λ e. not (BlockState.request_id e.1 == r)) blocks
  unfolding stale_ids
  pop_all-stale r [] h = unfold pop_all in refl
  pop_all-stale r ((i, b) ∷ blocks) (out, h) = elim (Bool-cases (b.request_id == r)) [
    | inl same ↦
        rw same (pop_all_self (stale_ids r blocks) i b blocks out ∙ pop_all-stale r blocks h)
    | inr other ↦ rw other (
        pop_all_other (stale_ids r blocks) i b blocks (member-stale_absent r blocks i out)
        ∙ ap (◌∷◌ (i, b)) (pop_all-stale r blocks h))
  ]

  -- The number that a release returns is the number of blocks that are gone.
  pub length-pop_all-stale :
      (r : String) (blocks : Blocks W)
      → length (filter_by (λ e. not (BlockState.request_id e.1 == r)) blocks)
          + length (stale_ids r blocks)
        ≡ length blocks
  unfolding stale_ids
  length-pop_all-stale r [] = refl
  length-pop_all-stale r ((i, b) ∷ blocks) = ground (arith, length-pop_all-stale r blocks)

  pub get-filter_by :
      (r : String) (blocks : Blocks W) (j : ℕ)
      → Distinct (Dict.keys blocks)
      → Dict.get j (filter_by (λ e. not (BlockState.request_id e.1 == r)) blocks)
        ≡ unreleased r (Dict.get j blocks)
  unfolding Dict.get
  get-filter_by r [] j h = refl
  get-filter_by r ((i, b) ∷ blocks) j (out, h) = elim (Bool-cases (i == j)) [
    | inl same ↦
        let absent : Dict.get j blocks ≡ none =
          rw (← equal-true i j same) (get_absent i blocks out) in
        ground (arith, get-filter_by r blocks j h)
    | inr other ↦ ground (arith, get-filter_by r blocks j h)
  ]

  pub values-filter_by :
      (r : String) (blocks : Blocks W)
      → Dict.values (filter_by (λ e. not (BlockState.request_id e.1 == r)) blocks)
        ≡ filter_by (λ b. not (BlockState.request_id b == r)) (Dict.values blocks)
  values-filter_by r [] = refl
  values-filter_by r ((i, b) ∷ blocks) = elim (Bool-cases (b.request_id == r)) [
    | inl same ↦ rw same (values-filter_by r blocks)
    | inr other ↦ rw other (ap (◌∷◌ b) (values-filter_by r blocks))
  ]
