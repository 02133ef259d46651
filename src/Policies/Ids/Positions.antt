-- ===== src/Policies/Ids/Positions.antt =====
-- The position of a block in the context, which the code finds by sorting the ids: the number of
-- blocks with a smaller id. The sinks are the first positions, and the window is the last ones.
use mathlib.Core.Path.{subst}
use multie_layer_kache.Prelude.{
  ℕ, zero, suc, ◌+◌, ◌-◌, ◌<◌, ◌≡◌, ◌≢◌, ◌∙◌, sym, ap, ap₂, inl, inr, true, false, ◌||◌, List, [],
  ◌∷◌, arith, nat_key, leb, ltb, length, take, drop, count_by, Bool-cases,
}
use multie_layer_kache.Prelude.Members.{
  In, Distinct, member, In→member, member→In, member-append, In-map, In-map_inv, In-drop, All-In,
  All-of_In, count_by-none,
}
use multie_layer_kache.Prelude.Sort.{
  IsSorted, sorted, sorted-In, sorted-IsSorted, length-sorted, count_by-sorted, sorted-Distinct,
}
use multie_layer_kache.Telemetry.Schema.{BlockState}
use multie_layer_kache.Policies.Base.{PolicyConfig}
use multie_layer_kache.Policies.Ids.{ids, by_id, sink_ids, window_ids}
use multie_layer_kache.Policies.Ids.Ranking.{by_id-IsOrder}

member_absent : (i : ℕ) (xs : List ℕ) → (In i xs → ⊥) → member i xs ≡ false
member_absent i xs out = elim (Bool-cases (member i xs)) [
  | inl h ↦ absurd (out (member→In i xs h))
  | inr h ↦ h
]

leb-sub : (n w p : ℕ) → leb (n - w) p ≡ leb n (p + w)
leb-sub n w p = ground arith

module _ {W : Type 0} where
  -- the number of blocks before one in the context
  abbrev pub position : BlockState W → List (BlockState W) → ℕ
  position b blocks = count_by (λ c. ltb (BlockState.block_id c) b.block_id) blocks

  position_first :
      (x : BlockState W) (xs : List (BlockState W)) → IsSorted by_id (x ∷ xs) → position x xs ≡ 0
  position_first x xs (low, s) =
      count_by-none _ xs
        (All-of_In _ xs (λ c m. below x c (All-In (λ y. by_id x y ≡ true) xs c low m)))
    where
      below :
          (x c : BlockState W)
          → leb x.block_id c.block_id ≡ true
          → ltb c.block_id x.block_id ≡ false
      below x c h = ground arith

  -- in a strictly ascending list the head comes before the rest
  head_below :
      (x : BlockState W) (xs : List (BlockState W)) (b : BlockState W)
      → IsSorted by_id (x ∷ xs)
      → Distinct (ids (x ∷ xs))
      → In b xs
      → x.block_id < b.block_id
  head_below x xs b (low, s) (out, dist) m =
      let le = All-In (λ y. by_id x y ≡ true) xs b low m in
      let ne : x.block_id ≢ b.block_id =
        λ e. out (rw e (In-map (λ (c : BlockState W). c.block_id) b xs m)) in
      ground arith

  In-ids-drop : (i n : ℕ) (xs : List (BlockState W)) → In i (ids (drop n xs)) → In i (ids xs)
  In-ids-drop i n xs m =
      let (c, inside, same) = In-map_inv (λ (c : BlockState W). c.block_id) i (drop n xs) m in
      rw same (In-map (λ (c : BlockState W). c.block_id) c xs (In-drop c n xs inside))

  take_first :
      (n : ℕ) (x : BlockState W) (xs : List (BlockState W))
      → position x xs ≡ 0
      → member x.block_id (ids (take (suc n) (x ∷ xs))) ≡ ltb (position x (x ∷ xs)) (suc n)
  unfolding take
  take_first n x xs h = ground arith

  drop_first :
      (n : ℕ) (x : BlockState W) (xs : List (BlockState W))
      → (In x.block_id (ids xs) → ⊥)
      → position x xs ≡ 0
      → member x.block_id (ids (drop (suc n) (x ∷ xs))) ≡ leb (suc n) (position x (x ∷ xs))
  unfolding drop
  drop_first n x xs out h =
      member_absent x.block_id (ids (drop n xs)) (λ m. out (In-ids-drop x.block_id n xs m))
      ∙ ground arith

  member-take-position :
      (n : ℕ) (xs : List (BlockState W)) (b : BlockState W)
      → IsSorted by_id xs
      → Distinct (ids xs)
      → In b xs
      → member b.block_id (ids (take n xs)) ≡ ltb (position b xs) n
  unfolding take
  member-take-position zero xs b s dist m = ground arith
  member-take-position (suc n) [] b s dist m = elim m [ ]
  member-take-position (suc n) (x ∷ xs) b s dist (inl e) =
      subst
        (λ (z : BlockState W).
          member z.block_id (ids (take (suc n) (x ∷ xs))) ≡ ltb (position z (x ∷ xs)) (suc n))
        (sym e) (take_first n x xs (position_first x xs s))
  member-take-position (suc n) (x ∷ xs) b s dist (inr m) =
      let below = head_below x xs b s dist m in
      ground (arith, member-take-position n xs b s.1 dist.1 m)

  member-drop-position :
      (n : ℕ) (xs : List (BlockState W)) (b : BlockState W)
      → IsSorted by_id xs
      → Distinct (ids xs)
      → In b xs
      → member b.block_id (ids (drop n xs)) ≡ leb n (position b xs)
  unfolding drop
  member-drop-position zero xs b s dist m =
      In→member b.block_id (ids xs) (In-map (λ (c : BlockState W). c.block_id) b xs m)
      ∙ ground arith
  member-drop-position (suc n) [] b s dist m = elim m [ ]
  member-drop-position (suc n) (x ∷ xs) b s dist (inl e) =
      subst
        (λ (z : BlockState W).
          member z.block_id (ids (drop (suc n) (x ∷ xs))) ≡ leb (suc n) (position z (x ∷ xs)))
        (sym e) (drop_first n x xs dist.0 (position_first x xs s))
  member-drop-position (suc n) (x ∷ xs) b s dist (inr m) =
      let below = head_below x xs b s dist m in
      ground (arith, member-drop-position n xs b s.1 dist.1 m)

  module _ (c : PolicyConfig W) (blocks : List (BlockState W)) (b : BlockState W)
      (dist : Distinct (ids blocks)) (m : In b blocks) where
    ascending : IsSorted by_id (sorted by_id blocks)
    ascending = sorted-IsSorted by_id-IsOrder blocks

    distinct : Distinct (ids (sorted by_id blocks))
    distinct = sorted-Distinct by_id (λ (x : BlockState W). x.block_id) blocks dist

    inside : In b (sorted by_id blocks)
    inside = sorted-In by_id b blocks m

    position-sorted : position b (sorted by_id blocks) ≡ position b blocks
    position-sorted = count_by-sorted by_id _ blocks

    -- A block is a sink exactly if its position is below the number of sinks.
    pub member-sink_ids :
        member b.block_id (sink_ids c blocks) ≡ ltb (position b blocks) c.sink_token_blocks
    unfolding sink_ids
    member-sink_ids =
        member-take-position c.sink_token_blocks (sorted by_id blocks) b ascending distinct inside
        ∙ ap (λ n. ltb n c.sink_token_blocks) position-sorted

    -- A block is kept by the window exactly if it is a sink or fewer than `sliding_window_blocks`
    -- blocks stand behind it.
    pub member-window_ids : member b.block_id (window_ids c blocks) ≡ (
        ltb (position b blocks) c.sink_token_blocks
        || leb (length blocks) (position b blocks + c.sliding_window_blocks))
    unfolding window_ids
    member-window_ids =
        let sorted_by_id = sorted by_id blocks in
        member-append b.block_id (ids (take c.sink_token_blocks sorted_by_id))
          (ids (drop (length sorted_by_id - c.sliding_window_blocks) sorted_by_id))
        ∙ ap₂ ◌||◌
            (member-take-position c.sink_token_blocks sorted_by_id b ascending distinct inside
              ∙ ap (λ n. ltb n c.sink_token_blocks) position-sorted)
            (member-drop-position (length sorted_by_id - c.sliding_window_blocks) sorted_by_id b
                ascending distinct inside
              ∙ ap₂ (λ n p. leb (n - c.sliding_window_blocks) p) (length-sorted by_id blocks)
                  position-sorted
              ∙ leb-sub (length blocks) c.sliding_window_blocks (position b blocks))
