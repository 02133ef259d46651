-- ===== src/Policies/Ids/Ranking.antt =====
-- What it means to be among the first `n` of the blocks, when no two have the same id.
use multie_layer_kache.Prelude.{
  ℕ, ◌≡◌, refl, ap, inl, inr, Bool, true, false, List, arith, nat_key, length, take, count_by, min,
  Bool-cases, length-take, drop, take-append-drop, count_by-append,
}
use multie_layer_kache.Prelude.Members.{
  In, Distinct, member, member→In, In→member, In-map, In-map_inv, In-take, In-drop, In-take_or_drop,
  key_injective, Distinct-take-drop, All-of_In, count_by-All, count_by-none,
}
use multie_layer_kache.Prelude.Sort.{
  IsOrder, sorted, In-sorted, sorted-In, sorted-IsSorted, length-sorted, IsSorted-take-drop,
  count_by-sorted, sorted-Distinct,
}
use multie_layer_kache.Telemetry.Schema.{BlockState}
use multie_layer_kache.Policies.Ids.{ids, by_id, by_last_access, first_ids}

module _ {W : Type 0} where
  -- Python compares ids and steps as integers.
  pub by_id-IsOrder : IsOrder (by_id {W = W})
  by_id-IsOrder = record { total = λ x y h. ground arith; trans = λ x y z h k. ground arith }

  pub by_last_access-IsOrder : IsOrder (by_last_access {W = W})
  by_last_access-IsOrder = record {
    total = λ x y h. ground arith;
    trans = λ x y z h k. ground arith;
  }

  module _ (before : BlockState W → BlockState W → Bool) (n : ℕ)
      (blocks : List (BlockState W)) where
    -- With distinct ids, a block whose id is among the chosen is chosen.
    pub chosen :
        (b : BlockState W)
        → Distinct (ids blocks)
        → In b blocks
        → member b.block_id (first_ids before n blocks) ≡ true
        → In b (take n (sorted before blocks))
    unfolding first_ids
    chosen b dist m h =
        let top = take n (sorted before blocks) in
        let (b', inside, same) =
          In-map_inv (λ (x : BlockState W). x.block_id) b.block_id top
            (member→In b.block_id (ids top) h) in
        let outside = In-sorted before b' blocks (In-take b' n (sorted before blocks) inside) in
        rw (key_injective (λ (x : BlockState W). x.block_id) blocks b b' dist m outside same) inside

    pub In→chosen :
        (b : BlockState W)
        → In b (take n (sorted before blocks))
        → member b.block_id (first_ids before n blocks) ≡ true
    unfolding first_ids
    In→chosen b m =
        let top = take n (sorted before blocks) in
        In→member b.block_id (ids top) (In-map (λ (x : BlockState W). x.block_id) b top m)

    -- A block that is chosen comes no later in the order than one that is not.
    pub first_ids-before :
        (o : IsOrder before) (b c : BlockState W)
        → Distinct (ids blocks)
        → In b blocks
        → In c blocks
        → member b.block_id (first_ids before n blocks) ≡ true
        → member c.block_id (first_ids before n blocks) ≡ false
        → before b c ≡ true
    first_ids-before o b c dist mb mc hb hc =
        elim (In-take_or_drop c n (sorted before blocks) (sorted-In before c blocks mc)) [
          | inl early ↦ cc (In→chosen c early)
          | inr late ↦
              IsSorted-take-drop before n (sorted before blocks) b c (sorted-IsSorted o blocks)
                (chosen b dist mb hb) late
        ]

    not_chosen :
        (c : BlockState W)
        → Distinct (ids blocks)
        → In c (drop n (sorted before blocks))
        → member c.block_id (first_ids before n blocks) ≡ false
    not_chosen c dist m = elim (Bool-cases (member c.block_id (first_ids before n blocks))) [
      | inl h ↦ absurd (
          Distinct-take-drop (λ (x : BlockState W). x.block_id) n (sorted before blocks) c c
            (sorted-Distinct before (λ (x : BlockState W). x.block_id) blocks dist)
            (chosen c dist (In-sorted before c blocks (In-drop c n (sorted before blocks) m)) h) m
            refl)
      | inr h ↦ h
    ]

    -- Exactly `n` blocks are chosen, or all where there are fewer.
    pub count_by-first_ids :
        Distinct (ids blocks)
        → count_by (λ b. member (BlockState.block_id b) (first_ids before n blocks)) blocks
          ≡ min n (length blocks)
    count_by-first_ids dist =
        let p : BlockState W → Bool = λ b. member b.block_id (first_ids before n blocks) in
        let s = sorted before blocks in
        omega (
          arith,
          count_by-sorted before p blocks,
          length-sorted before blocks,
          length-take n s,
          ap (count_by p) (take-append-drop n s),
          count_by-append p (take n s) (drop n s),
          count_by-All p (take n s) (All-of_In _ (take n s) In→chosen),
          count_by-none p (drop n s) (All-of_In _ (drop n s) (λ c m. not_chosen c dist m)),
        )
