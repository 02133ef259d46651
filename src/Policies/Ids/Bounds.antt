-- ===== src/Policies/Ids/Bounds.antt =====
-- The first `n` of the blocks, described without sorting: by how many blocks come before one.
use multie_layer_kache.Prelude.{
  ℕ, ◌+◌, ◌≤◌, ◌<◌, ◌≡◌, ap, inl, inr, Bool, true, false, not, List, arith, nat_key, take, drop,
  count_by, count_by-append, take-append-drop, length-take, All, Bool-cases,
}
use multie_layer_kache.Prelude.Members.{
  In, Distinct, member, In-take_or_drop, All-of_In, count_by-All, count_by-none, count_by-lt,
  length-drop-In,
}
use multie_layer_kache.Prelude.Sort.{
  IsOrder, sorted, sorted-In, sorted-IsSorted, count_by-sorted, IsSorted-take-drop,
}
use multie_layer_kache.Telemetry.Schema.{BlockState}
use multie_layer_kache.Policies.Ids.{ids, first_ids}
use multie_layer_kache.Policies.Ids.Ranking.{chosen, In→chosen}

-- An order is reflexive.
IsOrder-refl : {A : Type 0} {before : A → A → Bool} (o : IsOrder before) (x : A) → before x x ≡ true
IsOrder-refl {before = before} o x = elim (Bool-cases (before x x)) [
  | inl p ↦ p
  | inr p ↦ o.total x x p
]

module _ {W : Type 0} where
  module _ {before : BlockState W → BlockState W → Bool} (o : IsOrder before) (n : ℕ)
      (blocks : List (BlockState W)) (b : BlockState W) where
    split_count :
        (p : BlockState W → Bool)
        → count_by p blocks
          ≡ count_by p (take n (sorted before blocks)) + count_by p (drop n (sorted before blocks))
    split_count p =
        let s = sorted before blocks in
        omega (
          arith,
          count_by-sorted before p blocks,
          ap (count_by p) (take-append-drop n s),
          count_by-append p (take n s) (drop n s),
        )

    -- A block that is not among the first `n` has `n` blocks that come no later.
    pub first_ids-out :
        In b blocks
        → member b.block_id (first_ids before n blocks) ≡ false
        → n ≤ count_by (λ c. before c b) blocks
    first_ids-out m h =
        let s = sorted before blocks in
        elim (In-take_or_drop b n s (sorted-In before b blocks m)) [
          | inl early ↦ cc (In→chosen before n blocks b early)
          | inr late ↦
              let first : All (λ c. before c b ≡ true) (take n s) =
                All-of_In _ (take n s)
                  (λ c k. IsSorted-take-drop before n s c b (sorted-IsSorted o blocks) k late) in
              omega (
                arith,
                split_count (λ c. before c b),
                count_by-All (λ c. before c b) (take n s) first,
                length-take n s,
                length-drop-In n s b late,
              )
        ]

    -- A block that is among the first `n` has fewer than `n` blocks strictly before it.
    pub first_ids-In :
        Distinct (ids blocks)
        → In b blocks
        → member b.block_id (first_ids before n blocks) ≡ true
        → count_by (λ c. not (before b c)) blocks < n
    first_ids-In dist m h =
        let s = sorted before blocks in
        let early = chosen before n blocks b dist m h in
        let later : All (λ c. not (before b c) ≡ false) (drop n s) =
          All-of_In _ (drop n s) (λ c k.
            ap not (IsSorted-take-drop before n s b c (sorted-IsSorted o blocks) early k)) in
        omega (
          arith,
          split_count (λ c. not (before b c)),
          count_by-none (λ c. not (before b c)) (drop n s) later,
          count_by-lt (λ c. not (before b c)) (take n s) b early (ap not (IsOrder-refl o b)),
          length-take n s,
        )
