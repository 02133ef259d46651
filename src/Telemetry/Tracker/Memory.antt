-- ===== src/Telemetry/Tracker/Memory.antt =====
-- `get_memory_stats`: the counting loop against the tracker's own queries.
use multie_layer_kache.Prelude.{
  ℕ, ◌+◌, ◌*◌, ◌^◌, String, ◌≡◌, ◌∙◌, refl, sym, ap, some, List, [], ◌∷◌, arith, ◌==◌, string_key,
  if◌then◌else◌, length, count_by, length-filter_by, length-map,
}
use multie_layer_kache.Prelude.Dict
use multie_layer_kache.Prelude.Dict.{Dict, get-modify}
use multie_layer_kache.Prelude.Floats.{Double}
use multie_layer_kache.Telemetry.Schema.{
  BlockState, BlockTier, gpu_fp16, gpu_quantized, cpu_offloaded, evicted, tier_value, tier_eq,
}
use multie_layer_kache.Telemetry.Tracker.{
  Tracker, count_tiers, zero_counts, counted, get_memory_stats, get_blocks_by_tier, size,
}

tier_value-eq : (u t : BlockTier) → (tier_value u == tier_value t) ≡ tier_eq u t
unfolding tier_value
tier_value-eq gpu_fp16 gpu_fp16 = refl
tier_value-eq gpu_quantized gpu_quantized = refl
tier_value-eq cpu_offloaded cpu_offloaded = refl
tier_value-eq evicted evicted = refl
tier_value-eq _ _ = refl

-- every tier has a zero to start from
get-zero_counts : (tier : BlockTier) → Dict.get (tier_value tier) zero_counts ≡ some 0
unfolding Dict.get tier_value
get-zero_counts gpu_fp16 = refl
get-zero_counts _ = refl

-- one round of the loop, at the count of one tier
get-bump :
    (u tier : BlockTier) (counts : Dict String ℕ) (n : ℕ)
    → Dict.get (tier_value tier) counts ≡ some n
    → Dict.get (tier_value tier) (Dict.modify (tier_value u) (λ m. m + 1) counts)
      ≡ some (n + (if tier_eq u tier then 1 else 0))
get-bump u tier counts n h =
    get-modify (tier_value u) (tier_value tier) (λ m. m + 1) counts
    ∙ rw (tier_value-eq u tier, h) (ground arith)

module _ {W : Type 0} where
  abbrev in_tier : BlockTier → List (BlockState W) → ℕ
  in_tier tier bs = count_by (λ b. tier_eq (BlockState.current_tier b) tier) bs

  get-count_tiers :
      (tier : BlockTier) (bs : List (BlockState W)) (counts : Dict String ℕ) (n : ℕ)
      → Dict.get (tier_value tier) counts ≡ some n
      → Dict.get (tier_value tier) (count_tiers bs counts) ≡ some (n + in_tier tier bs)
  unfolding count_tiers
  get-count_tiers tier [] counts n h = h ∙ ap some (omega arith)
  get-count_tiers tier (b ∷ bs) counts n h =
      get-count_tiers tier bs (Dict.modify (tier_value b.current_tier) (λ m. m + 1) counts)
        (n + (if tier_eq b.current_tier tier then 1 else 0))
        (get-bump b.current_tier tier counts n h)
      ∙ ap some (omega arith)

  counted-tier :
      (tier : BlockTier) (bs : List (BlockState W))
      → counted (tier_value tier) (count_tiers bs zero_counts) ≡ in_tier tier bs
  counted-tier tier bs =
      rw (get-count_tiers tier bs zero_counts 0 (get-zero_counts tier), counted) (omega arith)

  in_tier-total :
      (bs : List (BlockState W))
      → in_tier gpu_fp16 bs
          + in_tier gpu_quantized bs
          + in_tier cpu_offloaded bs
          + in_tier evicted bs
        ≡ length bs
  in_tier-total [] = refl
  in_tier-total (b ∷ bs) = ground (arith, in_tier-total bs)

module _ {W : Type 0} (t : Tracker W) where
  per_tier :
      (tier : BlockTier)
      → counted (tier_value tier) (count_tiers (Dict.values t.blocks) zero_counts)
        ≡ length (get_blocks_by_tier t tier)
  unfolding get_blocks_by_tier
  per_tier tier = counted-tier tier (Dict.values t.blocks) ∙ sym (length-filter_by _ _)

  per_tier_total :
      length (get_blocks_by_tier t gpu_fp16)
        + length (get_blocks_by_tier t gpu_quantized)
        + length (get_blocks_by_tier t cpu_offloaded)
        + length (get_blocks_by_tier t evicted)
      ≡ size t
  unfolding get_blocks_by_tier size
  per_tier_total = omega (
    arith,
    length-filter_by (λ (b : BlockState W). tier_eq b.current_tier gpu_fp16) (Dict.values t.blocks),
    length-filter_by (λ (b : BlockState W). tier_eq b.current_tier gpu_quantized)
        (Dict.values t.blocks),
    length-filter_by (λ (b : BlockState W). tier_eq b.current_tier cpu_offloaded)
        (Dict.values t.blocks),
    length-filter_by (λ (b : BlockState W). tier_eq b.current_tier evicted) (Dict.values t.blocks),
    in_tier-total (Dict.values t.blocks),
    length-map (λ (e : ℕ × BlockState W). e.1) t.blocks,
  )

-- The dictionary of `get_memory_stats` holds, for each tier, the number of blocks that
-- `get_blocks_by_tier` returns; the four numbers add up to `total_blocks`, which is the number of
-- tracked blocks; and the two estimates are these numbers weighted by the bytes of a block.
pub get_memory_stats_lem :
    {W : Type 0} ⦃d : Double W⦄ (t : Tracker W)
    → let m = get_memory_stats t in
      let n : BlockTier → ℕ = λ tier. length (get_blocks_by_tier t tier) in
      ((tier : BlockTier) → counted (tier_value tier) m.blocks_per_tier ≡ n tier)
      × (m.total_blocks ≡ size t)
      × (n gpu_fp16 + n gpu_quantized + n cpu_offloaded + n evicted ≡ size t)
      × (m.estimated_gpu_mb
          ≡ d.div
              (d.of_int (n gpu_fp16 * t.block_bytes_fp16 + n gpu_quantized * t.block_bytes_int8))
              (d.of_int (1024 ^ 2)))
      × (m.estimated_cpu_mb
          ≡ d.div (d.of_int (n cpu_offloaded * t.block_bytes_fp16)) (d.of_int (1024 ^ 2)))
unfolding get_memory_stats
get_memory_stats_lem ⦃d⦄ t = (
  per_tier t,
  unfold size in length-map (λ (e : ℕ × BlockState _). e.1) t.blocks,
  per_tier_total t,
  λ i.
      d.div
        (d.of_int (
          per_tier t gpu_fp16 i * t.block_bytes_fp16
          + per_tier t gpu_quantized i * t.block_bytes_int8))
        (d.of_int (1024 ^ 2)),
  λ i. d.div (d.of_int (per_tier t cpu_offloaded i * t.block_bytes_fp16)) (d.of_int (1024 ^ 2)),
)
