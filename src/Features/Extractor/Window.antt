-- ===== src/Features/Extractor/Window.antt =====
-- How many blocks count as recent, and what the batch statistics bound.
use multie_layer_kache.Prelude.{
  ℕ, zero, suc, ◌≤◌, String, Option, none, some, ◌==◌, string_key, if◌then◌else◌, List, [], ◌∷◌,
  map, arith, max, inl, inr,
}
use multie_layer_kache.Prelude.Members.{In, In-map}
use multie_layer_kache.Prelude.Floats.{Double}
use multie_layer_kache.Telemetry.Schema.{BlockState}
use multie_layer_kache.Features.Extractor.{Maths, compute_batch_stats, max_of}

-- the ids from `n` - 1 down to 0
abbrev pub ids_below : ℕ → List ℕ
ids_below zero = []
ids_below (suc n) = n ∷ ids_below n

-- the entry of a row that stands at the place of a name
abbrev pub feature_of : {W : Type 0} → String → List String → List W → Option W
feature_of name (n ∷ names) (x ∷ row) = if n == name then some x else feature_of name names row
feature_of name [] row = none
feature_of name (n ∷ names) [] = none

max_of-le : (m : ℕ) (ns : List ℕ) → m ≤ max_of m ns
max_of-le m [] = omega arith
max_of-le m (n ∷ ns) = omega (arith, max_of-le (max m n) ns)

max_of-In : (m n : ℕ) (ns : List ℕ) → In n ns → n ≤ max_of m ns
max_of-In m n [] k = elim k [ ]
max_of-In m n (x ∷ ns) (inl e) = omega (arith, e, max_of-le (max m x) ns)
max_of-In m n (x ∷ ns) (inr k) = max_of-In (max m x) n ns k

max_of-In-map :
    {A : Type 0} (f : A → ℕ) (x : A) (xs : List A) (a : A)
    → In a (x ∷ xs)
    → f a ≤ max_of (f x) (map f xs)
max_of-In-map f x xs a (inl e) = rw e (max_of-le (f x) (map f xs))
max_of-In-map f x xs a (inr k) = max_of-In (f x) (f a) (map f xs) (In-map f a xs k)

module _ {W : Type 0} ⦃d : Double W⦄ where
  -- For each block of a batch the age, the last step and the id are at most the maximum by which its
  -- features are normalised.
  compute_batch_stats-bounds :
      (np : Maths W) (blocks : List (BlockState W)) (b : BlockState W)
      → In b blocks
      → let stats = compute_batch_stats np blocks in
        (b.block_age_steps ≤ stats.max_age)
        × (b.last_access_step ≤ stats.max_step)
        × (b.block_id ≤ stats.max_block_id)
  unfolding compute_batch_stats
  compute_batch_stats-bounds np [] b k = elim k [ ]
  compute_batch_stats-bounds np (x ∷ blocks) b k = (
    max_of-In-map (λ (c : BlockState W). c.block_age_steps) x blocks b k,
    max_of-In-map (λ (c : BlockState W). c.last_access_step) x blocks b k,
    max_of-In-map (λ (c : BlockState W). c.block_id) x blocks b k,
  )
