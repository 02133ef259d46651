-- ===== src/Features/Importance/Range.antt =====
-- The scores of a batch.
use multie_layer_kache.Prelude.{
  ℕ, zero, suc, ◌+◌, ◌≤◌, ◌<◌, ◌≡◌, refl, subst, true, ◌⊎◌, inl, inr, Option, none, some, List, [],
  ◌∷◌, arith, length, All,
}
use multie_layer_kache.Prelude.Floats.{Double, IsOrdered, nought, one}
use multie_layer_kache.Telemetry.Schema.{BlockState}
use multie_layer_kache.Features.Importance.{
  ImportanceScorer, Signals, clip, score_block, nth, given_at, signals, score_from, score_batch,
}

module _ {W : Type 0} ⦃d : Double W⦄ where
  abbrev pub InRange : W → Type 0
  InRange x = (d.le nought x ≡ true) × (d.le x one ≡ true)

  Answered : ℕ → Option (List W) → Type 0
  Answered n answer =
      (scores : List W) × (answer ≡ some scores) × (length scores ≡ n) × All InRange scores

-- The list gives a value for every block up to an index: it is empty, which stands for no list, or it is
-- as long.
abbrev pub Covers : {A : Type 0} → ℕ → List A → Type 0
Covers n l = (length l ≡ 0) ⊎ (n ≤ length l)

nth-some : {A : Type 0} (l : List A) (i : ℕ) → i < length l → (x : Option A) × (nth l i ≡ some x)
nth-some [] i h = absurd (omega arith)
nth-some (x ∷ l) zero h = (some x, refl)
nth-some (x ∷ l) (suc i) h = nth-some l i (omega arith)

given_at-some :
    {A : Type 0} (l : List A) (i n : ℕ)
    → Covers n l
    → i < n
    → (x : Option A) × (given_at l i ≡ some x)
given_at-some [] i n c h = (none, refl)
given_at-some (x ∷ l) i n (inl e) h = absurd (omega arith)
given_at-some (x ∷ l) i n (inr k) h = nth-some (x ∷ l) i (omega arith)

module _ {W : Type 0} ⦃d : Double W⦄ (o : IsOrdered d)
    (unit : d.le (d.lit 0 0) (d.lit 1 0) ≡ true) where
  clip-InRange : (x : W) → InRange (clip x)
  clip-InRange x = (
    ground (arith, unit, o.lt-not-le x nought, o.le_refl nought),
    ground (arith, unit, o.lt-not-le one x, o.le_refl one),
  )

  score_block-InRange :
      (s : ImportanceScorer W) (b : BlockState W) (given : Signals W)
      → InRange (score_block s b given)
  unfolding score_block
  score_block-InRange s b given = clip-InRange _

module _ {W : Type 0} ⦃d : Double W⦄ (o : IsOrdered d) (unit : d.le (d.lit 0 0) (d.lit 1 0) ≡ true)
    (single : W → W) (monotone : (x y : W) → d.le x y ≡ true → d.le (single x) (single y) ≡ true)
    (exact_nought : single (d.lit 0 0) ≡ d.lit 0 0)
    (exact_one : single (d.lit 1 0) ≡ d.lit 1 0) where
  single-InRange : (x : W) → InRange x → InRange (single x)
  single-InRange x (low, high) = (
    subst (λ z. d.le z (single x) ≡ true) exact_nought (monotone nought x low),
    subst (λ z. d.le (single x) z ≡ true) exact_one (monotone x one high),
  )

  score_from-Answered :
      (s : ImportanceScorer W) (fa rp : List W) (i : ℕ) (blocks : List (BlockState W))
      → Covers (i + length blocks) fa
      → Covers (i + length blocks) rp
      → Answered (length blocks) (score_from single s fa rp i blocks)
  unfolding score_from Answered
  score_from-Answered s fa rp i [] h k = ([], refl, refl, tt)
  score_from-Answered s fa rp i (b ∷ blocks) h k =
      let (fa_i, e) = given_at-some fa i (i + length (b ∷ blocks)) h (omega arith) in
      let (rp_i, f) = given_at-some rp i (i + length (b ∷ blocks)) k (omega arith) in
      let (scores, g, n, all) =
        score_from-Answered s fa rp (suc i) blocks (subst (λ m. Covers m fa) (omega arith) h)
          (subst (λ m. Covers m rp) (omega arith) k) in
      let first = score_block s b (signals fa_i rp_i) in
      (
        single first ∷ scores,
        rw (e, f, g) refl,
        omega (arith, n),
        (single-InRange first (score_block-InRange o unit s b (signals fa_i rp_i)), all),
      )

  -- Where each list that is given has a value for every block, `score_batch` returns, with one score for
  -- each block and every score between 0 and 1. The rounding to single precision keeps the order, and 0
  -- and 1.
  pub score_batch_lem :
      (s : ImportanceScorer W) (blocks : List (BlockState W)) (fa rp : List W)
      → Covers (length blocks) fa
      → Covers (length blocks) rp
      → (scores : List W) × (score_batch single s blocks fa rp ≡ some scores)
        × (length scores ≡ length blocks)
        × All InRange scores
  unfolding score_batch Answered
  score_batch_lem s blocks fa rp h k =
      score_from-Answered s fa rp 0 blocks (subst (λ m. Covers m fa) (omega arith) h)
        (subst (λ m. Covers m rp) (omega arith) k)
