-- ===== src/Serving/Api/Batch.antt =====
-- src/serving/api_server.py: `batch_generate`. The semaphore only delays the calls, whose answers come in
-- the order of the requests. `show` is `str` of the exception.
-- A `CancelledError` is no `Exception` and goes into the results as it is.
use multie_layer_kache.Prelude.{
  ℕ, zero, suc, ◌+◌, ◌≡◌, ◌∙◌, refl, ap, ap₂, String, Option, none, some, List, [], ◌∷◌, arith,
  length,
}
use multie_layer_kache.Serving.Api.{Answer, answered, http_error, aborted, GenerateResponse}

pub data BatchItem (W : Type 0) : Type 0 where
  response : GenerateResponse W → BatchItem W
  failure : String → ℕ → BatchItem W
  cancelled_item : BatchItem W

pub record BatchResult (W : Type 0) : Type 0 where
  pub results : List (BatchItem W)
  pub total : ℕ

-- the entry at an index
abbrev pub entry_at {ℓ} : {A : Type ℓ} → List A → ℕ → Option A
entry_at [] i = none
entry_at (x ∷ xs) zero = some x
entry_at (x ∷ xs) (suc i) = entry_at xs i

module _ {W : Type 0} (show : ℕ → String → String) where
  abbrev pub batch_item : ℕ → Answer W → BatchItem W
  batch_item i (answered r) = response r
  batch_item i (http_error code detail) = failure (show code detail) i
  batch_item i aborted = cancelled_item

  -- `enumerate(results)` from `i` on
  unfoldable pub batch_items : ℕ → List (Answer W) → List (BatchItem W)
  batch_items i [] = []
  batch_items i (a ∷ answers) = batch_item i a ∷ batch_items (suc i) answers

  unfoldable pub batch_generate : List (Answer W) → BatchResult W
  unfolding batch_items
  batch_generate answers =
      let out = batch_items 0 answers in record { results = out; total = length out }

  length-batch_items :
      (i : ℕ) (answers : List (Answer W)) → length (batch_items i answers) ≡ length answers
  unfolding batch_items
  length-batch_items i [] = refl
  length-batch_items i (a ∷ answers) = ap suc (length-batch_items (suc i) answers)

  batch_items-at :
      (i j : ℕ) (answers : List (Answer W)) (a : Answer W)
      → entry_at answers j ≡ some a
      → entry_at (batch_items i answers) j ≡ some (batch_item (i + j) a)
  unfolding batch_items
  batch_items-at i j [] a h = absurd (ground arith)
  batch_items-at i zero (b ∷ answers) a h =
      let same : b ≡ a = ground (arith, h) in ap₂ (λ n c. some (batch_item n c)) (omega arith) same
  batch_items-at i (suc j) (b ∷ answers) a h =
      batch_items-at (suc i) j answers a h ∙ ap (λ n. some (batch_item n a)) (omega arith)

  -- The results of a batch are as many as its requests, and each stands at the place of its request: a
  -- response as it is, an error as its text with the place.
  pub batch_generate_lem :
      (answers : List (Answer W)) (i : ℕ) (a : Answer W)
      → entry_at answers i ≡ some a
      → (entry_at (batch_generate answers).results i ≡ some (batch_item i a))
        × ((batch_generate answers).total ≡ length answers)
  unfolding batch_generate
  batch_generate_lem answers i a h = (
    batch_items-at 0 i answers a h ∙ ap (λ n. some (batch_item n a)) (omega arith),
    length-batch_items 0 answers,
  )
