-- ===== src/Policies/Base/Answers.antt =====
-- Reading a policy's answer: the decision about one block.
use multie_layer_kache.Prelude.{
  ℕ, ◌≡◌, inl, inr, Option, none, some, List, [], ◌∷◌, map, nat_key, ◌==◌, if◌then◌else◌,
  Bool-cases, equal_self, equal-true,
}
use multie_layer_kache.Prelude.Members.{In, Distinct, In-map}
use multie_layer_kache.Telemetry.Schema.{BlockDecision}
use multie_layer_kache.Policies.Base.{PolicyDecision}

module _ {W : Type 0} where
  -- the decision about the block with an id
  abbrev pub decision_for : ℕ → List (PolicyDecision W) → Option BlockDecision
  decision_for i [] = none
  decision_for i (x ∷ xs) = if x.block_id == i then some x.decision else decision_for i xs

  -- Verdicts on elements with distinct ids are found under the elements' ids.
  pub decision_for-map :
      {A : Type 0} (key : A → ℕ) (v : A → PolicyDecision W) (xs : List A) (a : A)
      → ((x : A) → (v x).block_id ≡ key x)
      → Distinct (map key xs)
      → In a xs
      → decision_for (key a) (map v xs) ≡ some (v a).decision
  decision_for-map key v (x ∷ xs) a same dist (inl e) = rw (e, same x, equal_self (key x))
  decision_for-map key v (x ∷ xs) a same (out, dist) (inr m) = elim (Bool-cases (key x == key a)) [
    | inl p ↦ absurd (out (rw (equal-true (key x) (key a) p) (In-map key a xs m)))
    | inr p ↦ rw (same x, p) (decision_for-map key v xs a same dist m)
  ]
  decision_for-map key v [] a same dist m = elim m [ ]
