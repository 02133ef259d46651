-- ===== src/Evaluation/Lcs/Longest.antt =====
-- `_lcs_length` and the common subsequences of two lists.
use mathlib.Core.List.{reverse, reverse_aux, reverse-reverse}
use multie_layer_kache.Prelude.{
  ℕ, ◌+◌, ◌≤◌, max, ◌≡◌, ◌∙◌, refl, subst, List, [], ◌∷◌, arith, Key, ◌==◌, leb, length,
  length-reverse, inl, inr, Bool-cases, equal-true, equal_self,
}
use multie_layer_kache.Evaluation.Lcs.{lcs_length}
use multie_layer_kache.Evaluation.Lcs.Rows.{lcs, lcs_length-reverse}

-- `IsSubsequence s xs`: the letters of `s` stand in `xs` in their order.
pub data IsSubsequence {A : Type 0} : List A → List A → Type 0 where
  none_left : IsSubsequence [] []
  skip : {s xs : List A} (x : A) → IsSubsequence s xs → IsSubsequence s (x ∷ xs)
  keep : {s xs : List A} (x : A) → IsSubsequence s xs → IsSubsequence (x ∷ s) (x ∷ xs)

module _ {A : Type 0} where
  pub IsSubsequence-nil : (xs : List A) → IsSubsequence [] xs
  IsSubsequence-nil [] = none_left
  IsSubsequence-nil (x ∷ xs) = skip x (IsSubsequence-nil xs)

  IsSubsequence-reverse_aux :
      {s xs t ys : List A}
      → IsSubsequence s xs
      → IsSubsequence t ys
      → IsSubsequence (reverse_aux s t) (reverse_aux xs ys)
  IsSubsequence-reverse_aux none_left k = k
  IsSubsequence-reverse_aux (skip x h) k = IsSubsequence-reverse_aux h (skip x k)
  IsSubsequence-reverse_aux (keep x h) k = IsSubsequence-reverse_aux h (keep x k)

  length-IsSubsequence : {s xs : List A} → IsSubsequence s xs → length s ≤ length xs
  length-IsSubsequence none_left = omega arith
  length-IsSubsequence (skip x h) = omega (arith, length-IsSubsequence h)
  length-IsSubsequence (keep x h) = omega (arith, length-IsSubsequence h)

module _ {A : Type 0} ⦃key : Key A⦄ where
  equal_sym : (x y : A) → (x == y) ≡ (y == x)
  equal_sym x y = ground (arith, key.equal_iff x y, key.equal_iff y x)

  lcs_comm : (xs ys : List A) → lcs xs ys ≡ lcs ys xs
  lcs_comm [] [] = refl
  lcs_comm [] (y ∷ ys) = refl
  lcs_comm (x ∷ xs) [] = refl
  lcs_comm (x ∷ xs) (y ∷ ys) =
      ground (arith, equal_sym x y, lcs_comm xs ys, lcs_comm (x ∷ xs) ys, lcs_comm xs (y ∷ ys))

  -- One more letter of the other word gives one more common letter at most.
  lcs_grow_from :
      (x : A) (xs ys : List A)
      → ((y : A) (zs : List A) → lcs xs (y ∷ zs) ≤ lcs xs zs + 1)
      → lcs xs ys ≤ lcs (x ∷ xs) ys
  lcs_grow_from x xs [] step = ground (arith, lcs_comm xs [])
  lcs_grow_from x xs (y ∷ ys) step = ground (arith, step y ys)

  lcs_step : (xs : List A) (y : A) (ys : List A) → lcs xs (y ∷ ys) ≤ lcs xs ys + 1
  lcs_step [] y ys = omega arith
  lcs_step (x ∷ xs) y ys = ground (arith, lcs_step xs y ys, lcs_grow_from x xs ys (lcs_step xs))

  lcs_grow : (x : A) (xs ys : List A) → lcs xs ys ≤ lcs (x ∷ xs) ys
  lcs_grow x xs ys = lcs_grow_from x xs ys (lcs_step xs)

  lcs_grow_right : (xs : List A) (y : A) (ys : List A) → lcs xs ys ≤ lcs xs (y ∷ ys)
  lcs_grow_right xs y ys = omega (arith, lcs_comm xs ys, lcs_comm xs (y ∷ ys), lcs_grow y ys xs)

  -- No common subsequence is longer.
  length-common-le :
      {s xs ys : List A} → IsSubsequence s xs → IsSubsequence s ys → length s ≤ lcs xs ys
  length-common-le none_left k = omega arith
  length-common-le (skip x h) k = omega (arith, length-common-le h k, lcs_grow x _ _)
  length-common-le (keep x h) (skip y k) =
      omega (arith, length-common-le (keep x h) k, lcs_grow_right _ y _)
  length-common-le (keep x h) (keep y k) = ground (arith, length-common-le h k, equal_self x)

  -- Some common subsequence has this length.
  abbrev pub Attained : List A → List A → ℕ → Type 0
  Attained xs ys n = (s : List A) × IsSubsequence s xs × IsSubsequence s ys × (length s ≡ n)

  keep_both :
      (x y : A) (xs ys : List A) (n : ℕ)
      → x ≡ y
      → Attained xs ys n
      → Attained (x ∷ xs) (y ∷ ys) (n + 1)
  keep_both x y xs ys n e (s, h, k, l) = (x ∷ s, keep x h, rw (← e) (keep x k), omega (arith, l))

  skip_left : (x : A) (xs ys : List A) (n : ℕ) → Attained xs ys n → Attained (x ∷ xs) ys n
  skip_left x xs ys n (s, h, k, l) = (s, skip x h, k, l)

  skip_right : (y : A) (xs ys : List A) (n : ℕ) → Attained xs ys n → Attained xs (y ∷ ys) n
  skip_right y xs ys n (s, h, k, l) = (s, h, skip y k, l)

  longer :
      (xs ys : List A) (a b : ℕ) → Attained xs ys a → Attained xs ys b → Attained xs ys (max a b)
  longer xs ys a b h k = elim (Bool-cases (leb a b)) [
    | inl p ↦ subst (Attained xs ys) (ground (arith, p)) k
    | inr p ↦ subst (Attained xs ys) (ground (arith, p)) h
  ]

  lcs-Attained : (xs ys : List A) → Attained xs ys (lcs xs ys)
  lcs-Attained [] ys = ([], none_left, IsSubsequence-nil ys, refl)
  lcs-Attained (x ∷ xs) [] = ([], IsSubsequence-nil (x ∷ xs), none_left, refl)
  lcs-Attained (x ∷ xs) (y ∷ ys) =
      let both = lcs-Attained xs ys in
      let right = lcs-Attained (x ∷ xs) ys in
      let left = lcs-Attained xs (y ∷ ys) in
      elim (Bool-cases (x == y)) [
        | inl e ↦ rw e (keep_both x y xs ys (lcs xs ys) (equal-true x y e) both)
        | inr e ↦ rw e (
            longer (x ∷ xs) (y ∷ ys) (lcs (x ∷ xs) ys) (lcs xs (y ∷ ys))
              (skip_right y (x ∷ xs) ys (lcs (x ∷ xs) ys) right)
              (skip_left x xs (y ∷ ys) (lcs xs (y ∷ ys)) left))
      ]

  of_reverse :
      {s xs ys : List A}
      → IsSubsequence s (reverse xs)
      → IsSubsequence s (reverse ys)
      → IsSubsequence (reverse s) xs × IsSubsequence (reverse s) ys
  of_reverse {s = s} {xs = xs} {ys = ys} h k = (
    subst (IsSubsequence (reverse s)) (reverse-reverse xs) (IsSubsequence-reverse_aux h none_left),
    subst (IsSubsequence (reverse s)) (reverse-reverse ys) (IsSubsequence-reverse_aux k none_left),
  )

  -- What the two rows of the table end with is the length of a longest common subsequence: no list
  -- `s` whose elements stand in `a` and in `b` in their order is longer, and some such list is
  -- exactly as long.
  pub lcs_length_lem :
      (a b s : List A)
      → IsSubsequence s a
      → IsSubsequence s b
      → (length s ≤ lcs_length a b) × Attained a b (lcs_length a b)
  lcs_length_lem a b s h k = rw (lcs_length-reverse a b) (
    omega (
      arith,
      length-reverse s,
      length-common-le (IsSubsequence-reverse_aux h none_left)
          (IsSubsequence-reverse_aux k none_left),
    ),
    let (t, f, g, l) = lcs-Attained (reverse a) (reverse b) in
        let both = of_reverse f g in (reverse t, both.0, both.1, length-reverse t ∙ l),
  )

  pub lcs_length-le : (a b : List A) → (lcs_length a b ≤ length a) × (lcs_length a b ≤ length b)
  lcs_length-le a b =
      let (s, h, k, l) = (lcs_length_lem a b [] (IsSubsequence-nil a) (IsSubsequence-nil b)).1 in
      (omega (arith, l, length-IsSubsequence h), omega (arith, l, length-IsSubsequence k))
