-- ===== src/Evaluation/Distance/Scripts.antt =====
-- `_levenshtein` and the edit scripts between two words.
use mathlib.Core.List.{reverse, reverse_aux, reverse-reverse}
use multie_layer_kache.Prelude.{
  ℕ, suc, ◌+◌, ◌≤◌, min, max, subst, List, [], ◌∷◌, arith, Key, ◌==◌, leb, length, length-reverse,
  inl, inr, Bool-cases, equal-true, equal_self,
}
use multie_layer_kache.Evaluation.Distance.{levenshtein}
use multie_layer_kache.Evaluation.Distance.Table.{edits, edits-empty, levenshtein-reverse}

-- `Script xs ys n`: `n` insertions, deletions and substitutions of single letters turn `xs` into `ys`.
pub data Script {A : Type 0} : List A → List A → ℕ → Type 0 where
  done : Script [] [] 0
  same : {xs ys : List A} {n : ℕ} (x : A) → Script xs ys n → Script (x ∷ xs) (x ∷ ys) n
  substitute :
      {xs ys : List A} {n : ℕ} (x y : A) → Script xs ys n → Script (x ∷ xs) (y ∷ ys) (suc n)
  delete : {xs ys : List A} {n : ℕ} (x : A) → Script xs ys n → Script (x ∷ xs) ys (suc n)
  insert : {xs ys : List A} {n : ℕ} (y : A) → Script xs ys n → Script xs (y ∷ ys) (suc n)

module _ {A : Type 0} where
  Script-reverse_aux :
      {xs ys zs ws : List A} {m n : ℕ}
      → Script xs ys m
      → Script zs ws n
      → Script (reverse_aux xs zs) (reverse_aux ys ws) (m + n)
  Script-reverse_aux done k = subst (Script _ _) (omega arith) k
  Script-reverse_aux (same x h) k = Script-reverse_aux h (same x k)
  Script-reverse_aux (substitute x y h) k =
      subst (Script _ _) (omega arith) (Script-reverse_aux h (substitute x y k))
  Script-reverse_aux (delete x h) k =
      subst (Script _ _) (omega arith) (Script-reverse_aux h (delete x k))
  Script-reverse_aux (insert y h) k =
      subst (Script _ _) (omega arith) (Script-reverse_aux h (insert y k))

  Script-insert_all : (ys : List A) → Script [] ys (length ys)
  Script-insert_all [] = done
  Script-insert_all (y ∷ ys) = insert y (Script-insert_all ys)

  Script-delete_all : (xs : List A) → Script xs [] (length xs)
  Script-delete_all [] = done
  Script-delete_all (x ∷ xs) = delete x (Script-delete_all xs)

module _ {A : Type 0} ⦃key : Key A⦄ where
  -- A letter more or less at the front of either word changes the distance by one at most.
  IsSteady : List A → List A → Type 0
  IsSteady xs ys =
      ((x : A) → (edits (x ∷ xs) ys ≤ edits xs ys + 1) × (edits xs ys ≤ edits (x ∷ xs) ys + 1))
      × ((y : A) → (edits xs (y ∷ ys) ≤ edits xs ys + 1) × (edits xs ys ≤ edits xs (y ∷ ys) + 1))

  edits-IsSteady : (xs ys : List A) → IsSteady xs ys
  unfolding IsSteady
  edits-IsSteady [] [] = (λ x. (omega arith, omega arith), λ y. (omega arith, omega arith))
  edits-IsSteady [] (y ∷ ys) =
      let left = (edits-IsSteady [] ys).0 in
      (λ x. (ground (arith, left x), ground (arith, left x)), λ z. (omega arith, omega arith))
  edits-IsSteady (x ∷ xs) [] =
      let right = (edits-IsSteady xs []).1 in
      let all = edits-empty xs in
      (
        λ z. (omega arith, omega arith),
        λ y. (ground (arith, right y, all), ground (arith, right y, all)),
      )
  edits-IsSteady (x ∷ xs) (y ∷ ys) =
      let (left, right) = edits-IsSteady (x ∷ xs) ys in
      let (left', right') = edits-IsSteady xs (y ∷ ys) in
      (
        λ z. (ground (arith, right y), ground (arith, right y, left z)),
        λ z. (ground (arith, left' x), ground (arith, left' x, right' z)),
      )

  -- No script is cheaper.
  edits-le-cost : {xs ys : List A} {n : ℕ} → Script xs ys n → edits xs ys ≤ n
  unfolding IsSteady
  edits-le-cost done = omega arith
  edits-le-cost (same x h) = ground (arith, equal_self x, edits-le-cost h)
  edits-le-cost (substitute x y h) = ground (arith, edits-le-cost h)
  edits-le-cost {ys = ys} (delete {xs = xs} x h) =
      omega (arith, edits-le-cost h, ((edits-IsSteady xs ys).0 x).0)
  edits-le-cost {xs = xs} (insert {ys = ys} y h) =
      omega (arith, edits-le-cost h, ((edits-IsSteady xs ys).1 y).0)

  cheaper : (xs ys : List A) (a b : ℕ) → Script xs ys a → Script xs ys b → Script xs ys (min a b)
  cheaper xs ys a b h k = elim (Bool-cases (leb a b)) [
    | inl p ↦ subst (Script xs ys) (ground (arith, p)) h
    | inr p ↦ subst (Script xs ys) (ground (arith, p)) k
  ]

  cheapest_of :
      (x y : A) (xs ys : List A) {a b c : ℕ}
      → Script xs ys a
      → Script xs (y ∷ ys) b
      → Script (x ∷ xs) ys c
      → Script (x ∷ xs) (y ∷ ys) (1 + min (min a b) c)
  cheapest_of x y xs ys {a = a} {b = b} {c = c} h k l =
      subst (Script (x ∷ xs) (y ∷ ys)) (omega arith) (
        cheaper (x ∷ xs) (y ∷ ys) (min (suc a) (suc b)) (suc c)
          (cheaper (x ∷ xs) (y ∷ ys) (suc a) (suc b) (substitute x y h) (delete x k)) (insert y l))

  edits-Script : (xs ys : List A) → Script xs ys (edits xs ys)
  edits-Script [] ys = Script-insert_all ys
  edits-Script (x ∷ xs) [] = Script-delete_all (x ∷ xs)
  edits-Script (x ∷ xs) (y ∷ ys) =
      let both = edits-Script xs ys in
      let insertion = edits-Script (x ∷ xs) ys in
      let deletion = edits-Script xs (y ∷ ys) in
      elim (Bool-cases (x == y)) [
        | inl e ↦
            rw e
              (subst (λ z. Script (x ∷ xs) (z ∷ ys) (edits xs ys)) (equal-true x y e) (same x both))
        | inr e ↦ rw e (cheapest_of x y xs ys both deletion insertion)
      ]

  -- The number that `_levenshtein` ends with is the edit distance: no script of insertions, deletions
  -- and substitutions that turns `a` into `b` is cheaper, and one has exactly this cost.
  pub levenshtein_lem :
      (a b : List A) (n : ℕ) → Script a b n → (levenshtein a b ≤ n) × Script a b (levenshtein a b)
  levenshtein_lem a b n h = rw (levenshtein-reverse a b) (
    omega (arith, edits-le-cost (Script-reverse_aux h done)),
    subst (λ k. Script a b k) (omega arith)
        (subst (λ c. Script c b (edits (reverse a) (reverse b) + 0)) (reverse-reverse a)
          (subst (λ c. Script (reverse (reverse a)) c (edits (reverse a) (reverse b) + 0))
            (reverse-reverse b) (Script-reverse_aux (edits-Script (reverse a) (reverse b)) done))),
  )

  edits-le : (xs ys : List A) → edits xs ys ≤ max (length xs) (length ys)
  edits-le [] ys = omega arith
  edits-le (x ∷ xs) [] = omega arith
  edits-le (x ∷ xs) (y ∷ ys) = ground (arith, edits-le xs ys)

  -- The distance is at most the length of the longer word, by which the similarity divides.
  pub levenshtein-le : (a b : List A) → levenshtein a b ≤ max (length a) (length b)
  levenshtein-le a b = omega (
    arith,
    levenshtein-reverse a b,
    edits-le (reverse a) (reverse b),
    length-reverse a,
    length-reverse b,
  )
