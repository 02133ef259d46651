-- ===== src/Prelude/Sort.antt =====
-- Python's `sorted(l, key=…)` and `l.sort(key=…)`, as a stable insertion sort by a Boolean order
-- `before x y`, which reads `key(x) <= key(y)`; for `reverse=True` it is `key(y) <= key(x)`, since
-- Python keeps equal elements in their order there too.
use Prim.Native.Nat.{ℕ, zero, suc}
use mathlib.Core.Path.{◌≡◌, refl, sym}
use mathlib.Core.Logic.{◌⊎◌, inl, inr}
use mathlib.Core.Bool.{Bool, true, false}
use mathlib.Core.List.{List, [], ◌∷◌, Perm, map}
use mathlib.Core.List.Perm
use native.Mathlib.Omega.{arith}
use multie_layer_kache.Prelude.Tests.{if◌then◌else◌, Bool-cases}
use multie_layer_kache.Prelude.Lists.{length, take, drop, All, count_by, All-mono}
use multie_layer_kache.Prelude.Members.{
  In, Distinct, In-drop, In-take_or_drop, In-map, In-map_inv, All-In, All-of_In,
}

-- The order of the keys: total and transitive, as `<=` on numbers is.
pub record IsOrder {A : Type 0} (before : A → A → Bool) : Type 0 where
  pub total : (x y : A) → before x y ≡ false → before y x ≡ true
  pub trans : (x y z : A) → before x y ≡ true → before y z ≡ true → before x z ≡ true

module _ {A : Type 0} (before : A → A → Bool) where
  unfoldable pub insert : A → List A → List A
  insert x [] = x ∷ []
  insert x (y ∷ ys) = if before x y then x ∷ y ∷ ys else y ∷ insert x ys

  unfoldable pub sorted : List A → List A
  unfolding insert
  sorted [] = []
  sorted (x ∷ xs) = insert x (sorted xs)

  abbrev pub IsSorted : List A → Type 0
  IsSorted [] = Unit
  IsSorted (x ∷ xs) = All (λ y. before x y ≡ true) xs × IsSorted xs

  insert-perm : (x : A) (ys : List A) → Perm (insert x ys) (x ∷ ys)
  unfolding insert
  insert-perm x [] = Perm.refl (x ∷ [])
  insert-perm x (y ∷ ys) = elim (Bool-cases (before x y)) [
    | inl p ↦ rw p (Perm.refl (x ∷ y ∷ ys))
    | inr p ↦ rw p (Perm.trans (Perm.cons y (insert-perm x ys)) (Perm.swap x y ys))
  ]

  -- Sorting rearranges the list.
  pub sorted-perm : (xs : List A) → Perm (sorted xs) xs
  unfolding sorted
  sorted-perm [] = Perm.refl []
  sorted-perm (x ∷ xs) = Perm.trans (insert-perm x (sorted xs)) (Perm.cons x (sorted-perm xs))

  count_by-insert :
      (p : A → Bool) (x : A) (ys : List A) → count_by p (insert x ys) ≡ count_by p (x ∷ ys)
  unfolding insert
  count_by-insert p x [] = refl
  count_by-insert p x (y ∷ ys) = elim (Bool-cases (before x y)) [
    | inl e ↦ rw e
    | inr e ↦ rw e (omega (arith, count_by-insert p x ys))
  ]

  pub count_by-sorted : (p : A → Bool) (xs : List A) → count_by p (sorted xs) ≡ count_by p xs
  unfolding sorted
  count_by-sorted p [] = refl
  count_by-sorted p (x ∷ xs) = omega (arith, count_by-insert p x (sorted xs), count_by-sorted p xs)

  length-insert : (x : A) (ys : List A) → length (insert x ys) ≡ suc (length ys)
  unfolding insert
  length-insert x [] = refl
  length-insert x (y ∷ ys) = ground (arith, length-insert x ys)

  pub length-sorted : (xs : List A) → length (sorted xs) ≡ length xs
  unfolding sorted
  length-sorted [] = refl
  length-sorted (x ∷ xs) = omega (arith, length-insert x (sorted xs), length-sorted xs)

  In-insert : (a x : A) (ys : List A) → In a (insert x ys) → (a ≡ x) ⊎ In a ys
  unfolding insert
  In-insert a x [] m = m
  In-insert a x (y ∷ ys) m = elim (Bool-cases (before x y)) [
    | inl p ↦ rw p at m
    | inr p ↦
        let m' : (a ≡ y) ⊎ In a (insert x ys) = rw p at m in
        elim m' [
          | inl e ↦ inr (inl e)
          | inr r ↦ elim (In-insert a x ys r) [ inl e ↦ inl e | inr q ↦ inr (inr q) ]
        ]
  ]

  insert-In : (a x : A) (ys : List A) → (a ≡ x) ⊎ In a ys → In a (insert x ys)
  unfolding insert
  insert-In a x [] m = m
  insert-In a x (y ∷ ys) m = elim (Bool-cases (before x y)) [
    | inl p ↦ rw p m
    | inr p ↦ rw p (elim m [
      | inl e ↦ inr (insert-In a x ys (inl e))
      | inr r ↦ elim r [ inl e ↦ inl e | inr q ↦ inr (insert-In a x ys (inr q)) ]
    ])
  ]

  pub In-sorted : (a : A) (xs : List A) → In a (sorted xs) → In a xs
  unfolding sorted
  In-sorted a [] m = m
  In-sorted a (x ∷ xs) m = elim (In-insert a x (sorted xs) m) [
    | inl e ↦ inl e
    | inr r ↦ inr (In-sorted a xs r)
  ]

  pub sorted-In : (a : A) (xs : List A) → In a xs → In a (sorted xs)
  unfolding sorted
  sorted-In a [] m = m
  sorted-In a (x ∷ xs) (inl e) = insert-In a x (sorted xs) (inl e)
  sorted-In a (x ∷ xs) (inr m) = insert-In a x (sorted xs) (inr (sorted-In a xs m))

module _ {A : Type 0} {before : A → A → Bool} (o : IsOrder before) where
  insert-IsSorted :
      (x : A) (ys : List A) → IsSorted before ys → IsSorted before (insert before x ys)
  unfolding insert
  insert-IsSorted x [] s = (tt, tt)
  insert-IsSorted x (y ∷ ys) (low, s) = elim (Bool-cases (before x y)) [
    | inl p ↦ rw p ((p, All-mono (λ z. o.trans x y z p) ys low), (low, s))
    | inr p ↦ rw p (
      All-of_In (λ z. before y z ≡ true) (insert before x ys)
          (λ z m. elim (In-insert before z x ys m) [
            | inl e ↦ rw e (o.total x y p)
            | inr r ↦ All-In (λ z. before y z ≡ true) ys z low r
          ]),
      insert-IsSorted x ys s,
    )
  ]

  -- The result ascends.
  pub sorted-IsSorted : (xs : List A) → IsSorted before (sorted before xs)
  unfolding sorted
  sorted-IsSorted [] = tt
  sorted-IsSorted (x ∷ xs) = insert-IsSorted x (sorted before xs) (sorted-IsSorted xs)

-- In a sorted list every element before a cut comes before every element behind it.
pub IsSorted-take-drop :
    {A : Type 0} (before : A → A → Bool) (n : ℕ) (xs : List A) (a b : A)
    → IsSorted before xs
    → In a (take n xs)
    → In b (drop n xs)
    → before a b ≡ true
unfolding take drop
IsSorted-take-drop before zero xs a b s m k = elim m [ ]
IsSorted-take-drop before (suc n) [] a b s m k = elim m [ ]
IsSorted-take-drop before (suc n) (x ∷ xs) a b (low, s) (inl e) k =
    rw e (All-In (λ y. before x y ≡ true) xs b low (In-drop b n xs k))
IsSorted-take-drop before (suc n) (x ∷ xs) a b (low, s) (inr m) k =
    IsSorted-take-drop before n xs a b s m k

All-take : {A : Type 0} (P : A → Type 0) (n : ℕ) (xs : List A) → All P xs → All P (take n xs)
unfolding take
All-take P zero xs h = tt
All-take P (suc n) [] h = tt
All-take P (suc n) (x ∷ xs) (h, hs) = (h, All-take P n xs hs)

pub IsSorted-take :
    {A : Type 0} (before : A → A → Bool) (n : ℕ) (xs : List A)
    → IsSorted before xs
    → IsSorted before (take n xs)
unfolding take
IsSorted-take before zero xs s = tt
IsSorted-take before (suc n) [] s = tt
IsSorted-take before (suc n) (x ∷ xs) (low, s) =
    (All-take (λ y. before x y ≡ true) n xs low, IsSorted-take before n xs s)

-- Every element of a list is among the `n` first of the sorted list, or comes no earlier than any of
-- those.
pub take-sorted-first :
    {A : Type 0} {before : A → A → Bool} (o : IsOrder before) (n : ℕ) (xs : List A)
    → let out = take n (sorted before xs) in
      All (λ c. In c out ⊎ All (λ b. before b c ≡ true) out) xs
take-sorted-first {before = before} o n xs = All-of_In _ xs λ c m.
    elim (In-take_or_drop c n (sorted before xs) (sorted-In before c xs m)) [
      | inl early ↦ inl early
      | inr late ↦ inr (
          All-of_In _ (take n (sorted before xs))
            λ b k. IsSorted-take-drop before n (sorted before xs) b c (sorted-IsSorted o xs) k late)
    ]

module _ {A B : Type 0} (before : A → A → Bool) (f : A → B) where
  insert-Distinct :
      (x : A) (ys : List A)
      → (In (f x) (map f ys) → ⊥)
      → Distinct (map f ys)
      → Distinct (map f (insert before x ys))
  unfolding insert
  insert-Distinct x [] out d = (out, d)
  insert-Distinct x (y ∷ ys) out (fresh, d) = elim (Bool-cases (before x y)) [
    | inl p ↦ rw p (out, (fresh, d))
    | inr p ↦ rw p (
      λ m.
          let (a, inside, same) = In-map_inv f (f y) (insert before x ys) m in
          elim (In-insert before a x ys inside) [
            | inl e ↦ out (inl (rw (← e) (sym same)))
            | inr r ↦ fresh (rw same (In-map f a ys r))
          ],
      insert-Distinct x ys (λ m. out (inr m)) d,
    )
  ]

  -- Sorting keeps the keys distinct.
  pub sorted-Distinct : (xs : List A) → Distinct (map f xs) → Distinct (map f (sorted before xs))
  unfolding sorted
  sorted-Distinct [] d = tt
  sorted-Distinct (x ∷ xs) (out, d) =
      insert-Distinct x (sorted before xs)
        (λ m.
          let (a, inside, same) = In-map_inv f (f x) (sorted before xs) m in
          out (rw same (In-map f a xs (In-sorted before a xs inside))))
        (sorted-Distinct xs d)
