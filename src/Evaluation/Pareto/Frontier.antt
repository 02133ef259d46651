-- ===== src/Evaluation/Pareto/Frontier.antt =====
-- What `compute_pareto_frontier` keeps, and what `is_dominated` sees of it.
use mathlib.Core.List.{append_assoc}
use multie_layer_kache.Prelude.{
  ℕ, zero, suc, ◌≤◌, ◌<◌, ◌≡◌, ◌∙◌, refl, sym, ap, Bool, true, false, ◌||◌, ◌⊎◌, List, [], ◌∷◌,
  ◌++◌, arith, some, inl, inr, count_by, Bool-cases, either_branch, ◌↔◌,
}
use multie_layer_kache.Prelude.Members.{In}
use multie_layer_kache.Prelude.Floats.{Double, IsOrdered}
use multie_layer_kache.Evaluation.Quality.{is_empty}
use multie_layer_kache.Evaluation.Pareto.{
  Point, Result, any_of, dominates, frontier_from, frontier, is_dominated, dropna,
  compute_pareto_frontier,
}
use multie_layer_kache.Evaluation.Pareto.Dominance.{
  any_of-true, any_of-In, count_by_lt, dominates_irrefl, dominates_trans,
}

is_empty-In : {A : Type 0} (l : List A) (a : A) → In a l → is_empty l ≡ false
is_empty-In [] a m = elim m [ ]
is_empty-In (x ∷ l) a m = refl

results-not_empty :
    {W : Type 0} (results : List (Result W)) (q : Point W)
    → In q (dropna results)
    → is_empty results ≡ false
unfolding dropna
results-not_empty [] q m = elim m [ ]
results-not_empty (r ∷ results) q m = refl

module _ {W : Type 0} ⦃d : Double W⦄ (o : IsOrdered d) (hx hy : Bool) where
  -- some point of the list dominates `p`
  abbrev beaten : Point W → List (Point W) → Bool
  beaten p l = any_of (λ q. dominates hx hy q p) l

  -- A point plays no part among those that may dominate it.
  beaten_self :
      (p : Point W) (before behind : List (Point W))
      → beaten p (before ++ p ∷ behind) ≡ beaten p (before ++ behind)
  beaten_self p [] behind = rw (dominates_irrefl o hx hy p) refl
  beaten_self p (b ∷ before) behind =
      ap (λ t. dominates hx hy b p || t) (beaten_self p before behind)

  frontier_from-kept :
      (p : Point W) (before behind : List (Point W))
      → In p (frontier_from hx hy before behind)
      → In p behind × (beaten p (before ++ behind) ≡ false)
  unfolding frontier_from
  frontier_from-kept p before [] m = elim m [ ]
  frontier_from-kept p before (q ∷ behind) m =
      let further = frontier_from-kept p (before ++ q ∷ []) behind in
      let shift : In p behind × (beaten p ((before ++ q ∷ []) ++ behind) ≡ false)
          → ((p ≡ q) ⊎ In p behind) × (beaten p (before ++ q ∷ behind) ≡ false) =
        λ r. (inr r.0, sym (ap (beaten p) (append_assoc before (q ∷ []) behind)) ∙ r.1) in
      elim (Bool-cases (beaten q (before ++ behind))) [
        | inl b ↦ shift (further (rw b at m))
        | inr b ↦
            let m' : (p ≡ q) ⊎ In p (frontier_from hx hy (before ++ q ∷ []) behind) = rw b at m in
            elim m' [
              | inl e ↦ (inl e, rw e (beaten_self q before behind ∙ b))
              | inr k ↦ shift (further k)
            ]
      ]

  frontier_from-keeps :
      (p : Point W) (before behind : List (Point W))
      → In p behind
      → beaten p (before ++ behind) ≡ false
      → In p (frontier_from hx hy before behind)
  unfolding frontier_from
  frontier_from-keeps p before [] m h = elim m [ ]
  frontier_from-keeps p before (q ∷ behind) (inl e) h =
      let free : beaten q (before ++ behind) ≡ false =
        sym (beaten_self q before behind) ∙ sym (ap (λ t. beaten t (before ++ q ∷ behind)) e) ∙ h in
      rw free (inl e)
  frontier_from-keeps p before (q ∷ behind) (inr m) h =
      let rest : In p (frontier_from hx hy (before ++ q ∷ []) behind) =
        frontier_from-keeps p (before ++ q ∷ []) behind m
          (ap (beaten p) (append_assoc before (q ∷ []) behind) ∙ h) in
      either_branch (In p) (beaten q (before ++ behind))
        (frontier_from hx hy (before ++ q ∷ []) behind)
        (q ∷ frontier_from hx hy (before ++ q ∷ []) behind) rest (inr rest)

  -- Above a dominating point stand fewer points.
  fewer :
      (points : List (Point W)) (q r : Point W)
      → In r points
      → dominates hx hy r q ≡ true
      → count_by (λ t. dominates hx hy t r) points < count_by (λ t. dominates hx hy t q) points
  fewer points q r m h =
      count_by_lt (λ t. dominates hx hy t r) (λ t. dominates hx hy t q) points r
        (λ t above. dominates_trans o hx hy t r q above h) m (dominates_irrefl o hx hy r) h

  -- Every point that is dominated is dominated by a point that is kept: a chain of dominating points
  -- has fewer and fewer above it.
  dominator_kept :
      (n : ℕ) (points : List (Point W)) (p q : Point W)
      → In q points
      → dominates hx hy q p ≡ true
      → count_by (λ r. dominates hx hy r q) points ≤ n
      → (f : Point W) × In f (frontier hx hy points) × (dominates hx hy f p ≡ true)
  unfolding frontier
  dominator_kept zero points p q m h few = elim (Bool-cases (beaten q points)) [
    | inr free ↦ (q, frontier_from-keeps q [] points m free, h)
    | inl b ↦
        let (r, k, above) = any_of-true (λ t. dominates hx hy t q) points b in
        absurd (omega (arith, few, fewer points q r k above))
  ]
  dominator_kept (suc n) points p q m h few = elim (Bool-cases (beaten q points)) [
    | inr free ↦ (q, frontier_from-keeps q [] points m free, h)
    | inl b ↦
        let (r, k, above) = any_of-true (λ t. dominates hx hy t q) points b in
        dominator_kept n points p r k (dominates_trans o hx hy r q p above h)
          (omega (arith, few, fewer points q r k above))
  ]

  In-frontier :
      (p : Point W) (points : List (Point W))
      → In p (frontier hx hy points) ↔ (In p points × (beaten p points ≡ false))
  unfolding frontier
  In-frontier p points =
      (frontier_from-kept p [] points, λ h. frontier_from-keeps p [] points h.0 h.1)

  is_dominated-beaten : (p : Point W) (l : List (Point W)) → is_dominated hx hy p l ≡ beaten p l
  unfolding is_dominated
  is_dominated-beaten p [] = refl
  is_dominated-beaten p (f ∷ fs) = elim (Bool-cases (dominates hx hy f p)) [
    | inl e ↦ rw e refl
    | inr e ↦ rw e (is_dominated-beaten p fs)
  ]

  -- A point is dominated by the frontier of some points exactly where some of all the points dominates
  -- it: what the frontier leaves out makes no difference to `is_dominated`.
  pub is_dominated-frontier :
      (p : Point W) (points : List (Point W))
      → is_dominated hx hy p (frontier hx hy points) ≡ is_dominated hx hy p points
  is_dominated-frontier p points =
      is_dominated-beaten p (frontier hx hy points) ∙ same_test ∙ sym (is_dominated-beaten p points)
    where
      up : beaten p points ≡ true → beaten p (frontier hx hy points) ≡ true
      up h =
          let (q, m, above) = any_of-true (λ t. dominates hx hy t p) points h in
          let (f, k, e) =
            dominator_kept (count_by (λ r. dominates hx hy r q) points) points p q m above
              (omega arith) in
          any_of-In (λ t. dominates hx hy t p) (frontier hx hy points) f k e

      down : beaten p (frontier hx hy points) ≡ true → beaten p points ≡ true
      down h =
          let (q, m, above) = any_of-true (λ t. dominates hx hy t p) (frontier hx hy points) h in
          any_of-In (λ t. dominates hx hy t p) points q ((In-frontier q points).0 m).0 above

      same_test : beaten p (frontier hx hy points) ≡ beaten p points
      same_test = ground (arith, up, down)

  frontier-In :
      (points : List (Point W)) (q : Point W)
      → In q points
      → (f : Point W) × In f (frontier hx hy points)
  frontier-In points q m = elim (Bool-cases (beaten q points)) [
    | inr free ↦ (q, (In-frontier q points).1 (m, free))
    | inl b ↦
        let (r, k, above) = any_of-true (λ t. dominates hx hy t q) points b in
        let (f, l, e) =
          dominator_kept (count_by (λ t. dominates hx hy t r) points) points q r k above
            (omega arith) in
        (f, l)
  ]

  -- Where some result has all three columns, the frontier is not empty and the call returns; its
  -- points are, sorted, the results with all three columns that none of these dominates. `sort` keeps
  -- the elements of a list.
  pub compute_pareto_frontier_lem :
      (sort : List (Point W) → List (Point W))
      → ((p : Point W) (l : List (Point W)) → In p (sort l) ↔ In p l)
      → (results : List (Result W)) (q : Point W) → In q (dropna results)
      → (l : List (Point W)) × (compute_pareto_frontier sort hx hy results ≡ some l)
        × ((p : Point W)
            → In p l ↔ (In p (dropna results) × (is_dominated hx hy p (dropna results) ≡ false)))
  unfolding compute_pareto_frontier
  compute_pareto_frontier_lem sort keeps results q m =
      let points = dropna results in
      let kept = frontier hx hy points in
      let some_kept = frontier-In points q m in
      (
        sort kept,
        rw (results-not_empty results q m, is_empty-In kept some_kept.0 some_kept.1) refl,
        λ p. (
          λ k.
              let r = (In-frontier p points).0 ((keeps p kept).0 k) in
              (r.0, is_dominated-beaten p points ∙ r.1),
          λ r.
              (keeps p kept).1
                ((In-frontier p points).1 (r.0, sym (is_dominated-beaten p points) ∙ r.1)),
        ),
      )
