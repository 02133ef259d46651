-- ===== src/Evaluation/Pareto.antt =====
-- src/evaluators/pareto.py: `ParetoAnalyzer`. A result keeps the columns that the frontier reads; a
-- value that pandas treats as missing is `none`. `sort_values` is pandas' and a parameter.
pub mod Dominance
pub mod Frontier
use multie_layer_kache.Prelude.{
  String, Bool, true, false, ◌&&◌, ◌||◌, List, [], ◌∷◌, ◌++◌, Option, none, some, if◌then◌else◌,
}
use multie_layer_kache.Prelude.Floats.{Double}
use multie_layer_kache.Evaluation.Quality.{is_empty}

pub record Result (W : Type 0) : Type 0 where
  pub policy_name : Option String
  pub x : Option W
  pub y : Option W

-- a record of `points`, with nothing missing
pub record Point (W : Type 0) : Type 0 where
  pub policy_name : String
  pub x : W
  pub y : W

-- `any(p(q) for q in l)`
abbrev pub any_of {ℓ} : {A : Type ℓ} → (A → Bool) → List A → Bool
any_of p [] = false
any_of p (x ∷ xs) = let rest = any_of p xs in p x || rest

abbrev complete : {W : Type 0} → Option String → Option W → Option W → Option (Point W)
complete (some policy_name) (some x) (some y) =
    some (record { policy_name = policy_name; x = x; y = y })
complete (some policy_name) (some x) none = none
complete (some policy_name) none y = none
complete none x y = none

-- `df[[x_metric, y_metric, "policy_name"]].dropna().to_dict("records")`
unfoldable pub dropna : {W : Type 0} → List (Result W) → List (Point W)
dropna [] = []
dropna (r ∷ results) =
    let rest = dropna results in
    elim (complete r.policy_name r.x r.y) [ none ↦ rest | some p ↦ p ∷ rest ]

module _ {W : Type 0} ⦃d : Double W⦄ where
  -- a value, turned so that more is better
  abbrev pub oriented : Bool → W → W
  oriented higher_is_better v = if higher_is_better then v else d.neg v

  unfoldable pub dominates : Bool → Bool → Point W → Point W → Bool
  dominates higher_x higher_y a b =
      let ax = oriented higher_x a.x in
      let bx = oriented higher_x b.x in
      let ay = oriented higher_y a.y in
      let by = oriented higher_y b.y in (d.le bx ax && d.le by ay) && (d.lt bx ax || d.lt by ay)

  -- the loop over the points: `q is not p` leaves out the place of `p`, so the others are the points
  -- before it and the points behind it
  unfoldable pub frontier_from : Bool → Bool → List (Point W) → List (Point W) → List (Point W)
  unfolding dominates
  frontier_from higher_x higher_y before [] = []
  frontier_from higher_x higher_y before (p ∷ behind) =
      let rest = frontier_from higher_x higher_y (before ++ p ∷ []) behind in
      let dominated = any_of (λ q. dominates higher_x higher_y q p) (before ++ behind) in
      if dominated then rest else p ∷ rest

  unfoldable pub frontier : Bool → Bool → List (Point W) → List (Point W)
  unfolding frontier_from
  frontier higher_x higher_y points = frontier_from higher_x higher_y [] points

  -- `sort` is `sort_values(x_metric)`; it raises (`none`) on a table without rows, which has no columns
  unfoldable pub compute_pareto_frontier :
      (List (Point W) → List (Point W)) → Bool → Bool → List (Result W) → Option (List (Point W))
  unfolding frontier dropna
  compute_pareto_frontier sort higher_x higher_y results =
      if is_empty results
      then some []
      else let kept = frontier higher_x higher_y (dropna results) in
        if is_empty kept then none else some (sort kept)

  -- the loop over the frontier, with its early return
  unfoldable pub is_dominated : Bool → Bool → Point W → List (Point W) → Bool
  unfolding dominates
  is_dominated higher_x higher_y point [] = false
  is_dominated higher_x higher_y point (f ∷ fs) =
      let rest = is_dominated higher_x higher_y point fs in
      if dominates higher_x higher_y f point then true else rest
