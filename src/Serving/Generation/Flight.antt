-- ===== src/Serving/Generation/Flight.antt =====
-- What stands in `_in_flight` after a call of `generate`.
use multie_layer_kache.Prelude.{
  ◌≡◌, ◌∙◌, refl, ap, subst, String, Bool, true, false, Option, none, some, List, arith, ◌==◌,
  string_key, if◌then◌else◌, inl, inr, Bool-cases,
}
use multie_layer_kache.Prelude.Dict
use multie_layer_kache.Prelude.Dict.{Dict, get-put, get-remove}
use multie_layer_kache.Prelude.Floats.{Double}
use multie_layer_kache.Serving.Router.{Text}
use multie_layer_kache.Serving.Outputs.{
  Outcome, returned, raised, cancelled, Interruption, exception, cancellation, RequestOutput,
  Progress, no_progress, take_outputs,
}
use multie_layer_kache.Serving.Generation.{
  ServingEngine, initialize, register, registered, maybe_trigger_policy, trigger_policy_check,
  enter_generate, leave_generate, mock_generate, finish_generate, mock_outcome, is_mock, rid_of,
}

abbrev pub is_returned : {W : Type 0} → Outcome W → Bool
is_returned (returned r) = true
is_returned (raised m) = false
is_returned cancelled = false

-- the entry of `j` after an outcome of the request `rid`, which had the entry `entry` before
abbrev pub entry_after : {W : Type 0} → Outcome W → String → String → Option W → Option W
entry_after o rid j entry = if is_returned o then if rid == j then none else entry else entry

settle :
    {W : Type 0} (done same : Bool) (start : W) (before : Option W)
    → (if done
        then if same then none else if same then some start else before
        else if same
        then some start
        else before)
      ≡ (if same then if done then none else some start else before)
settle true true start before = refl
settle true false start before = refl
settle false true start before = refl
settle false false start before = refl

module _ {W P : Type 0} ⦃d : Double W⦄ where
  maybe_trigger-in_flight :
      (run : P → P) (now : W) (e : ServingEngine W P)
      → (maybe_trigger_policy run now e).in_flight ≡ e.in_flight
  unfolding maybe_trigger_policy trigger_policy_check
  maybe_trigger-in_flight run now e = ground arith

  finish-in_flight :
      (run : P → P) (e : ServingEngine W P) (rid : String) (start now later : W)
      (error : Option Interruption) (progress : Option (Progress W)) (j : String)
      → let answer = finish_generate run e rid start now later error progress in
        Dict.get j answer.0.in_flight ≡ entry_after answer.1 rid j (Dict.get j e.in_flight)
  unfolding finish_generate
  finish-in_flight run e rid start now later error none j = refl
  finish-in_flight run e rid start now later (some (exception m)) (some progress) j = refl
  finish-in_flight run e rid start now later (some cancellation) (some progress) j = refl
  finish-in_flight run e rid start now later none (some progress) j =
      let popped = record e { in_flight = Dict.remove rid e.in_flight } in
      rw (maybe_trigger-in_flight run later popped) (get-remove rid j e.in_flight)

  mock-in_flight :
      (run : P → P) (text : Text) (e : ServingEngine W P) (rid prompt : String) (start now : W)
      (error : Option Interruption) (j : String)
      → let answer = mock_outcome run e error (mock_generate text e rid prompt start now) in
        Dict.get j answer.0.in_flight ≡ entry_after answer.1 rid j (Dict.get j e.in_flight)
  unfolding mock_generate
  mock-in_flight run text e rid prompt start now none j = get-remove rid j e.in_flight
  mock-in_flight run text e rid prompt start now (some (exception m)) j =
      get-remove rid j e.in_flight
  mock-in_flight run text e rid prompt start now (some cancellation) j = refl

  leave-in_flight :
      (run : P → P) (text : Text) (e : ServingEngine W P) (rid prompt : String) (start : W)
      (outputs : List (W × RequestOutput)) (error : Option Interruption) (now later : W)
      (j : String)
      → let answer = leave_generate run text e rid prompt start outputs error now later in
        Dict.get j answer.0.in_flight ≡ entry_after answer.1 rid j (Dict.get j e.in_flight)
  unfolding leave_generate mock_generate
  leave-in_flight run text e rid prompt start outputs error now later j =
      elim (Bool-cases (is_mock e)) [
        | inl mock ↦ rw mock (mock-in_flight run text e rid prompt start now error j)
        | inr real ↦ rw real (
            finish-in_flight run e rid start now later error
              (take_outputs start outputs no_progress) j)
      ]

  ready-in_flight :
      (built : Bool) (e e' : ServingEngine W P)
      → (if e.initialized then some e else initialize built e) ≡ some e'
      → e'.in_flight ≡ e.in_flight
  unfolding initialize
  ready-in_flight built e e' h = ground (arith, h)

  registered-in_flight :
      (o : Option (ServingEngine W P)) (before : Dict String W) (request_id : Option String)
      (fresh : String) (start : W) (entered : ServingEngine W P × String) (j : String)
      → ((e : ServingEngine W P) → o ≡ some e → e.in_flight ≡ before)
      → registered o request_id fresh start ≡ some entered
      → Dict.get j entered.0.in_flight ≡ (if entered.1 == j then some start else Dict.get j before)
  unfolding register
  registered-in_flight none before request_id fresh start entered j same h =
      absurd (ground (arith, h))
  registered-in_flight (some e) before request_id fresh start entered j same h =
      let went : register e request_id fresh start ≡ entered = ground (arith, h) in
      subst
        (λ (x : ServingEngine W P × String).
          Dict.get j x.0.in_flight ≡ (if x.1 == j then some start else Dict.get j before))
        went
        (get-put (rid_of request_id fresh) j start e.in_flight
          ∙ ap (λ l. if rid_of request_id fresh == j then some start else Dict.get j l)
              (same e refl))

  -- Of a call of `generate` that gets past the initialisation of the engine: where it returns, the
  -- entries of the other requests in `_in_flight` are as they were and it has none of its own; where it
  -- raises or is cancelled, its own entry stays.
  pub generate-in_flight :
      (run : P → P) (text : Text) (built : Bool) (e : ServingEngine W P)
      (request_id : Option String) (fresh prompt : String) (start : W)
      (outputs : List (W × RequestOutput)) (error : Option Interruption) (now later : W)
      (j : String) (entered : ServingEngine W P × String)
      → enter_generate built e request_id fresh start ≡ some entered
      → let answer =
          leave_generate run text entered.0 entered.1 prompt start outputs error now later in
        Dict.get j answer.0.in_flight ≡ (
          if entered.1 == j
          then if is_returned answer.1 then none else some start
          else Dict.get j e.in_flight)
  unfolding enter_generate
  generate-in_flight run text built e request_id fresh prompt start outputs error now later j
        entered h =
      let o =
        (leave_generate run text entered.0 entered.1 prompt start outputs error now later).1 in
      leave-in_flight run text entered.0 entered.1 prompt start outputs error now later j
      ∙ ap (entry_after o entered.1 j) (
          registered-in_flight _ e.in_flight request_id fresh start entered j
            (ready-in_flight built e) h)
      ∙ settle (is_returned o) (entered.1 == j) start (Dict.get j e.in_flight)
