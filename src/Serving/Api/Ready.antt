-- ===== src/Serving/Api/Ready.antt =====
-- src/serving/api_server.py: the engine that `lifespan` has initialised stays so, so `generate` of the
-- engine registers a request without a call of `initialize`.
use multie_layer_kache.Prelude.{
  ◌≡◌, refl, String, Bool, true, false, Option, none, some, List, [], ◌∷◌, ℕ, if_true, inl, inr,
  Bool-cases, ap,
}
use multie_layer_kache.Prelude.Floats.{Double}
use multie_layer_kache.Serving.Router.{Text}
use multie_layer_kache.Serving.Outputs.{
  Outcome, returned, raised, cancelled, Interruption, exception, cancellation, RequestOutput,
  Progress, no_progress, take_outputs,
}
use multie_layer_kache.Serving.Generation.{
  ServingEngine, initialize, maybe_trigger_policy, trigger_policy_check, register, registered,
  enter_generate, mock_outcome, leave_generate, mock_generate, finish_generate, is_mock,
}
use multie_layer_kache.Serving.Api.{
  Server, GenerateRequest, accept_request, begin_request, close_request, finish_request,
}
use multie_layer_kache.Serving.Api.Lifespan.{
  Event, accept, begin, finish, startup, handle, handle_all,
}

module _ {W P : Type 0} ⦃d : Double W⦄ (text : Text) (round_2 : W → W) (run : P → P) where
  finish-initialized :
      (e : ServingEngine W P) (rid : String) (start now later : W) (error : Option Interruption)
      (progress : Option (Progress W))
      → e.initialized ≡ true
      → (finish_generate run e rid start now later error progress).0.initialized ≡ true
  unfolding finish_generate maybe_trigger_policy trigger_policy_check
  finish-initialized e rid start now later error none h = h
  finish-initialized e rid start now later (some (exception m)) (some progress) h = h
  finish-initialized e rid start now later (some cancellation) (some progress) h = h
  finish-initialized e rid start now later none (some progress) h =
      elim (Bool-cases (d.le e.policy_interval_ms (d.sub later e.last_policy_check))) [
        | inl due ↦ rw due h
        | inr early ↦ rw early h
      ]

  mock-initialized :
      (e : ServingEngine W P) (rid prompt : String) (start now : W) (error : Option Interruption)
      → e.initialized ≡ true
      → (mock_outcome run e error (mock_generate text e rid prompt start now)).0.initialized ≡ true
  unfolding mock_generate
  mock-initialized e rid prompt start now none h = h
  mock-initialized e rid prompt start now (some (exception m)) h = h
  mock-initialized e rid prompt start now (some cancellation) h = h

  leave-initialized :
      (e : ServingEngine W P) (rid prompt : String) (start : W) (outputs : List (W × RequestOutput))
      (error : Option Interruption) (now later : W)
      → e.initialized ≡ true
      → (leave_generate run text e rid prompt start outputs error now later).0.initialized ≡ true
  unfolding leave_generate
  leave-initialized e rid prompt start outputs error now later h = elim (Bool-cases (is_mock e)) [
    | inl mock ↦ rw mock (mock-initialized e rid prompt start now error h)
    | inr real ↦
        rw real (
          finish-initialized e rid start now later error (take_outputs start outputs no_progress) h)
  ]

  close-initialized :
      (s : Server W P) (rid : String) (req : GenerateRequest) (now : W) (o : Outcome W)
      → s.engine.initialized ≡ true
      → (close_request round_2 s rid req now o).0.engine.initialized ≡ true
  unfolding close_request
  close-initialized s rid req now (returned r) h = h
  close-initialized s rid req now (raised m) h = h
  close-initialized s rid req now cancelled h = h

  handle-initialized :
      (s : Server W P) (e : Event W)
      → s.engine.initialized ≡ true
      → (handle text round_2 run s e).engine.initialized ≡ true
  unfolding handle accept_request begin_request register finish_request
  handle-initialized s (accept req fresh now) h = h
  handle-initialized s (begin rid now start) h = h
  handle-initialized s (finish rid req v) h =
      let left =
        leave_generate run text s.engine rid req.prompt v.start v.outputs v.error v.now v.later in
      close-initialized (record s { engine = left.0 }) rid req v.closed_at left.1
        (leave-initialized s.engine rid req.prompt v.start v.outputs v.error v.now v.later h)

  handle_all-initialized :
      (s : Server W P) (events : List (Event W))
      → s.engine.initialized ≡ true
      → (handle_all text round_2 run s events).engine.initialized ≡ true
  unfolding handle_all
  handle_all-initialized s [] h = h
  handle_all-initialized s (e ∷ events) h =
      handle_all-initialized (handle text round_2 run s e) events (handle-initialized s e h)

  startup-initialized :
      (vllm_available : Bool) (interval : W) (max_concurrent : ℕ)
      → (startup {P = P} vllm_available interval max_concurrent).engine.initialized ≡ true
  unfolding startup
  startup-initialized true interval max_concurrent = refl
  startup-initialized false interval max_concurrent = refl

  -- After any steps of a server that `lifespan` has started, `generate` of its engine only registers the
  -- request before it waits.
  enter_generate-register :
      (vllm_available : Bool) (interval : W) (max_concurrent : ℕ) (events : List (Event W))
      (built : Bool) (rid : String) (start : W)
      → let e =
          (handle_all text round_2 run
            (startup vllm_available interval max_concurrent)
            events).engine in
        enter_generate built e (some rid) rid start ≡ some (register e (some rid) rid start)
  unfolding enter_generate
  enter_generate-register vllm_available interval max_concurrent events built rid start =
      let s = startup vllm_available interval max_concurrent in
      let e = (handle_all text round_2 run s events).engine in
      ap (λ o. registered o (some rid) rid start)
        (if_true e.initialized (some e) (initialize built e) (
          handle_all-initialized s events
            (startup-initialized vllm_available interval max_concurrent)))
