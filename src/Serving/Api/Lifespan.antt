-- ===== src/Serving/Api/Lifespan.antt =====
-- src/serving/api_server.py: `lifespan`, the sequences of steps that the endpoints take, and the endpoints that
-- only report.
use multie_layer_kache.Prelude.{
  ℕ, ◌≡◌, refl, ap, String, Bool, true, false, Option, none, some, List, [], ◌∷◌, inl, inr,
  Bool-cases,
}
use multie_layer_kache.Prelude.Floats.{Double}
use multie_layer_kache.Serving.Router.{Text}
use multie_layer_kache.Serving.Requests.{init, get_queue_depth, get_active_count}
use multie_layer_kache.Serving.Outputs.{
  Outcome, returned, raised, cancelled, Interruption, exception, cancellation, RequestOutput,
  Progress, no_progress, take_outputs,
}
use multie_layer_kache.Serving.Memory.{GpuMemory, get_gpu_memory_stats}
use multie_layer_kache.Serving.Generation.{
  ServingEngine, new_engine, with_engine, maybe_trigger_policy, trigger_policy_check, register,
  mock_outcome, leave_generate, mock_generate, finish_generate, is_mock,
}
use multie_layer_kache.Serving.Api.{
  Server, GenerateRequest, Service, accept_request, begin_request, close_request, finish_request,
}

-- the dictionary of `health`
pub record Health (W : Type 0) : Type 0 where
  pub engine_ready : Bool
  pub queue_depth : ℕ
  pub active_requests : ℕ
  pub memory : Option (GpuMemory W)

-- what `policy_override` answers: the name of the policy, or status 503
pub data Override : Type 0 where
  override_applied : String → Override
  unavailable : Override

module _ {W P : Type 0} ⦃d : Double W⦄ where
  -- what the server is when it starts to serve: the engine gets no policy engine, and `_policy_engine` is
  -- never assigned; where `initialize` raises, the server does not start
  unfoldable pub startup : Bool → W → ℕ → Server W P
  unfolding init
  startup vllm_available interval max_concurrent = record {
    engine = with_engine (new_engine vllm_available none interval);
    handler = init max_concurrent;
    policy_engine = none;
    metrics = record { active_requests = 0; queue_depth = 0; successes = []; errors = [] };
  }

  unfoldable pub policy_override : Server W P → String → Override
  policy_override s policy_name = elim s.policy_engine [
    | none ↦ unavailable
    | some p ↦ override_applied policy_name
  ]

  -- `none` is the server before `lifespan` has run
  unfoldable pub health : Option (Server W P) → Option (W × W) → Option (W × W) → Health W
  unfolding get_queue_depth get_active_count get_gpu_memory_stats
  health none info vm = record {
    engine_ready = false;
    queue_depth = 0;
    active_requests = 0;
    memory = none;
  }
  health (some s) info vm = record {
    engine_ready = s.engine.initialized;
    queue_depth = get_queue_depth s.handler;
    active_requests = get_active_count s.handler;
    memory = some (get_gpu_memory_stats info vm);
  }

-- `accept` has the request, what `uuid4` gives, and the clock; the others have the id of the request.
pub data Event (W : Type 0) : Type 0 where
  accept : GenerateRequest → String → W → Event W
  begin : String → W → W → Event W
  finish : String → GenerateRequest → Service W → Event W

module _ {W P : Type 0} ⦃d : Double W⦄ (text : Text) (round_2 : W → W) (run : P → P) where
  unfoldable pub handle : Server W P → Event W → Server W P
  unfolding accept_request begin_request finish_request
  handle s (accept req fresh now) = (accept_request text s req fresh now).0
  handle s (begin rid now start) = begin_request s rid now start
  handle s (finish rid req v) = (finish_request text round_2 run s rid req v).0

  unfoldable pub handle_all : Server W P → List (Event W) → Server W P
  unfolding handle
  handle_all s [] = s
  handle_all s (e ∷ events) = handle_all (handle s e) events

  finish-policy :
      (e : ServingEngine W P) (rid : String) (start now later : W) (error : Option Interruption)
      (progress : Option (Progress W))
      → e.policy_engine ≡ none
      → (finish_generate run e rid start now later error progress).0.policy_engine ≡ none
  unfolding finish_generate maybe_trigger_policy trigger_policy_check
  finish-policy e rid start now later error none h = h
  finish-policy e rid start now later (some (exception m)) (some progress) h = h
  finish-policy e rid start now later (some cancellation) (some progress) h = h
  finish-policy e rid start now later none (some progress) h =
      elim (Bool-cases (d.le e.policy_interval_ms (d.sub later e.last_policy_check))) [
        | inl due ↦ rw (due, h) refl
        | inr early ↦ rw early h
      ]

  mock-policy :
      (e : ServingEngine W P) (rid prompt : String) (start now : W) (error : Option Interruption)
      → e.policy_engine ≡ none
      → (mock_outcome run e error (mock_generate text e rid prompt start now)).0.policy_engine
        ≡ none
  unfolding mock_generate
  mock-policy e rid prompt start now none h = h
  mock-policy e rid prompt start now (some (exception m)) h = h
  mock-policy e rid prompt start now (some cancellation) h = h

  leave-policy :
      (e : ServingEngine W P) (rid prompt : String) (start : W) (outputs : List (W × RequestOutput))
      (error : Option Interruption) (now later : W)
      → e.policy_engine ≡ none
      → (leave_generate run text e rid prompt start outputs error now later).0.policy_engine ≡ none
  unfolding leave_generate mock_generate
  leave-policy e rid prompt start outputs error now later h = elim (Bool-cases (is_mock e)) [
    | inl mock ↦ rw mock (mock-policy e rid prompt start now error h)
    | inr real ↦
        rw real
          (finish-policy e rid start now later error (take_outputs start outputs no_progress) h)
  ]

  -- neither the server nor its engine has a policy engine
  abbrev NoPolicy : Server W P → Type 0
  NoPolicy s = (s.policy_engine ≡ none) × (s.engine.policy_engine ≡ none)

  close-NoPolicy :
      (s : Server W P) (rid : String) (req : GenerateRequest) (now : W) (o : Outcome W)
      → NoPolicy s
      → NoPolicy (close_request round_2 s rid req now o).0
  unfolding close_request
  close-NoPolicy s rid req now (returned r) h = h
  close-NoPolicy s rid req now (raised m) h = h
  close-NoPolicy s rid req now cancelled h = h

  startup-NoPolicy :
      (vllm_available : Bool) (interval : W) (max_concurrent : ℕ)
      → NoPolicy (startup vllm_available interval max_concurrent)
  unfolding startup
  startup-NoPolicy true interval max_concurrent = (refl, refl)
  startup-NoPolicy false interval max_concurrent = (refl, refl)

  override_none :
      (s : Server W P) (name : String)
      → s.policy_engine ≡ none
      → policy_override s name ≡ unavailable
  unfolding policy_override
  override_none s name h = rw h refl

  trigger_none : (e : ServingEngine W P) → e.policy_engine ≡ none → trigger_policy_check run e ≡ e
  unfolding trigger_policy_check
  trigger_none e h =
      let same : (elim e.policy_engine [ none ↦ none | some p ↦ some (run p) ]) ≡ e.policy_engine =
        rw h refl in
      ap (λ p. record e { policy_engine = p }) same

  handle-NoPolicy : (s : Server W P) (e : Event W) → NoPolicy s → NoPolicy (handle s e)
  unfolding handle register begin_request
  handle-NoPolicy s (accept req fresh now) h = h
  handle-NoPolicy s (begin rid now start) h = h
  handle-NoPolicy s (finish rid req v) h =
      let left =
        leave_generate run text s.engine rid req.prompt v.start v.outputs v.error v.now v.later in
      close-NoPolicy (record s { engine = left.0 }) rid req v.closed_at left.1
        (h.0, leave-policy s.engine rid req.prompt v.start v.outputs v.error v.now v.later h.1)

  handle_all-NoPolicy :
      (s : Server W P) (events : List (Event W)) → NoPolicy s → NoPolicy (handle_all s events)
  unfolding handle_all
  handle_all-NoPolicy s [] h = h
  handle_all-NoPolicy s (e ∷ events) h =
      handle_all-NoPolicy (handle s e) events (handle-NoPolicy s e h)

  -- After any sequence of steps of a server that `lifespan` has started, `policy_override` answers with
  -- status 503, and a policy check of the engine runs no cycle.
  pub policy_override_unavailable :
      (vllm_available : Bool) (interval : W) (max_concurrent : ℕ) (events : List (Event W))
      (name : String)
      → let s = handle_all (startup vllm_available interval max_concurrent) events in
        (policy_override s name ≡ unavailable) × (trigger_policy_check run s.engine ≡ s.engine)
  unfolding policy_override trigger_policy_check
  policy_override_unavailable vllm_available interval max_concurrent events name =
      let s = handle_all (startup vllm_available interval max_concurrent) events in
      let h =
        handle_all-NoPolicy (startup vllm_available interval max_concurrent) events
          (startup-NoPolicy vllm_available interval max_concurrent) in
      (override_none s name h.0, trigger_none s.engine h.1)
