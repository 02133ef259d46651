-- ===== src/Serving/Api/Completion.antt =====
-- The way of a request through `generate`, with the steps of other requests in between.
use multie_layer_kache.Prelude.{
  ◌≡◌, ◌∙◌, refl, String, false, Option, none, some, List, [], ◌∷◌, ◌==◌, string_key, inl, inr,
  Option-cases, All, or_default, equal_self,
}
use multie_layer_kache.Prelude.Dict
use multie_layer_kache.Prelude.Dict.{Dict, get-put, get-remove, get-modify}
use multie_layer_kache.Prelude.Floats.{Double}
use multie_layer_kache.Serving.Router.{Text, classify, non_empty}
use multie_layer_kache.Serving.Requests.{
  RequestHandler, RequestRecord, RequestStatus, completed, submit, mark_started, started,
  mark_completed, finished, final_status, lookup, fresh_record,
}
use multie_layer_kache.Serving.Requests.Lifecycle.{
  IsValid, submit-IsValid, mark_started-IsValid, mark_completed-IsValid, mark_completed_lem,
}
use multie_layer_kache.Serving.Outputs.{Outcome, returned, raised, cancelled}
use multie_layer_kache.Serving.Generation.{leave_generate}
use multie_layer_kache.Serving.Api.{
  Server, GenerateRequest, Service, Answer, answered, http_error, aborted, metadata_of,
  accept_request, begin_request, close_request, finish_request,
}
use multie_layer_kache.Serving.Api.Lifespan.{Event, accept, begin, finish, handle, handle_all}

-- the id of a request: its own, or what `uuid4` gives
abbrev pub rid_for : GenerateRequest → String → String
rid_for req fresh = or_default (non_empty req.request_id) fresh

-- the id that a step is about
abbrev pub event_id : {W : Type 0} → Event W → String
event_id (accept req fresh now) = rid_for req fresh
event_id (begin rid now start) = rid
event_id (finish rid req v) = rid

abbrev pub Avoids : {W : Type 0} → String → Event W → Type 0
Avoids rid e = (event_id e == rid) ≡ false

module _ {W : Type 0} where
  get-mark_completed :
      (now : W) (h : RequestHandler W) (i j : String) (error : Option String)
      → (i == j) ≡ false
      → Dict.get j (mark_completed now h i error).0.records ≡ Dict.get j h.records
  unfolding mark_completed
  get-mark_completed now h i j error other = elim (Option-cases (Dict.get i h.records)) [
    | inl e ↦ rw (e, mark_completed) refl
    | inr (rec, e) ↦ rw (e, mark_completed) (get-remove i j h.records ∙ rw other refl)
  ]

module _ {W : Type 0} where
  -- the request has left the queue, and the registry reports that it began and ended at these times, with
  -- this status
  abbrev pub Closed : String → W → W → RequestStatus → RequestHandler W → Type 0
  Closed rid begun ended status h =
      (Dict.get rid h.records ≡ none)
      × ((rec : RequestRecord W) × (lookup h rid ≡ some rec)
          × (rec.status ≡ status)
          × (rec.started_at ≡ some begun)
          × (rec.completed_at ≡ some ended))

  -- the request `rec` after an answer to its caller
  abbrev pub Settled : String → RequestRecord W → W → W → Answer W → RequestHandler W → Type 0
  Settled rid rec begun ended (answered r) h = Closed rid begun ended completed h
  Settled rid rec begun ended (http_error code message) h =
      (code ≡ 500) × Closed rid begun ended (final_status (some message)) h
  Settled rid rec begun ended aborted h = Dict.get rid h.records ≡ some (started begun rec)

module _ {W P : Type 0} ⦃d : Double W⦄ (text : Text) (round_2 : W → W) (run : P → P) where
  -- the registry is valid and has this entry for a request
  Holds : String → Option (RequestRecord W) → Server W P → Type 0
  Holds rid entry s = IsValid s.handler × (Dict.get rid s.handler.records ≡ entry)

  close-Holds :
      (s : Server W P) (i rid : String) (req : GenerateRequest) (now : W) (o : Outcome W)
      (entry : Option (RequestRecord W))
      → (i == rid) ≡ false
      → Holds rid entry s
      → Holds rid entry (close_request round_2 s i req now o).0
  unfolding Holds close_request
  close-Holds s i rid req now (returned r) entry other (v, h) = (
    mark_completed-IsValid now s.handler i none v,
    get-mark_completed now s.handler i rid none other ∙ h,
  )
  close-Holds s i rid req now (raised m) entry other (v, h) = (
    mark_completed-IsValid now s.handler i (some m) v,
    get-mark_completed now s.handler i rid (some m) other ∙ h,
  )
  close-Holds s i rid req now cancelled entry other h = h

  handle-Holds :
      (s : Server W P) (e : Event W) (rid : String) (entry : Option (RequestRecord W))
      → Avoids rid e
      → Holds rid entry s
      → Holds rid entry (handle text round_2 run s e)
  unfolding Holds handle accept_request submit begin_request mark_started finish_request
  handle-Holds s (accept req fresh now) rid entry other (v, h) = (
    submit-IsValid text fresh now s.handler req.prompt (metadata_of req) req.request_id v,
    get-put (or_default (non_empty req.request_id) fresh) rid _ s.handler.records ∙ rw other h,
  )
  handle-Holds s (begin i now start) rid entry other (v, h) = (
    mark_started-IsValid now s.handler i v,
    get-modify i rid (started now) s.handler.records ∙ rw other h,
  )
  handle-Holds s (finish i req v') rid entry other h =
      let left =
        leave_generate run text s.engine i req.prompt v'.start v'.outputs v'.error v'.now
          v'.later in
      close-Holds (record s { engine = left.0 }) i rid req v'.closed_at left.1 entry other h

  handle_all-Holds :
      (s : Server W P) (events : List (Event W)) (rid : String) (entry : Option (RequestRecord W))
      → All (Avoids rid) events
      → Holds rid entry s
      → Holds rid entry (handle_all text round_2 run s events)
  unfolding handle_all
  handle_all-Holds s [] rid entry other h = h
  handle_all-Holds s (e ∷ events) rid entry (other, others) h =
      handle_all-Holds (handle text round_2 run s e) events rid entry others
        (handle-Holds s e rid entry other h)

  accept-Holds :
      (s : Server W P) (req : GenerateRequest) (fresh : String) (now : W)
      → IsValid s.handler
      → Holds
          (rid_for req fresh)
          (some (
            fresh_record
              (rid_for req fresh)
              req.prompt
              (classify text req.prompt (metadata_of req))
              now))
          (handle text round_2 run s (accept req fresh now))
  unfolding Holds handle accept_request submit
  accept-Holds s req fresh now v = (
    submit-IsValid text fresh now s.handler req.prompt (metadata_of req) req.request_id v,
    get-put (rid_for req fresh) (rid_for req fresh) _ s.handler.records
        ∙ rw (equal_self (rid_for req fresh)) refl,
  )

  begin-Holds :
      (s : Server W P) (rid : String) (rec : RequestRecord W) (now start : W)
      → Holds rid (some rec) s
      → Holds rid (some (started now rec)) (handle text round_2 run s (begin rid now start))
  unfolding Holds handle begin_request mark_started
  begin-Holds s rid rec now start (v, h) = (
    mark_started-IsValid now s.handler rid v,
    get-modify rid rid (started now) s.handler.records ∙ rw (equal_self rid, h) refl,
  )

  close-Settled :
      (s : Server W P) (rid : String) (rec : RequestRecord W) (req : GenerateRequest)
      (begun now : W) (o : Outcome W)
      → Holds rid (some (started begun rec)) s
      → let answer = close_request round_2 s rid req now o in
        Settled rid rec begun now answer.1 answer.0.handler
  unfolding Holds close_request
  close-Settled s rid rec req begun now (returned r) (v, h) =
      let all = mark_completed_lem now s.handler rid none (started begun rec) v h in
      (
        all.2 rid ∙ rw (equal_self rid) refl,
        (finished now none (started begun rec), all.1, refl, refl, refl),
      )
  close-Settled s rid rec req begun now (raised m) (v, h) =
      let all = mark_completed_lem now s.handler rid (some m) (started begun rec) v h in
      (
        refl,
        (
          all.2 rid ∙ rw (equal_self rid) refl,
          (finished now (some m) (started begun rec), all.1, refl, refl, refl),
        ),
      )
  close-Settled s rid rec req begun now cancelled (v, h) = h

  finish-Settled :
      (s : Server W P) (rid : String) (rec : RequestRecord W) (req : GenerateRequest) (begun : W)
      (v : Service W)
      → Holds rid (some (started begun rec)) s
      → let answer = finish_request text round_2 run s rid req v in
        Settled rid rec begun v.closed_at answer.1 answer.0.handler
  unfolding finish_request Holds
  finish-Settled s rid rec req begun v h =
      let left =
        leave_generate run text s.engine rid req.prompt v.start v.outputs v.error v.now v.later in
      close-Settled (record s { engine = left.0 }) rid rec req begun v.closed_at left.1 h

  -- A request that is accepted, on a valid registry, where no other step before its end has its id,
  -- whatever else other requests do before and after the engine begins with it: once its call of the
  -- engine has ended, with a result or an exception, the request is no longer in the queue, and
  -- `get_status` reports on it, with the time at which it began, the time at which it ended, and the
  -- status COMPLETED where its caller is answered, and where the caller gets status 500, FAILED, or
  -- COMPLETED if the message of the exception is empty. Where the call is cancelled, the request is in
  -- the queue as it was.
  pub generate_completes :
      (s : Server W P) (req : GenerateRequest) (fresh : String) (now begun start : W)
      (others1 others2 : List (Event W)) (v : Service W)
      → IsValid s.handler
      → All (Avoids (rid_for req fresh)) others1
      → All (Avoids (rid_for req fresh)) others2
      → let rid = rid_for req fresh in
        let accepted =
          handle_all text round_2 run (handle text round_2 run s (accept req fresh now)) others1 in
        let running =
          handle_all text round_2 run
            (handle text round_2 run accepted (begin rid begun start))
            others2 in
        let answer = finish_request text round_2 run running rid req v in
        Settled rid
          (fresh_record rid req.prompt (classify text req.prompt (metadata_of req)) now)
          begun
          v.closed_at
          answer.1
          answer.0.handler
  generate_completes s req fresh now begun start others1 others2 v valid avoid1 avoid2 =
      let rid = rid_for req fresh in
      let rec = fresh_record rid req.prompt (classify text req.prompt (metadata_of req)) now in
      let first = handle text round_2 run s (accept req fresh now) in
      let accepted = handle_all text round_2 run first others1 in
      let begun_one = handle text round_2 run accepted (begin rid begun start) in
      let running = handle_all text round_2 run begun_one others2 in
      let waiting =
        handle_all-Holds first others1 rid (some rec) avoid1 (accept-Holds s req fresh now valid) in
      let going =
        handle_all-Holds begun_one others2 rid (some (started begun rec)) avoid2
          (begin-Holds accepted rid rec begun start waiting) in
      finish-Settled running rid rec req begun v going
