-- ===== src/Serving/Requests/Lifecycle.antt =====
-- The life of a request: in flight while it is queued or in progress, then archived with its end.
use multie_layer_kache.Prelude.{
  ◌+◌, ◌≤◌, String, ◌≡◌, ◌∙◌, refl, sym, subst, Bool, true, false, Option, none, some, List, [],
  ◌∷◌, arith, ◌==◌, string_key, if◌then◌else◌, length, All, inl, inr, Option-cases, equal_self,
  or_default,
}
use multie_layer_kache.Prelude.Dict
use multie_layer_kache.Prelude.Dict.{
  Dict, get-remove, put-Distinct, remove-Distinct, All-put, All-remove, All-modify, get-some-In,
}
use multie_layer_kache.Prelude.Members.{Distinct, All-In}
use multie_layer_kache.Serving.Router.{Text, TaskMetadata, non_empty}
use multie_layer_kache.Serving.Requests.{
  RequestStatus, queued, in_progress, completed, failed, cancelled, RequestRecord, RequestHandler,
  submit, mark_started, started, mark_completed, finished, final_status, archived, last_with,
  lookup, get_queue_depth, max_completed,
}
use multie_layer_kache.Serving.Requests.Lists.{
  All-archived, length-archived-le, last_with-archived, length-remove,
}
use multie_layer_kache.Serving.Requests.Calls.{Call, enter, begin_work, complete, serve, serve_all}

abbrev is_live : RequestStatus → Bool
is_live queued = true
is_live in_progress = true
is_live completed = false
is_live failed = false
is_live cancelled = false

abbrev is_final : RequestStatus → Bool
is_final completed = true
is_final failed = true
is_final queued = false
is_final in_progress = false
is_final cancelled = false

-- an entry in flight, under its own id
abbrev IsInFlight : {W : Type 0} → String × RequestRecord W → Type 0
IsInFlight e = (e.1.request_id ≡ e.0) × (is_live e.1.status ≡ true)

abbrev IsArchived : {W : Type 0} → RequestRecord W → Type 0
IsArchived r = is_final r.status ≡ true

pub record IsValid {W : Type 0} (h : RequestHandler W) : Type 0 where
  pub distinct : Distinct (Dict.keys h.records)
  pub in_flight : All IsInFlight h.records
  pub finals : All IsArchived h.archive
  pub bounded : length h.archive ≤ max_completed

final_status-IsArchived : (error : Option String) → is_final (final_status error) ≡ true
final_status-IsArchived error = ground arith

module _ {W : Type 0} where
  pub submit-IsValid :
      (text : Text) (fresh : String) (now : W) (h : RequestHandler W) (prompt : String)
      (m : Option TaskMetadata) (request_id : Option String)
      → IsValid h
      → IsValid (submit text fresh now h prompt m request_id).0
  unfolding submit
  submit-IsValid text fresh now h prompt m request_id v = record {
    distinct = put-Distinct (or_default (non_empty request_id) fresh) _ h.records v.distinct;
    in_flight =
        All-put IsInFlight (or_default (non_empty request_id) fresh) _ h.records (refl, refl)
          v.in_flight;
    finals = v.finals;
    bounded = v.bounded;
  }

  pub mark_started-IsValid :
      (now : W) (h : RequestHandler W) (request_id : String)
      → IsValid h
      → IsValid (mark_started now h request_id)
  unfolding mark_started
  mark_started-IsValid now h request_id v = record {
    distinct =
        subst Distinct (sym (Dict.keys-modify request_id (started now) h.records)) v.distinct;
    in_flight =
        All-modify IsInFlight request_id (started now) h.records (λ i r live. (live.0, refl))
          v.in_flight;
    finals = v.finals;
    bounded = v.bounded;
  }

  pub mark_completed-IsValid :
      (now : W) (h : RequestHandler W) (request_id : String) (error : Option String)
      → IsValid h
      → IsValid (mark_completed now h request_id error).0
  unfolding mark_completed
  mark_completed-IsValid now h request_id error v =
      elim (Option-cases (Dict.get request_id h.records)) [
        | inl e ↦ rw (e, mark_completed) v
        | inr (rec, e) ↦
            rw (e, mark_completed)
              (record {
                distinct = remove-Distinct request_id h.records v.distinct;
                in_flight = All-remove IsInFlight request_id h.records v.in_flight;
                finals =
                    All-archived IsArchived (finished now error rec) h.archive v.finals
                      (final_status-IsArchived error);
                bounded = length-archived-le (finished now error rec) h.archive v.bounded;
              })
      ]

  serve-IsValid :
      (text : Text) (h : RequestHandler W) (c : Call W) → IsValid h → IsValid (serve text h c)
  unfolding serve
  serve-IsValid text h (enter fresh now prompt m i) v = submit-IsValid text fresh now h prompt m i v
  serve-IsValid text h (begin_work now i) v = mark_started-IsValid now h i v
  serve-IsValid text h (complete now i error) v = mark_completed-IsValid now h i error v

  -- Any sequence of calls keeps the registry valid: each request in flight stands under its own id, no
  -- id twice, and is queued or in progress; each archived one is completed or failed; and the archive
  -- holds at most 10000.
  pub serve_all-IsValid :
      (text : Text) (h : RequestHandler W) (calls : List (Call W))
      → IsValid h
      → IsValid (serve_all text h calls)
  unfolding serve_all
  serve_all-IsValid text h [] v = v
  serve_all-IsValid text h (c ∷ calls) v =
      serve_all-IsValid text (serve text h c) calls (serve-IsValid text h c v)

  own_id :
      (h : RequestHandler W) (i : String) (rec : RequestRecord W)
      → IsValid h
      → Dict.get i h.records ≡ some rec
      → rec.request_id ≡ i
  own_id h i rec v found =
      (All-In IsInFlight h.records (i, rec) v.in_flight (get-some-In i rec h.records found)).0

  archived_found :
      (now : W) (h : RequestHandler W) (i : String) (error : Option String) (rec : RequestRecord W)
      → rec.request_id ≡ i
      → last_with i (archived (finished now error rec) h.archive) ≡ some (finished now error rec)
  archived_found now h i error rec own =
      subst
        (λ k.
          last_with k (archived (finished now error rec) h.archive) ≡ some (finished now error rec))
        own (last_with-archived (finished now error rec) h.archive)

  -- the registry that a completion leaves
  abbrev closed : W → RequestHandler W → String → Option String → RequestRecord W → RequestHandler W
  closed now h i error rec = record h {
    records = Dict.remove i h.records;
    archive = archived (finished now error rec) h.archive;
  }

  mark_completed-closed :
      (now : W) (h : RequestHandler W) (i : String) (error : Option String) (rec : RequestRecord W)
      → Dict.get i h.records ≡ some rec
      → mark_completed now h i error ≡ (closed now h i error rec, some (finished now error rec))
  unfolding mark_completed
  mark_completed-closed now h i error rec found = rw (found, mark_completed) refl

  lookup-closed :
      (now : W) (h : RequestHandler W) (i : String) (error : Option String) (rec : RequestRecord W)
      → IsValid h
      → Dict.get i h.records ≡ some rec
      → lookup (closed now h i error rec) i ≡ some (finished now error rec)
  unfolding lookup
  lookup-closed now h i error rec v found =
      let gone : Dict.get i (Dict.remove i h.records) ≡ none =
        get-remove i i h.records ∙ rw (equal_self i) refl in
      let found_there = archived_found now h i error rec (own_id h i rec v found) in
      rw (gone, lookup) found_there

  -- On a valid registry, completing a request in flight returns its record with the time, the error and
  -- the status FAILED for an error that is not empty and COMPLETED otherwise; right after the
  -- call `get_status` reports on that very record, the other requests in flight are as they were, and the
  -- queue is shorter by one.
  pub mark_completed_lem :
      (now : W) (h : RequestHandler W) (i : String) (error : Option String) (rec : RequestRecord W)
      → IsValid h
      → Dict.get i h.records ≡ some rec
      → let answer = mark_completed now h i error in
        (answer.1 ≡ some (finished now error rec))
        × (lookup answer.0 i ≡ some (finished now error rec))
        × ((j : String)
            → Dict.get j answer.0.records ≡ (if i == j then none else Dict.get j h.records))
        × (get_queue_depth answer.0 + 1 ≡ get_queue_depth h)
  unfolding get_queue_depth
  mark_completed_lem now h i error rec v found =
      let Result : RequestHandler W × Option (RequestRecord W) → Type 0 = λ answer.
        (answer.1 ≡ some (finished now error rec))
        × (lookup answer.0 i ≡ some (finished now error rec))
        × ((j : String)
            → Dict.get j answer.0.records ≡ (if i == j then none else Dict.get j h.records))
        × (get_queue_depth answer.0 + 1 ≡ get_queue_depth h) in
      subst Result (sym (mark_completed-closed now h i error rec found)) (
        refl,
        lookup-closed now h i error rec v found,
        (λ j. get-remove i j h.records),
        length-remove i rec h.records v.distinct found,
      )
