-- ===== src/Tests/Serving.antt =====
-- The theorems on the requests at two of them.
use multie_layer_kache.Prelude.{
  String, ◌+◌, ◌≡◌, refl, inl, inr, false, none, some, List, [], ◌∷◌, arith, eq_iff, ◌==◌,
  string_key, if◌then◌else◌,
}
use multie_layer_kache.Prelude.Dict
use multie_layer_kache.Prelude.Fixed.{Fixed, pos}
use multie_layer_kache.Telemetry.Schema.{dialogue, code}
use multie_layer_kache.Serving.Router.{Text}
use multie_layer_kache.Serving.Requests.{
  RequestRecord, RequestHandler, queued, in_progress, finished, mark_completed, lookup,
  get_queue_depth,
}
use multie_layer_kache.Serving.Requests.Calls.{Call, enter, begin_work, complete, serve_all}
use multie_layer_kache.Serving.Requests.Lifecycle.{IsValid, serve_all-IsValid, mark_completed_lem}

abbrev no_text : Text
no_text = record { search = λ p s. false; prefix = λ n s. s; word_count = λ s. 3 }

abbrev first_request : RequestRecord Fixed
first_request = record {
  request_id = "a";
  prompt = "hello";
  workload_type = dialogue;
  submitted_at = pos 1;
  started_at = none;
  completed_at = none;
  status = queued;
  error = none;
}

abbrev second_request : RequestRecord Fixed
second_request = record {
  request_id = "b";
  prompt = "def f";
  workload_type = code;
  submitted_at = pos 2;
  started_at = some (pos 3);
  completed_at = none;
  status = in_progress;
  error = none;
}

abbrev handler : RequestHandler Fixed
handler = record {
  max_concurrent = 1;
  records = ("a", first_request) ∷ ("b", second_request) ∷ [];
  archive = [];
}

handler-IsValid : IsValid handler
handler-IsValid = record {
  distinct = (
    (λ m. elim m [ inl e ↦ ground (arith, eq_iff "a" "b") | inr r ↦ elim r [ ] ]),
    ((λ m. elim m [ ]), tt),
  );
  in_flight = ((refl, refl), ((refl, refl), tt));
  finals = tt;
  bounded = ground arith;
}

abbrev calls : List (Call Fixed)
calls =
    enter "u" (pos 4) "hi" none none
    ∷ begin_work (pos 5) "u"
    ∷ complete (pos 6) "u" (some "boom")
    ∷ []

serve_all-IsValid_example : IsValid (serve_all no_text handler calls)
serve_all-IsValid_example = serve_all-IsValid no_text handler calls handler-IsValid

mark_completed_lem_example :
    let answer = mark_completed (pos 9) handler "b" none in
    (answer.1 ≡ some (finished (pos 9) none second_request))
    × (lookup answer.0 "b" ≡ some (finished (pos 9) none second_request))
    × ((j : String)
        → Dict.get j answer.0.records ≡ (if "b" == j then none else Dict.get j handler.records))
    × (get_queue_depth answer.0 + 1 ≡ get_queue_depth handler)
unfolding Dict.get
mark_completed_lem_example =
    mark_completed_lem (pos 9) handler "b" none second_request handler-IsValid refl
