-- ===== src/Tests/Service.antt =====
-- The theorems on the server at two requests, one of which the engine ends with an error.
use multie_layer_kache.Prelude.{
  ℕ, ◌+◌, ◌≡◌, refl, String, Bool, true, false, none, some, List, [], ◌∷◌, arith, ◌==◌, string_key,
  if◌then◌else◌,
}
use multie_layer_kache.Prelude.Dict
use multie_layer_kache.Prelude.Fixed.{Fixed, pos, fixed_double}
use multie_layer_kache.Serving.Router.{Text, classify}
use multie_layer_kache.Serving.Requests.{init, fresh_record}
use multie_layer_kache.Serving.Requests.Lifecycle.{IsValid}
use multie_layer_kache.Serving.Outputs.{RequestOutput, CompletionOutput, exception}
use multie_layer_kache.Serving.Generation.{
  ServingEngine, new_engine, with_engine, initialize, register, enter_generate, leave_generate,
  trigger_policy_check,
}
use multie_layer_kache.Serving.Generation.Flight.{is_returned, generate-in_flight}
use multie_layer_kache.Serving.Generation.Stream.{
  stream_generate, texts_of, concat, last_text, stream_generate_lem,
}
use multie_layer_kache.Serving.Api.{Server, GenerateRequest, Service, finish_request}
use multie_layer_kache.Serving.Api.Lifespan.{
  Event, accept, begin, finish, startup, handle, handle_all, policy_override, unavailable,
  policy_override_unavailable,
}
use multie_layer_kache.Serving.Api.Completion.{Settled, generate_completes}

abbrev plain : Text
plain = record { search = λ p s. false; prefix = λ n s. s; word_count = λ s. 1 }

abbrev candidate : String → CompletionOutput
candidate t = record { text = t; finish_reason = none; token_ids = some (7 ∷ []) }

abbrev output : String → Bool → RequestOutput
output t finished = record {
  outputs = candidate t ∷ [];
  finished = finished;
  prompt_token_ids = some (1 ∷ 2 ∷ []);
}

abbrev request : String → GenerateRequest
request name = record { prompt = "hi"; workload_type = none; request_id = some name }

abbrev service : Service Fixed
service = record {
  start = pos 3;
  outputs = (pos 4, output "a" false) ∷ (pos 5, output "ab" true) ∷ [];
  error = none;
  now = pos 6;
  later = pos 7;
  closed_at = pos 8;
}

-- the number of cycles of the policy engine
abbrev count_cycle : ℕ → ℕ
count_cycle n = n + 1

abbrev keep_all : Fixed → Fixed
keep_all x = x

abbrev server : Server Fixed ℕ
server = startup true (pos 50) 8

server-IsValid : IsValid server.handler
unfolding startup init
server-IsValid = record { distinct = tt; in_flight = tt; finals = tt; bounded = ground arith }

abbrev elsewhere : List (Event Fixed)
elsewhere = accept (request "b") "u" (pos 1) ∷ begin "b" (pos 2) (pos 2) ∷ []

abbrev failing : List (Event Fixed)
failing = finish "b" (request "b") (record service { error = some (exception "boom") }) ∷ []

generate_completes_example :
    let accepted =
      handle_all plain keep_all count_cycle
        (handle plain keep_all count_cycle server (accept (request "a") "v" (pos 1)))
        elsewhere in
    let running =
      handle_all plain keep_all count_cycle
        (handle plain keep_all count_cycle accepted (begin "a" (pos 3) (pos 3)))
        failing in
    let answer = finish_request plain keep_all count_cycle running "a" (request "a") service in
    Settled "a"
      (fresh_record "a" "hi" (classify plain "hi" none) (pos 1))
      (pos 3)
      (pos 8)
      answer.1
      answer.0.handler
generate_completes_example =
    generate_completes plain keep_all count_cycle server (request "a") "v" (pos 1) (pos 3) (pos 3)
      elsewhere failing service server-IsValid (refl, (refl, tt)) (refl, tt)

policy_override_unavailable_example :
    let s = handle_all plain keep_all count_cycle (startup true (pos 50) 8) elsewhere in
    (policy_override s "h2o" ≡ unavailable) × (trigger_policy_check count_cycle s.engine ≡ s.engine)
policy_override_unavailable_example =
    policy_override_unavailable plain keep_all count_cycle true (pos 50) 8 elsewhere "h2o"

abbrev engine : ServingEngine Fixed ℕ
engine = new_engine true (some 0) (pos 50)

abbrev entered : ServingEngine Fixed ℕ × String
entered = register (with_engine engine) (some "a") "v" (pos 3)

generate-in_flight_example :
    let answer =
      leave_generate count_cycle plain entered.0 entered.1 "hi"
        (pos 3)
        service.outputs
        (some (exception "boom"))
        (pos 6)
        (pos 7) in
    Dict.get "a" answer.0.in_flight ≡ (
      if entered.1 == "a"
      then if is_returned answer.1 then none else some (pos 3)
      else Dict.get "a" engine.in_flight)
unfolding enter_generate initialize
generate-in_flight_example =
    generate-in_flight count_cycle plain true engine (some "a") "v" "hi" (pos 3) service.outputs
      (some (exception "boom")) (pos 6) (pos 7) "a" entered refl

abbrev streamed : List RequestOutput
streamed = output "a" false ∷ output "ab" true ∷ []

stream_generate_lem_example : concat (stream_generate streamed) ≡ last_text "" (texts_of streamed)
unfolding texts_of
stream_generate_lem_example = stream_generate_lem streamed (("a", refl), (("b", refl), tt))
