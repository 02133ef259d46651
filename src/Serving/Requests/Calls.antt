-- ===== src/Serving/Requests/Calls.antt =====
-- The calls of `RequestHandler`'s methods that change the registry, and runs of them.
use multie_layer_kache.Prelude.{String, Option, List, [], ◌∷◌}
use multie_layer_kache.Serving.Router.{Text, TaskMetadata}
use multie_layer_kache.Serving.Requests.{RequestHandler, submit, mark_started, mark_completed}

-- `enter` has what `uuid4` and the clock give, the prompt, the metadata and the id.
pub data Call (W : Type 0) : Type 0 where
  enter : String → W → String → Option TaskMetadata → Option String → Call W
  begin_work : W → String → Call W
  complete : W → String → Option String → Call W

module _ {W : Type 0} (text : Text) where
  unfoldable pub serve : RequestHandler W → Call W → RequestHandler W
  serve h (enter fresh now prompt task_metadata request_id) =
      (submit text fresh now h prompt task_metadata request_id).0
  serve h (begin_work now request_id) = mark_started now h request_id
  serve h (complete now request_id error) = (mark_completed now h request_id error).0

  unfoldable pub serve_all : RequestHandler W → List (Call W) → RequestHandler W
  serve_all h [] = h
  serve_all h (c ∷ calls) = serve_all (serve h c) calls
