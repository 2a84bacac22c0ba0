-- ===== src/Server/Serve.antt =====
-- `decode` and `ServeHTTP` of services/containerd-runtime/main.go: which operation a request becomes, under
-- which lock, and what is answered.
-- The counters are in Counting; the request log is left out.
pub mod Guard
pub mod Laws
use sandcube.Prelude.{
  ℕ, String, str_eq, Bool, true, false, not, ◌&&◌, ◌||◌, Option, none, some, List, [], ◌∷◌, ltb,
  length, take, ◌==◌, if◌then◌else◌,
}
use sandcube.Prelude.Int.{ℤ, pos}
use sandcube.Exec.{Err, Result, ok, err, Exec, message}
use sandcube.Paths.{Bytes, bytes, slash, split, same, trim_left, trim_right, is_empty}
use sandcube.Runtime.Types.{Config, ExecRequest}
use sandcube.Files.Access.{FileRequest}
use sandcube.Server.Limits.{
  is_valid_id, is_managed_reference, default_config, is_rejected_config, with_default_timeout,
  is_rejected_exec, is_rejected_process,
}
use sandcube.Server.Replies.{Code, classify}
use sandcube.Server.Handler.{
  Answer, Backend, Body, Event, Handler, ImageRequest, Json, Key, Method, Operation, Part, Request,
  Sent, Serving, Value, acquire, acquired, answering, as_object, as_value, bad_request, change_file,
  create, deadline, decoding, delete, delete_image, deleted, exec, failed, file_part, has_suffix,
  health, healthy, image_deleted, image_part, import_image, inspect, inspect_image, inventory,
  inventory_part, is_post, kill_process, lifecycle_key, limit_body, list_processes, locking,
  method_delete, method_get, method_other, method_post, metrics, metrics_part, parts_of, path_is,
  prepare_exec, prepare_part, process_logs, process_part, ran, reconcile, reconcile_part, refused,
  refusing, release, released, released_by, replied, requiring, returned, sandbox_key, show_process,
  start, start_process, stop, unknown, value, wait_exec,
}

module _ {W J : Type 0} (json : Json) (b : Backend W J) where
  -- `decode`, with the limit of the body.
  unfoldable pub decode : {A : Type 0} → ℕ → (Body → Result A) → Bytes → Result A
  decode limit read body =
      let shown = limit_body limit body in
      elim (read shown) [
        | ok a ↦ if json.at_end shown then ok a else err (message "expected one JSON object")
        | err e ↦ err e
      ]

  abbrev small : ℕ
  small = 65536

  abbrev large : ℕ
  large = 25165824

  abbrev pub perform : Operation → Handler W J
  perform op = answering 200 as_value op (b.perform op)

  unfoldable pub serve_part : Part → Operation → Handler W J
  serve_part part op = requiring (b.has part) (perform op) (refusing 503 Code.unavailable)

  unfoldable pub serve_reconcile : Handler W J
  serve_reconcile =
      requiring (b.has reconcile_part) (locking lifecycle_key (perform reconcile))
        (refusing 503 Code.unavailable)

  unfoldable pub image_operation : Bytes → ImageRequest → Handler W J
  image_operation verb req =
      if same verb (bytes "import")
      then perform (import_image req)
      else if same verb (bytes "inspect")
      then perform (inspect_image req.reference)
      else if same verb (bytes "delete")
      then answering 200 (as_object image_deleted) (delete_image req.reference)
          (b.perform (delete_image req.reference))
      else unknown

  unfoldable pub serve_images : Request → Bytes → Handler W J
  serve_images r verb =
      requiring (b.has image_part)
        (decoding (decode small json.image_request r.body) λ req.
          if is_managed_reference req.reference then image_operation verb req else bad_request)
        (refusing 503 Code.images_unavailable)

  unfoldable pub serve_create : Request → Handler W J
  serve_create r = decoding (decode small (json.config default_config) r.body) λ c.
      if is_rejected_config c
      then bad_request
      else locking (sandbox_key (bytes c.id))
          (answering 201 as_value (create c) (b.perform (create c)))

  unfoldable pub serve_files : Request → Bytes → Handler W J
  serve_files r id =
      requiring (b.has file_part)
        (decoding (decode large json.file_request r.body) λ req. perform (change_file id req))
        (refusing 503 Code.files_unavailable)

  unfoldable pub serve_start_process : Request → Bytes → Handler W J
  serve_start_process r id = decoding (decode small json.exec_request r.body) λ req.
      if is_rejected_process req
      then bad_request
      else answering 202 as_value (start_process id req) (b.perform (start_process id req))

  -- The routes behind `processes`, by the rest of the path.
  unfoldable pub process_route : Request → Method → Bytes → List Bytes → Handler W J
  process_route r method_post id [] = serve_start_process r id
  process_route r method_get id [] = perform (list_processes id)
  process_route r method_get id (pid ∷ []) = perform (show_process id pid)
  process_route r method_get id (pid ∷ (verb ∷ [])) =
      if same verb (bytes "logs") then perform (process_logs id pid) else unknown
  process_route r method_post id (pid ∷ (verb ∷ [])) =
      if same verb (bytes "kill") then perform (kill_process id pid) else unknown
  process_route r _ id _ = unknown

  unfoldable pub serve_processes : Request → Bytes → List Bytes → Handler W J
  serve_processes r id rest =
      requiring (b.has process_part) (process_route r r.method id rest)
        (refusing 503 Code.processes_unavailable)

  -- The wait, where the preparation has succeeded.
  abbrev pub after_prepare : Bytes → ExecRequest → Result (Exec W J) → Handler W J
  after_prepare id req (ok wait) = answering 200 as_value (wait_exec id req) wait
  after_prepare id req (err e) = λ s. (returned 200 (err e), s)

  -- The preparation holds the lock; the wait does not, so that a stop can come in between.
  unfoldable pub exec_prepared : Bytes → ExecRequest → Handler W J
  exec_prepared id req s =
      let (r, w) = b.prepare id req s.world in
      after_prepare id req r
        (release (record s { world = w; events = ran (prepare_exec id req) ∷ s.events }))

  unfoldable pub exec_unlocked : Bytes → ExecRequest → Handler W J
  exec_unlocked id req s = perform (exec id req) (release s)

  unfoldable pub serve_exec : Request → Bytes → Handler W J
  serve_exec r id = decoding (decode small json.exec_request r.body) λ sent.
      let req = with_default_timeout sent in
      if is_rejected_exec req
      then bad_request
      else requiring (b.has prepare_part) (exec_prepared id req) (exec_unlocked id req)

  -- The routes behind a sandbox with one more element.
  unfoldable pub action_route : Request → Method → Bytes → Bytes → Handler W J
  action_route r method_post id verb =
      if same verb (bytes "start")
      then perform (start id)
      else if same verb (bytes "stop")
      then perform (stop id)
      else if same verb (bytes "exec")
      then serve_exec r id
      else unknown
  action_route r _ id verb = unknown

  unfoldable pub bare_route : Method → Bytes → Handler W J
  bare_route method_get id = perform (inspect id)
  bare_route method_delete id =
      answering 200 (as_object (deleted id)) (delete id) (b.perform (delete id))
  bare_route _ id = unknown

  unfoldable pub sandbox_route : Request → Bytes → List Bytes → Handler W J
  sandbox_route r id [] = bare_route r.method id
  sandbox_route r id (verb ∷ []) =
      if same verb (bytes "files") && is_post r.method
      then serve_files r id
      else if same verb (bytes "processes")
      then serve_processes r id []
      else action_route r r.method id verb
  sandbox_route r id (verb ∷ (x ∷ rest)) =
      if same verb (bytes "processes") then serve_processes r id (x ∷ rest) else unknown

  unfoldable pub serve_sandbox : Request → Bytes → List Bytes → Handler W J
  serve_sandbox r id rest =
      if is_valid_id id then locking (sandbox_key id) (sandbox_route r id rest) else unknown

  abbrev health_answer : Result J → Answer J
  health_answer (ok j) = returned 200 (ok healthy)
  health_answer (err e) = refused 503 Code.runtime_unavailable

  unfoldable pub serve_health : Handler W J
  serve_health s =
      let (r, w) = b.perform health s.world in
      (health_answer r, record s { world = w; events = ran health ∷ s.events })

  -- The routes that are told by the elements of the path.
  unfoldable pub route_by_parts : Request → List Bytes → Handler W J
  route_by_parts r (area ∷ (name ∷ rest)) =
      if is_post r.method && same area (bytes "images") && is_empty rest
      then serve_images r name
      else if same area (bytes "containers")
      then serve_sandbox r name rest
      else unknown
  route_by_parts r _ = unknown

  unfoldable pub route_post : Request → Handler W J
  route_post r =
      if path_is r "/reconcile"
      then serve_reconcile
      else if path_is r "/containers"
      then serve_create r
      else route_by_parts r (parts_of r)

  unfoldable pub route_get : Request → Handler W J
  route_get r =
      if path_is r "/health"
      then serve_health
      else if path_is r "/metrics"
      then serve_part metrics_part metrics
      else if path_is r "/containers"
      then serve_part inventory_part inventory
      else route_by_parts r (parts_of r)

  unfoldable pub route : Request → Method → Handler W J
  route r method_get = route_get r
  route r method_post = route_post r
  route r _ = route_by_parts r (parts_of r)

abbrev is_images : List Bytes → Bool
is_images [] = false
is_images (area ∷ rest) = same area (bytes "images")

abbrev failing : {J : Type 0} → ℕ × Code → Sent J
failing (status, code) = failed status code

unfoldable pub finish : {J : Type 0} → Bool → Answer J → Sent J
finish images (refused status code) = failed status code
finish images (returned status (ok v)) = replied status v
finish images (returned status (err e)) = failing (classify images e)

abbrev pub arriving : {W : Type 0} → W → Serving W
arriving w = record { world = w; unlock = none; events = [] }

-- `ServeHTTP`; the runtime works under the deadline of the request.
unfoldable pub serve : {W J : Type 0} → Json → (ℕ → Backend W J) → Request → W → Sent J × Serving W
serve json runtime r w =
    let (a, s) = route json (runtime (deadline r)) r r.method (arriving w) in
    (finish (is_images (parts_of r)) a, s)
