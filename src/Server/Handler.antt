-- ===== src/Server/Handler.antt =====
-- The parts of a request to the server of services/containerd-runtime/main.go: what is asked of the
-- runtime behind the API, what a request holds and does meanwhile, and how it is answered. The JSON
-- decoder and the runtime are parameters.
use sandcube.Prelude.{
  ℕ, String, Bool, true, false, ◌&&◌, ◌||◌, Option, none, some, List, [], ◌∷◌, ltb, length, take,
  if◌then◌else◌,
}
use sandcube.Exec.{Result, ok, err, Exec}
use sandcube.Paths.{Bytes, bytes, split, same, trim_left, trim_right}
use sandcube.Runtime.Types.{Config, ExecRequest}
use sandcube.Files.Access.{FileRequest}
use sandcube.Server.Replies.{Code}

pub data Method : Type 0 where
  method_get method_post method_delete method_other : Method

pub record Request : Type 0 where
  pub method : Method
  pub path : Bytes
  pub body : Bytes

pub record ImageRequest : Type 0 where
  pub reference : Bytes
  pub path : Bytes

-- What the runtime is asked to do.
pub data Operation : Type 0 where
  health metrics inventory reconcile : Operation
  import_image : ImageRequest → Operation
  inspect_image delete_image : Bytes → Operation
  create : Config → Operation
  inspect start stop delete : Bytes → Operation
  change_file : Bytes → FileRequest → Operation
  start_process : Bytes → ExecRequest → Operation
  list_processes : Bytes → Operation
  show_process process_logs kill_process : Bytes → Bytes → Operation
  prepare_exec wait_exec exec : Bytes → ExecRequest → Operation

-- The interfaces that a backend may lack.
pub data Part : Type 0 where
  metrics_part inventory_part reconcile_part image_part file_part process_part prepare_part : Part

-- The runtime, whose answers are values to encode. `prepare` gives what to wait on.
pub record Backend (W J : Type 0) : Type 0 where
  pub has : Part → Bool
  pub perform : Operation → Exec W J
  pub prepare : Bytes → ExecRequest → Exec W (Exec W J)

-- A body as the decoder finds it: what it may read, and whether it meets the limit behind that.
abbrev pub Body : Type 0
Body = Bytes × Bool

-- encoding/json with unknown fields refused: the first value of a body, and whether nothing follows it.
pub record Json : Type 0 where
  pub config : Config → Body → Result Config
  pub exec_request : Body → Result ExecRequest
  pub image_request : Body → Result ImageRequest
  pub file_request : Body → Result FileRequest
  pub at_end : Body → Bool

-- `http.MaxBytesReader`
unfoldable pub limit_body : ℕ → Bytes → Body
limit_body n b = (take n b, ltb n (length b))

-- `strings.Split(strings.Trim(r.URL.Path, "/"), "/")`
unfoldable pub parts_of : Request → List Bytes
parts_of r = split (trim_right (trim_left r.path))

abbrev pub path_is : Request → String → Bool
path_is r s = same r.path (bytes s)

-- `strings.HasSuffix(s, t)`
unfoldable pub has_suffix : Bytes → Bytes → Bool
has_suffix t [] = same [] t
has_suffix t (c ∷ s) = same (c ∷ s) t || has_suffix t s

abbrev pub is_post : Method → Bool
is_post method_post = true
is_post _ = false

-- The seconds that a request may take: each of the tests overrides the ones before it.
unfoldable pub deadline : Request → ℕ
deadline r =
    if path_is r "/health"
    then 5
    else if path_is r "/images/import" || is_post r.method && path_is r "/containers"
    then 600
    else if has_suffix (bytes "/exec") r.path
    then 3630
    else 45

-- Which mutexes a request holds: those of a sandbox, or the lifecycle mutex alone.
pub data Key : Type 0 where
  sandbox_key : Bytes → Key
  lifecycle_key : Key

pub data Event : Type 0 where
  acquired released : Key → Event
  ran : Operation → Event

-- A request under way: the world, the `unlock` that is still to call, and what happened, newest first.
pub record Serving (W : Type 0) : Type 0 where
  pub world : W
  pub unlock : Option Key
  pub events : List Event

-- What is encoded: an answer of the runtime, or an object that the handler itself makes.
pub data Value (J : Type 0) : Type 0 where
  value : J → Value J
  deleted : Bytes → Value J
  image_deleted healthy : Value J

-- Either a refusal of the handler, or what the runtime returned with the status of its success.
pub data Answer (J : Type 0) : Type 0 where
  refused : ℕ → Code → Answer J
  returned : ℕ → Result (Value J) → Answer J

abbrev pub Handler : Type 0 → Type 0 → Type 0
Handler W J = Serving W → Answer J × Serving W

module _ {J : Type 0} where
  abbrev pub as_value : Result J → Result (Value J)
  as_value (ok j) = ok (value j)
  as_value (err e) = err e

  abbrev pub as_object : Value J → Result J → Result (Value J)
  as_object v (ok j) = ok v
  as_object v (err e) = err e

module _ {W J : Type 0} where
  unfoldable pub refusing : ℕ → Code → Handler W J
  refusing status code s = (refused status code, s)

  abbrev pub bad_request : Handler W J
  bad_request = refusing 400 Code.invalid_request

  abbrev pub unknown : Handler W J
  unknown = refusing 404 Code.unknown_route

  -- An operation of the runtime, answered with its value or with an object in place of it.
  unfoldable pub answering : ℕ → (Result J → Result (Value J)) → Operation → Exec W J → Handler W J
  answering status f op m s =
      let (r, w) = m s.world in
      (returned status (f r), record s { world = w; events = ran op ∷ s.events })

  -- What a body decodes to, or 400.
  unfoldable pub decoding : {A : Type 0} → Result A → (A → Handler W J) → Handler W J
  decoding (ok a) h = h a
  decoding (err e) h = bad_request

  unfoldable pub requiring : Bool → Handler W J → Handler W J → Handler W J
  requiring true h refusal = h
  requiring false h refusal = refusal

abbrev pub acquire : {W : Type 0} → Key → Serving W → Serving W
acquire k s = record s { unlock = some k; events = acquired k ∷ s.events }

abbrev pub released_by : Option Key → List Event → List Event
released_by none t = t
released_by (some k) t = released k ∷ t

-- `unlock()`, which does nothing once `unlock` has been replaced.
abbrev pub release : {W : Type 0} → Serving W → Serving W
release s = record s { unlock = none; events = released_by s.unlock s.events }

-- `unlock := s.lock(id)` with the deferred `unlock()`.
unfoldable pub locking : {W J : Type 0} → Key → Handler W J → Handler W J
locking k h s = let (a, s') = h (acquire k s) in (a, release s')

-- What the client is sent.
pub data Sent (J : Type 0) : Type 0 where
  failed : ℕ → Code → Sent J
  replied : ℕ → Value J → Sent J
