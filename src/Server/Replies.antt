-- ===== src/Server/Replies.antt =====
-- How services/containerd-runtime/main.go reports an error: the end of `ServeHTTP`, and `failure`.
use sandcube.Prelude.{ℕ, String, Bool, ◌||◌, if◌then◌else◌}
use sandcube.Exec.{
  Err, not_found, already_exists, failed_precondition, resource_exhausted, invalid_path,
  file_too_large, edquot, enospc, enoent, eexist, enotempty, eisdir, enotdir,
}

-- The `code` of an error reply.
pub data Code : Type 0 where
  runtime_unavailable unavailable images_unavailable files_unavailable processes_unavailable : Code
  invalid_request unknown_route : Code
  runtime_error bad_path limit_exceeded file_not_found file_conflict : Code
  no_such_object object_exists sandbox_not_running image_in_use : Code

-- As it is written.
unfoldable pub text_of : Code → String
text_of Code.runtime_unavailable = "RUNTIME_UNAVAILABLE"
text_of Code.unavailable = "UNAVAILABLE"
text_of Code.images_unavailable = "IMAGES_UNAVAILABLE"
text_of Code.files_unavailable = "FILES_UNAVAILABLE"
text_of Code.processes_unavailable = "PROCESSES_UNAVAILABLE"
text_of Code.invalid_request = "INVALID_REQUEST"
text_of Code.unknown_route = "NOT_FOUND"
text_of Code.runtime_error = "RUNTIME_ERROR"
text_of Code.bad_path = "INVALID_PATH"
text_of Code.limit_exceeded = "LIMIT_EXCEEDED"
text_of Code.file_not_found = "FILE_NOT_FOUND"
text_of Code.file_conflict = "FILE_CONFLICT"
text_of Code.no_such_object = "NOT_FOUND"
text_of Code.object_exists = "ALREADY_EXISTS"
text_of Code.sandbox_not_running = "SANDBOX_NOT_RUNNING"
text_of Code.image_in_use = "IMAGE_IN_USE"

-- The status and the code of an error that a part returned; `images` is whether the path is one of
-- the image routes.
unfoldable pub classify : Bool → Err → ℕ × Code
classify images e =
    if e.is invalid_path
    then (400, Code.bad_path)
    else if e.is edquot || e.is enospc || e.is file_too_large || e.is resource_exhausted
    then (413, Code.limit_exceeded)
    else if e.is enoent
    then (404, Code.file_not_found)
    else if e.is eexist || e.is enotempty || e.is eisdir || e.is enotdir
    then (409, Code.file_conflict)
    else if e.is not_found
    then (404, Code.no_such_object)
    else if e.is already_exists
    then (409, Code.object_exists)
    else if e.is failed_precondition
    then (409, if images then Code.image_in_use else Code.sandbox_not_running)
    else (500, Code.runtime_error)
