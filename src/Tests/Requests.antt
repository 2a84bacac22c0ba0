-- ===== src/Tests/Requests.antt =====
-- The theorems on requests, paths, addresses and locks at concrete inputs, and a few runs.
use sandcube.Prelude.{
  ℕ, ◌≡◌, ◌≢◌, refl, true, false, none, some, [], ◌∷◌, ◌++◌, arith, length, any, all, not, ◌&&◌,
  ltb, ◌||◌, ◌==◌, if◌then◌else◌,
}
use sandcube.Exec.{ok, err, OnOk, succeeded}
use sandcube.Paths.{
  Bytes, bytes, dot, slash, split, is_empty, is_dot_dot, trim_left, trim_right, join, same,
}
use sandcube.Paths.Split.{select}
use sandcube.Files.Name.{err_invalid_path, sandbox_path}
use sandcube.Files.Name.Laws.{is_named, sandbox_path_lem}
use sandcube.Files.Write.{write_leaf, old_mode}
use sandcube.Files.Write.Laws.{IsNotTemporary, write_leaf_atomic}
use sandcube.Files.Access.{FileRequest, file_at}
use sandcube.Files.Access.Laws.{IsBounded, file_at-slashes, file_at-bound}
use sandcube.Server.Locks.{
  shard_of, entering, Mutexes, lock_lifecycle, all_free, Reachable, at_start, after, set,
}
use sandcube.Server.Locks.Laws.{lock_excludes, lock_never_waits_twice}
use sandcube.Server.Handler.{method_post, deadline, has_suffix, parts_of}
use sandcube.Tests.Samples.{disk_host, disk-IsBeneath, disk-IsDirectory, empty_disk}

abbrev short_id : Bytes
short_id = bytes "sbx_a"

abbrev waiting : Mutexes
waiting = record all_free { lifecycle = true; phase = set 4 (entering short_id) all_free.phase }

waiting-Reachable : Reachable waiting
waiting-Reachable = after all_free waiting at_start (lock_lifecycle all_free 4 short_id refl refl)

abbrev fourth : ℕ
fourth = 4

lock_excludes_example : fourth ≡ 4
lock_excludes_example = lock_excludes waiting waiting-Reachable 4 4 refl refl

lock_never_waits_twice_example : waiting.shards (shard_of short_id) ≡ false
lock_never_waits_twice_example = lock_never_waits_twice waiting waiting-Reachable 4 short_id refl

abbrev notes : Bytes
notes = bytes "notes"

abbrev dotted_path : Bytes
dotted_path = bytes "/a/./b//c"

sandbox_path_lem_example :
    let p = dotted_path in
    let named = select is_named (split p) in
    (sandbox_path p ≡ (
      if is_empty p || ltb 4096 (length p) || any (λ c. c == 0) p || any is_dot_dot (split p)
      then err err_invalid_path
      else ok (
          if is_empty (trim_left p)
          then slash ∷ []
          else if is_empty named
          then dot ∷ []
          else join named)))
    × ((any is_dot_dot (split p) || all (λ q. is_named q && not (is_dot_dot q)) named) ≡ true)
    × (split (join named) ≡ (if is_empty named then [] ∷ [] else named))
sandbox_path_lem_example = sandbox_path_lem dotted_path

notes-IsNotTemporary : IsNotTemporary disk_host notes
notes-IsNotTemporary w id h e = cc

write_leaf_atomic_example :
    let (r, w') = write_leaf disk_host 5 notes none (1 ∷ 2 ∷ []) empty_disk in
    w'.entries notes
    ≡ (if succeeded r then some (record { content = 1 ∷ 2 ∷ []; mode = 420 }) else none)
unfolding old_mode
write_leaf_atomic_example =
    write_leaf_atomic disk-IsDirectory notes (1 ∷ 2 ∷ []) (1 ∷ 2 ∷ []) none empty_disk
      notes-IsNotTemporary refl

abbrev list_root : FileRequest
list_root = record { operation = "list"; path = slash ∷ []; mode = none; content = [] }

root_path_nonempty : list_root.path ≢ []
root_path_nonempty e = cc

root_path_slashes : is_empty (trim_left list_root.path) ≡ true
unfolding trim_left
root_path_slashes = refl

file_at-slashes_example : (file_at disk_host 3 list_root empty_disk).0 ≡ err err_invalid_path
file_at-slashes_example =
    file_at-slashes disk_host 3 list_root empty_disk disk-IsBeneath root_path_nonempty (omega arith)
      root_path_slashes

abbrev read_notes : FileRequest
read_notes = record { operation = "read"; path = notes; mode = none; content = [] }

file_at-bound_example : OnOk (IsBounded disk_host) (file_at disk_host 3 read_notes empty_disk).0
file_at-bound_example = file_at-bound disk_host (λ b. refl) 3 read_notes empty_disk

abbrev exec_path : Bytes
exec_path = bytes "/containers/sbx_a/exec"

-- A slash at the end leads to the same handler under another deadline.
exec_deadline : deadline (record { method = method_post; path = exec_path; body = [] }) ≡ 3630
unfolding deadline has_suffix same
exec_deadline = refl

exec_deadline-slash :
    deadline (record { method = method_post; path = exec_path ++ slash ∷ []; body = [] }) ≡ 45
unfolding deadline has_suffix same
exec_deadline-slash = refl

exec_parts-slash :
    parts_of (record { method = method_post; path = exec_path ++ slash ∷ []; body = [] })
    ≡ bytes "containers" ∷ bytes "sbx_a" ∷ bytes "exec" ∷ []
unfolding parts_of split trim_left trim_right
exec_parts-slash = refl
