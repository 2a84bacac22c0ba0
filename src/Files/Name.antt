-- ===== src/Files/Name.antt =====
-- `sandboxPath` of services/containerd-runtime/files.go, over the bytes of the path.
pub mod Laws
use sandcube.Prelude.{ℕ, Bool, List, [], ◌∷◌, ◌++◌, ltb, ◌==◌, ◌||◌, any, length, if◌then◌else◌}
use sandcube.Exec.{Err, Result, ok, err, sentinel, invalid_path}
use sandcube.Paths.{Bytes, slash, dot, split, trim_left, clean, is_empty, is_dot_dot}

abbrev pub err_invalid_path : Err
err_invalid_path =
    sentinel invalid_path "path must stay within the sandbox, without symlinks or special files"

unfoldable pub sandbox_path : Bytes → Result Bytes
sandbox_path p =
    if is_empty p || ltb 4096 (length p) || any (λ c. c == 0) p
    then err err_invalid_path
    else if any is_dot_dot (split p)
    then err err_invalid_path
    else ok (clean (trim_left p ++ slash ∷ dot ∷ []))
