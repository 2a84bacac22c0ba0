-- ===== src/Server/Limits.antt =====
-- What services/containerd-runtime/main.go accepts as an ID, a configuration and a command.
pub mod Laws
use sandcube.Prelude.{
  ℕ, String, str_eq, Bool, true, false, not, ◌&&◌, ◌||◌, Option, none, some, List, [], ◌∷◌, ltb,
  leb, ◌==◌, length, all, if◌then◌else◌,
}
use sandcube.Prelude.Int.{ℤ, pos, below, above}
use sandcube.Paths.{Bytes, bytes, slash, is_empty, is_rooted, same, after_prefix}
use sandcube.Runtime.Types.{Config, ExecRequest}

-- `[a-zA-Z0-9_-]`
unfoldable pub is_id_char : ℕ → Bool
is_id_char c =
    leb b'a' c && leb c b'z'
    || leb b'A' c && leb c b'Z'
    || leb b'0' c && leb c b'9'
    || c == b'_'
    || c == b'-'

abbrev pub id_rest : Option Bytes → Bool
id_rest none = false
id_rest (some s) = leb 1 (length s) && leb (length s) 80 && all is_id_char s

-- `validID`
unfoldable pub is_valid_id : Bytes → Bool
is_valid_id s = id_rest (after_prefix (bytes "sbx_") s)

abbrev id_chars : Bytes → Bytes
id_chars [] = []
id_chars (c ∷ s) = let rest = id_chars s in if is_id_char c then c ∷ rest else []

abbrev behind_id_chars : Bytes → Bytes
behind_id_chars [] = []
behind_id_chars (c ∷ s) = let rest = behind_id_chars s in if is_id_char c then rest else c ∷ s

abbrev reference_rest : Option Bytes → Bool
reference_rest none = false
reference_rest (some s) =
    let n = length (id_chars s) in leb 1 n && leb n 80 && same (behind_id_chars s) (bytes ":latest")

-- `managedReference`: no `:` is among the characters of an ID.
unfoldable pub is_managed_reference : Bytes → Bool
is_managed_reference s = reference_rest (after_prefix (bytes "sandcube.local/images/img_") s)

-- `len(command) == 0 || command[0] == ""`
abbrev pub lacks_program : List String → Bool
lacks_program [] = true
lacks_program (s ∷ ss) = str_eq s ""

-- What a configuration is before its fields are read.
unfoldable pub default_config : Config
default_config = record {
  id = "";
  image = "";
  command = [];
  cpu = pos 0;
  disk_mb = pos 1024;
  memory_mb = pos 0;
  pids = pos 0;
}

unfoldable pub is_rejected_config : Config → Bool
unfolding is_valid_id
is_rejected_config c =
    below c.disk_mb 16
    || above c.disk_mb 1048576
    || not (is_valid_id (bytes c.id))
    || str_eq c.image ""
    || lacks_program c.command
    || below c.cpu 1
    || above c.cpu 64
    || below c.memory_mb 16
    || above c.memory_mb 262144
    || below c.pids 1
    || above c.pids 65536

-- The working directory is left out or absolute.
abbrev is_rejected_cwd : String → Bool
is_rejected_cwd cwd = not (str_eq cwd "") && not (is_rooted (bytes cwd))

abbrev is_zero : ℤ → Bool
is_zero (pos n) = n == 0
is_zero _ = false

-- A timeout that is left out is 30 seconds.
unfoldable pub with_default_timeout : ExecRequest → ExecRequest
with_default_timeout req = if is_zero req.timeout then record req { timeout = pos 30 } else req

unfoldable pub is_rejected_exec : ExecRequest → Bool
is_rejected_exec req =
    lacks_program req.command
    || below req.timeout 1
    || above req.timeout 3600
    || is_rejected_cwd req.cwd

-- A detached process takes no timeout.
unfoldable pub is_rejected_process : ExecRequest → Bool
is_rejected_process req =
    lacks_program req.command || not (is_zero req.timeout) || is_rejected_cwd req.cwd
