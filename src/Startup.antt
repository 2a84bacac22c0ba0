-- ===== src/Startup.antt =====
-- `main` of services/containerd-runtime/main.go, up to the end of Serve. `log.Fatal` ends the
-- process with a text, which is an error here. The goroutine that shuts the server down on a signal is
-- left out: it makes Serve return.
pub mod Parts
pub mod Checks
pub mod Laws
use sandcube.Prelude.{
  ℕ, String, Bool, true, false, not, ◌&&◌, ◌||◌, Option, none, some, List, [], ◌∷◌, ◌++◌, length,
  leb, ◌==◌, all, if◌then◌else◌,
}
use sandcube.Exec.{
  Err, Exec, message, wrap, not_exist, pure, raise, attempt, handle, ignoring, skip, refuse_if,
  for_each, ◌>>=◌, ◌>>◌,
}
use sandcube.Calls.{Call, Sys, call, untraced}
use sandcube.Paths.{Bytes, bytes, slash, same, clean, dir, is_empty}
use sandcube.Server.Limits.{is_id_char}
use sandcube.Processes.{Machine}

-- The flags that `main` looks at itself.
pub record Flags : Type 0 where
  pub log_dir : Bytes
  pub socket : Bytes
  pub containerd : Bytes
  pub state_root : Bytes
  pub config_path : Bytes
  pub namespace : Bytes

pub record Platform (W : Type 0) : Type 0 where
  -- os.OpenFile of a lock file, and Flock of it with LOCK_EX and LOCK_NB
  pub open_file : Bytes → Exec W ℕ
  pub flock : ℕ → Exec W (Unit {0})
  pub stat : Bytes → Exec W (Unit {0})
  -- containerd.New
  pub connect : Bytes → Exec W (Unit {0})
  -- Lstat, with whether the file is a socket; a dial within a second; Remove
  pub lstat : Bytes → Exec W Bool
  pub dial : Bytes → Exec W (Unit {0})
  pub remove : Bytes → Exec W (Unit {0})
  -- whether Statfs of /sys/fs/cgroup finds cgroup v2, and /proc/sys/net/ipv4/ip_forward
  pub is_cgroup2 : Exec W Bool
  pub forwarding : Exec W Bytes
  pub look_path : String → Exec W (Unit {0})
  -- Listen under the umask 0077, Chmod, and Serve: nothing for nil and for ErrServerClosed
  pub listen : Bytes → Exec W (Unit {0})
  pub chmod : Bytes → ℕ → Exec W (Unit {0})
  pub close_listener : Exec W (Unit {0})
  pub serve : Exec W (Unit {0})

-- `^[a-zA-Z0-9_-]{1,80}$`
unfoldable pub is_valid_namespace : Bytes → Bool
is_valid_namespace s = leb 1 (length s) && leb (length s) 80 && all is_id_char s

-- What strings.TrimSpace cuts off, in ASCII.
abbrev is_blank : ℕ → Bool
is_blank c = c == 32 || leb 9 c && leb c 13

abbrev trim_start : Bytes → Bytes
trim_start [] = []
trim_start (c ∷ s) = let rest = trim_start s in if is_blank c then rest else c ∷ s

abbrev trim_end : Bytes → Bytes
trim_end [] = []
trim_end (c ∷ s) = let rest = trim_end s in if is_blank c && is_empty rest then [] else c ∷ rest

unfoldable pub trim_space : Bytes → Bytes
trim_space s = trim_end (trim_start s)

-- `*stateRoot`, after its default is filled in.
abbrev pub state_root_of : Flags → Bytes
state_root_of f = if is_empty f.state_root then dir f.containerd else f.state_root

abbrev pub namespace_lock : Flags → Bytes
namespace_lock f =
    clean (state_root_of f ++ (slash ∷ (bytes "sandcube-" ++ (f.namespace ++ bytes ".lock"))))

module _ {W : Type 0} (platform : Platform W) where
  -- The check on a socket that is left over: it is one, and nobody answers it.
  unfoldable pub refuse_other : Bytes → Exec W (Unit {0})
  refuse_other path = platform.lstat path >>= λ is_socket.
      refuse_if (not is_socket) (message "socket path is not a socket")

  unfoldable pub refuse_live : Bytes → Exec W (Unit {0})
  refuse_live path =
      attempt (platform.dial path) >>= handle (λ _. raise (message "socket is live")) (λ _. skip)

  unfoldable pub require_cgroup2 : Exec W (Unit {0})
  require_cgroup2 =
      attempt platform.is_cgroup2
      >>= handle (λ found. refuse_if (not found) (message "cgroup v2 is required"))
          (λ _. raise (message "cgroup v2 is required"))

  unfoldable pub require_forwarding : Exec W (Unit {0})
  require_forwarding =
      attempt platform.forwarding
      >>= handle
          (λ raw.
            refuse_if (not (same (trim_space raw) (bytes "1")))
              (message "IPv4 forwarding must be enabled"))
          (λ _. raise (message "IPv4 forwarding must be enabled"))

  unfoldable pub lock_socket : Flags → Exec (Sys W) (Unit {0})
  lock_socket f = do
    fd ← call Call.open_lock (platform.open_file (f.socket ++ bytes ".lock"))
    attempt (call Call.lock_socket (platform.flock fd))
        >>= handle (λ _. skip) (λ e. raise (wrap "adapter already running" e))

  unfoldable pub lock_namespace : Flags → Exec (Sys W) (Unit {0})
  lock_namespace f = do
    fd ← call Call.open_lock (platform.open_file (namespace_lock f))
    attempt (call Call.lock_namespace (platform.flock fd))
        >>= handle (λ _. skip) (λ _. raise (message "namespace already has an adapter"))

  unfoldable pub remove_stale : Flags → Exec (Sys W) (Unit {0})
  remove_stale f = do
    call Call.dial_socket (refuse_live f.socket)
    call Call.remove_socket (platform.remove f.socket)

  unfoldable pub clear_socket : Flags → Exec (Sys W) (Unit {0})
  clear_socket f =
      attempt (call Call.stat_socket (refuse_other f.socket))
      >>= handle (λ _. remove_stale f) (λ e. refuse_if (not (e.is not_exist)) e)

  unfoldable pub check_host : Exec (Sys W) (Unit {0})
  check_host = do
    call Call.check_cgroups require_cgroup2
    call Call.read_forwarding require_forwarding
    for_each ("ip" ∷ "nft" ∷ "sysctl" ∷ "conntrack" ∷ [])
        λ tool. call Call.find_tool (platform.look_path tool)

  unfoldable pub protect : Bytes → Exec W (Unit {0})
  protect path =
      attempt (platform.chmod path 384)
      >>= handle (λ _. skip) (λ e. ignoring platform.close_listener >> raise e)

  unfoldable pub open_socket : Flags → Exec (Sys W) (Option (Unit {0}))
  open_socket f = do
    call Call.listen (platform.listen f.socket)
    call Call.protect_socket (protect f.socket)
    call Call.serve platform.serve
    pure (some tt)

  module _ (recover : Exec (Sys W) (Unit {0})) (reconcile : Exec (Sys W) (Option ℕ)) where
    unfoldable pub serve_if : Flags → Option ℕ → Exec (Sys W) (Option (Unit {0}))
    serve_if f none = pure none
    serve_if f (some cleaned) = open_socket f

    -- Without `-log-dir`. Nothing is given where `reconcile` gives nothing.
    unfoldable pub run_adapter : Flags → Exec (Sys W) (Option (Unit {0}))
    run_adapter f = do
      lock_socket f
      call Call.stat_config (platform.stat f.config_path)
      refuse_if (not (is_valid_namespace f.namespace)) (message "invalid namespace")
      lock_namespace f
      call Call.connect_containerd (platform.connect f.containerd)
      clear_socket f
      check_host
      call Call.recover (untraced recover)
      cleaned ← call Call.reconcile (untraced reconcile)
      serve_if f cleaned

    unfoldable pub main : (Bytes → Exec W (Unit {0})) → Flags → Exec (Sys W) (Option (Unit {0}))
    main run_logger f =
        if is_empty f.log_dir
        then run_adapter f
        else call Call.start_collector (run_logger f.log_dir) >> pure (some tt)
