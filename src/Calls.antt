-- ===== src/Calls.antt =====
-- The calls that an operation makes to the host and to other parts, recorded: `call c m` runs `m` on the world and notes `c` with
-- whether it succeeded, newest first. The record is for the theorems; no code reads it.
pub mod Laws
use sandcube.Prelude.{
  ℕ, ◌≡◌, Bool, true, false, ◌&&◌, ◌||◌, List, [], ◌∷◌, ◌==◌, Option, none, some,
}
use sandcube.Exec.{Exec, succeeded}

pub data Call : Type 0 where
  load_container container_info delete_container commit_container : Call
  get_image pull_image unpack_image : Call
  stat_snapshot remove_snapshot new_snapshot snapshot_mounts : Call
  find_task task_status kill_task delete_task_record close_task_io new_task start_task : Call
  check_quota prepare_quota reclaim_quota : Call
  setup_network remove_network : Call
  list_processes kill_process settle_processes forget_processes : Call
  lock_network read_journal write_journal remove_journal make_directory remove_directory : Call
  list_links delete_link stat_namespace delete_namespace : Call
  run_conntrack list_tables delete_table list_ruleset show_routes : Call
  load_firewall run_command write_resolver : Call
  read_quota_journal write_quota_journal remove_quota_journal : Call
  read_limits set_limits clear_limits tag_directory check_directory : Call
  cleanup_snapshots stat_storage wait_tick : Call
  check_filesystem list_mounts : Call
  list_containers open_archive lease import_archive delete_image_record release_lease : Call
  walk_snapshots list_history remove_history : Call
  make_process_directory save_process make_pipe start_collector create_exec start_exec : Call
  exec_status kill_exec delete_exec stat_logs close_done wait_done load_exec : Call
  list_quota_journals list_network_journals read_process_record list_process_records : Call
  resolve_path close_archive abandon_exec read_spec remove_process_directory : Call
  open_lock lock_socket lock_namespace stat_config connect_containerd stat_socket : Call
  dial_socket remove_socket check_cgroups read_forwarding find_tool recover reconcile : Call
  listen protect_socket serve open_root check_overlay access_files mount_snapshot : Call
  snapshot_usage task_metrics walk_history : Call

abbrev code_of : Call → ℕ
code_of load_container = 0
code_of container_info = 1
code_of delete_container = 2
code_of commit_container = 3
code_of get_image = 4
code_of pull_image = 5
code_of unpack_image = 6
code_of stat_snapshot = 7
code_of remove_snapshot = 8
code_of new_snapshot = 9
code_of snapshot_mounts = 10
code_of find_task = 11
code_of task_status = 12
code_of kill_task = 13
code_of delete_task_record = 14
code_of close_task_io = 15
code_of new_task = 16
code_of start_task = 17
code_of check_quota = 18
code_of prepare_quota = 19
code_of reclaim_quota = 20
code_of setup_network = 21
code_of remove_network = 22
code_of list_processes = 23
code_of kill_process = 24
code_of settle_processes = 25
code_of forget_processes = 26
code_of lock_network = 27
code_of read_journal = 28
code_of write_journal = 29
code_of remove_journal = 30
code_of make_directory = 31
code_of remove_directory = 32
code_of list_links = 33
code_of delete_link = 34
code_of stat_namespace = 35
code_of delete_namespace = 36
code_of run_conntrack = 37
code_of list_tables = 38
code_of delete_table = 39
code_of list_ruleset = 40
code_of show_routes = 41
code_of load_firewall = 42
code_of run_command = 43
code_of write_resolver = 44
code_of read_quota_journal = 45
code_of write_quota_journal = 46
code_of remove_quota_journal = 47
code_of read_limits = 48
code_of set_limits = 49
code_of clear_limits = 50
code_of tag_directory = 51
code_of check_directory = 52
code_of cleanup_snapshots = 53
code_of stat_storage = 54
code_of wait_tick = 55
code_of list_containers = 56
code_of open_archive = 57
code_of lease = 58
code_of import_archive = 59
code_of delete_image_record = 60
code_of release_lease = 61
code_of walk_snapshots = 62
code_of list_history = 63
code_of remove_history = 64
code_of make_process_directory = 65
code_of save_process = 66
code_of make_pipe = 67
code_of start_collector = 68
code_of create_exec = 69
code_of start_exec = 70
code_of exec_status = 71
code_of kill_exec = 72
code_of delete_exec = 73
code_of stat_logs = 74
code_of close_done = 75
code_of wait_done = 76
code_of load_exec = 77
code_of list_quota_journals = 78
code_of list_network_journals = 79
code_of read_process_record = 80
code_of list_process_records = 81
code_of check_filesystem = 82
code_of list_mounts = 83
code_of resolve_path = 84
code_of close_archive = 85
code_of abandon_exec = 86
code_of read_spec = 87
code_of remove_process_directory = 88
code_of open_lock = 89
code_of lock_socket = 90
code_of lock_namespace = 91
code_of stat_config = 92
code_of connect_containerd = 93
code_of stat_socket = 94
code_of dial_socket = 95
code_of remove_socket = 96
code_of check_cgroups = 97
code_of read_forwarding = 98
code_of find_tool = 99
code_of recover = 100
code_of reconcile = 101
code_of listen = 102
code_of protect_socket = 103
code_of serve = 104
code_of open_root = 105
code_of check_overlay = 106
code_of access_files = 107
code_of mount_snapshot = 108
code_of snapshot_usage = 109
code_of task_metrics = 110
code_of walk_history = 111

abbrev pub same_call : Call → Call → Bool
same_call c d = code_of c == code_of d

abbrev pub Calls : Type 0
Calls = List (Call × Bool)

pub record Sys (W : Type 0) : Type 0 where
  pub world : W
  pub calls : Calls

unfoldable pub call : {W A : Type 0} → Call → Exec W A → Exec (Sys W) A
call c m s = let (r, w) = m s.world in (r, record { world = w; calls = (c, succeeded r) ∷ s.calls })

-- An operation whose own calls are left out of the record.
unfoldable pub untraced : {W A : Type 0} → Exec (Sys W) A → Exec W A
untraced m w = let (r, s) = m (record { world = w; calls = [] }) in (r, s.world)

-- `c` was called.
abbrev pub called : Call → Calls → Bool
called c [] = false
called c ((d, _) ∷ t) = same_call c d || called c t

-- `c` was called and succeeded.
abbrev pub done : Call → Calls → Bool
done c [] = false
done c ((d, b) ∷ t) = same_call c d && b || done c t

-- Every call of `c` comes after a successful call of `d`.
abbrev pub Follows : Call → Call → Calls → Type 0
Follows c d [] = Unit
Follows c d ((e, _) ∷ t) = (same_call c e ≡ true → done d t ≡ true) × Follows c d t

-- Some call was of a kind that `p` tests for.
abbrev pub any_call : (Call → Bool) → Calls → Bool
any_call p [] = false
any_call p ((d, _) ∷ t) = p d || any_call p t

-- The state in which an operation begins, with no call recorded.
abbrev pub fresh : {W : Type 0} → W → Sys W
fresh w = record { world = w; calls = [] }

-- The last call.
abbrev pub latest : Calls → Option Call
latest [] = none
latest ((c, _) ∷ t) = some c

-- The calls that change what a sandbox keeps while it is stopped: its container, its snapshot, its
-- quota and its process history; and those that start it.
abbrev pub is_destructive : Call → Bool
is_destructive Call.delete_container = true
is_destructive Call.commit_container = true
is_destructive Call.remove_snapshot = true
is_destructive Call.new_snapshot = true
is_destructive Call.prepare_quota = true
is_destructive Call.reclaim_quota = true
is_destructive Call.forget_processes = true
is_destructive Call.new_task = true
is_destructive Call.start_task = true
is_destructive _ = false
