-- ===== src/Tests/Samples.antt =====
-- Hosts in memory that behave as the documentation of the real ones says.
use sandcube.Prelude.{
  ℕ, ◌+◌, refl, Bool, true, Option, none, some, List, [], ◌∷◌, ◌++◌, length, ◌==◌, take_all, arith,
  if◌then◌else◌,
}
use sandcube.Prelude.Int.{pos}
use sandcube.Exec.{Result, ok, err, Exec, pure, raise, sentinel, message, not_found, enoent}
use sandcube.Paths.{Bytes, bytes, same, same_iff, slash}
use sandcube.Logs.Capture.{Sink}
use sandcube.Logs.Capture.Laws.{IsFile}
use sandcube.Files.Host.{Host as FileHost}
use sandcube.Files.Write.Laws.{Node, IsDirectory}
use sandcube.Files.Access.Laws.{IsBeneath, err_exdev}
use sandcube.Runtime.Types.{Config, ExecRequest, runtime_name}
use sandcube.Runtime.Engine.{Engine, Services, running}
use sandcube.Network.Address.{Address}
use sandcube.Network.Host.{Host as NetworkHost, exited}
use sandcube.Server.Handler.{Backend, Json}

-- A log file: what it holds, and whether the marker is set.
abbrev pub log_file : Sink (List ℕ × Bool)
log_file = record {
  size = λ w. (ok (length w.0), w);
  append = λ b w. (ok tt, (w.0 ++ b, w.1));
  sync = λ w. (ok tt, w);
  mark = λ w. (ok tt, (w.0, true));
}

abbrev pub log_file-IsFile : IsFile log_file
log_file-IsFile = record {
  content = λ w. w.0;
  marked = λ w. w.1;
  stored = λ w b. length b;
  size_lem = λ w h. refl;
  content-size = λ w. refl;
  marked-size = λ w. refl;
  content-append = λ w b. ground (arith, take_all (length b) b);
  stored_all = λ w b h. omega arith;
  marked-append = λ w b. refl;
  content-sync = λ w. refl;
  marked-sync = λ w. refl;
  content-mark = λ w. refl;
  marked-mark = λ w h. refl;
}

-- One directory, and the name of the file that was created last.
pub record Disk : Type 0 where
  pub entries : Bytes → Option Node
  pub created : Bytes

abbrev put : Bytes → Option Node → (Bytes → Option Node) → Bytes → Option Node
put n v e m = if same n m then v else e m

abbrev mode_of : Option Node → ℕ
mode_of none = 0
mode_of (some n) = n.mode

abbrev content_of : Option Node → Bytes
content_of none = []
content_of (some n) = n.content

abbrev gone : {A : Type 0} → Exec Disk A
gone w = (err (sentinel enoent "no such file or directory"), w)

abbrev openat2_result : Bytes → Result ℕ
openat2_result [] = ok 5
openat2_result (c ∷ s) = if c == slash then err err_exdev else ok 5

abbrev pub disk_host : FileHost Disk
disk_host = record {
  openat2 = λ root name flags w. (openat2_result name, w);
  fstat = λ fd w. (ok (record { mode = 33188; size = 3 }), w);
  open_proc = λ fd w. (ok 8, w);
  read_all = λ fd n w. (ok (content_of (w.entries (bytes "notes"))), w);
  read_dir = λ fd n w. (ok (bytes "notes" ∷ []), w);
  fstatat = λ fd name. gone;
  mkdirat = λ fd name mode w. (ok tt, w);
  unlinkat = λ fd name dir w. (ok tt, record w { entries = put name none w.entries });
  create = λ fd name w. (
    ok 7,
    record {
      entries = put name (some (record { content = []; mode = 420 })) w.entries;
      created = name;
    },
  );
  write = λ fd b w. (
    ok tt,
    record w {
      entries =
          put w.created (some (record { content = b; mode = mode_of (w.entries w.created) }))
            w.entries;
    },
  );
  chmod = λ fd mode w. (
    ok tt,
    record w {
      entries =
          put w.created (some (record { content = content_of (w.entries w.created); mode = mode }))
            w.entries;
    },
  );
  sync = λ fd w. (ok tt, w);
  close = λ fd w. (ok tt, w);
  rename = λ fd n l w. (ok tt, record w { entries = put l (w.entries n) (put n none w.entries) });
  fresh_id = λ w. (ok (bytes "1"), w);
  encode = λ b. b;
  decode = λ b. some b;
}

pub disk-IsBeneath : IsBeneath disk_host 3
disk-IsBeneath name flags w = refl

abbrev pub disk-IsDirectory : IsDirectory disk_host 5
disk-IsDirectory = record {
  node = λ w. w.entries;
  name_of = λ w fd. w.created;
  node-fresh_id = λ w m. refl;
  node-fstatat = λ w l m. refl;
  node-create = λ w n m ne. ground (arith, same_iff n m);
  create_lem = λ w n fd h. (refl, ground (arith, same_iff n n));
  name_of-write = λ w fd b. refl;
  node-write = λ w fd b m ne. ground (arith, same_iff w.created m);
  write_lem = λ w fd b mode h e. ground (arith, same_iff w.created w.created);
  name_of-chmod = λ w fd mode. refl;
  node-chmod = λ w fd mode m ne. ground (arith, same_iff w.created m);
  chmod_lem = λ w fd mode old b h e. ground (arith, same_iff w.created w.created);
  node-sync = λ w fd m. refl;
  node-close = λ w fd m. refl;
  rename_lem = λ w n l h. ground (arith, same_iff l l);
  rename_failed = λ w n l m h. ground arith;
  node-rename = λ w n l m ne nf. ground (arith, same_iff n m, same_iff l m);
  node-unlinkat = λ w n m dir ne. ground (arith, same_iff n m);
}

abbrev pub empty_disk : Disk
empty_disk = record { entries = λ n. none; created = [] }

-- A containerd in which everything succeeds, with the given answer to the lookup of a container.
abbrev pub engine_with : Result (Unit {0}) → Engine ℕ
engine_with found = record {
  version = pure tt;
  load_container = λ id w. (found, w + 1);
  container_info = λ id. pure record {
    labels = λ l. "true";
    runtime = runtime_name;
    snapshot_key = id;
    snapshotter = "overlayfs";
    image = "image";
  };
  delete_container = λ id. pure tt;
  get_image = λ r. pure tt;
  pull_image = λ r. pure tt;
  unpack_image = λ r. pure tt;
  stat_snapshot = λ id. raise (sentinel not_found "no snapshot");
  remove_snapshot = λ id. pure tt;
  new_snapshot = λ id image. pure tt;
  snapshot_mounts = λ s id. pure [];
  commit_container = λ c f o. pure tt;
  find_task = λ id. pure tt;
  task_status = λ id. pure running;
  kill_task = λ id. pure tt;
  delete_task_record = λ id. pure tt;
  close_task_io = λ id. pure tt;
  new_task = λ id. pure tt;
  start_task = λ id. pure tt;
}

abbrev pub present : Engine ℕ
present = engine_with (ok tt)

abbrev pub absent : Engine ℕ
absent = engine_with (err (sentinel not_found "no container"))

abbrev pub services : Services ℕ
services = record {
  history_root = bytes "/h/sandcube";
  network_path = λ id. bytes "/run/netns/scn";
  check_quota = λ id. pure tt;
  prepare_quota = λ id c ms. pure tt;
  reclaim_quota = λ id. pure tt;
  setup_network = λ id. pure tt;
  remove_network = λ id. pure tt;
  list_processes = λ id. pure ("p1" ∷ []);
  process_running = λ w p. true;
  kill_process = λ p. pure tt;
  settle_processes = λ id. pure tt;
  forget_processes = λ id. pure tt;
}

abbrev pub config : Config
config = record {
  id = "sbx_a";
  image = "alpine";
  command = "sh" ∷ [];
  cpu = pos 1;
  disk_mb = pos 1024;
  memory_mb = pos 256;
  pids = pos 64;
}

abbrev pub guest : Address
guest = record { a = 198; b = 18; c = 0; d = 6 }

-- A host with one network, whose record is there.
abbrev pub network_host : NetworkHost ℕ
network_host = record {
  lock = pure tt;
  read_journal = λ id. pure (bytes "{}");
  decode_record = λ raw. ok record {
    id = "sbx_a";
    name = "sc1";
    guest = bytes "198.18.0.6";
    gateway = bytes "198.18.0.5";
    subnet = bytes "198.18.0.4/30";
  };
  write_journal = λ id n. pure tt;
  remove_journal = λ id. pure tt;
  make_network_dir = pure tt;
  make_sandbox_dir = λ id. pure tt;
  remove_sandbox_dir = λ id. pure tt;
  write_resolver = λ id b. pure tt;
  list_links = pure ("sc1" ∷ "eth0" ∷ []);
  delete_link = λ n. pure tt;
  stat_namespace = λ n. pure tt;
  delete_namespace = λ n. pure tt;
  run_conntrack = λ d g w. (exited 0 [], w + 1);
  list_tables = pure (("inet", "sc1") ∷ []);
  delete_table = λ n. pure tt;
  list_ruleset = pure (bytes "{}");
  show_routes = λ s. pure 0;
  load_firewall = λ n. pure tt;
  run_command = λ args. pure tt;
  parse_address = λ s. some guest;
  network_name = λ id. "sc1";
  hash_start = λ n. 513;
}

abbrev request : ExecRequest
request = record { request_id = ""; command = "ls" ∷ []; cwd = ""; env = []; timeout = pos 0 }

-- A decoder that finds the same objects in every body.
abbrev pub json : Json
json = record {
  config = λ c b. ok config;
  exec_request = λ b. ok request;
  image_request = λ b.
      ok (record { reference = bytes "sandcube.local/images/img_a:latest"; path = bytes "a.tar" });
  file_request = λ b. err (message "no file request");
  at_end = λ b. true;
}

-- A runtime that counts its operations.
abbrev pub runtime : ℕ → Backend ℕ ℕ
runtime seconds = record {
  has = λ p. true;
  perform = λ op w. (ok w, w + 1);
  prepare = λ id req w. (ok (λ v. (ok seconds, v + 1)), w + 1);
}
