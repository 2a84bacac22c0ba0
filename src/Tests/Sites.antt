-- ===== src/Tests/Sites.antt =====
-- The theorems on starting and reconciling at a host with one sandbox that runs.
use sandcube.Prelude.{
  String, str_eq, ◌≡◌, refl, Bool, true, false, Option, none, some, [], ◌∷◌, if◌then◌else◌, arith,
  map,
}
use sandcube.Exec.{Err, Result, ok, err, Exec, OnOk, sentinel, not_found}
use sandcube.Exec.Rules.{Preserves}
use sandcube.Calls.{Sys, fresh}
use sandcube.Paths.{Bytes, bytes}
use sandcube.Runtime.Types.{runtime_name}
use sandcube.Runtime.Engine.{Engine, ContainerInfo, running}
use sandcube.Runtime.Container.Laws.{IsTelling, manages, Present, Tells}
use sandcube.Runtime.Inventory.{Catalog, list}
use sandcube.Runtime.Inventory.Laws.{listed, id_of, list_lem}
use sandcube.Quota.Kernel.{Kernel, Wake}
use sandcube.Quota.Journal.Safety.{IsGuarded}
use sandcube.Quota.Journal.Reconciled.{IsChoosing}
use sandcube.Network.Host.{Host, exited}
use sandcube.Network.Remove.{clear_direction}
use sandcube.Network.Reconcile.{Journals}
use sandcube.Network.Reconcile.Sparing.{IsSparing, Denies, is_running}
use sandcube.Processes.{Machine, Shim}
use sandcube.Processes.Table.{of_sandbox}
use sandcube.Processes.Use.{Woken}
use sandcube.Reconcile.{reconcile}
use sandcube.Reconcile.Snapshots.{Holders, IsSweeping}
use sandcube.Reconcile.Histories.{IsRetaining}
use sandcube.Reconcile.Laws.{IsTidying, reconcile-Keeps}
use sandcube.Tests.Disks.{give, unlimited, record_7}
use sandcube.Processes.Start.{track}
use sandcube.Runtime.Container.{is_managed}
use sandcube.Tests.Shims.{sleeper}

-- Which snapshots, networks and histories there are, by the ID of their sandbox.
abbrev pub Site : Type 0
Site = String → Bool

abbrev gone : Err
gone = sentinel not_found "not found"

abbrev pub erase : String → Exec Site (Unit {0})
erase id w = (ok tt, λ n. if str_eq n id then false else w n)

abbrev site_info : ContainerInfo
site_info = record {
  labels = λ l. "true";
  runtime = runtime_name;
  snapshot_key = "sbx_a";
  snapshotter = "overlayfs";
  image = "img";
}

abbrev is_there : String → Bool
is_there id = str_eq "sbx_a" id

abbrev if_there : {A : Type 0} → Bool → A → Result A
if_there true a = ok a
if_there false a = err gone

abbrev pub site_engine : Engine Site
site_engine = record {
  version = give tt;
  load_container = λ id w. (if_there (is_there id) tt, w);
  container_info = λ id w. (if_there (is_there id) site_info, w);
  delete_container = λ id. give tt;
  get_image = λ r. give tt;
  pull_image = λ r. give tt;
  unpack_image = λ r. give tt;
  stat_snapshot = λ id. give (λ l. "true");
  remove_snapshot = λ key. erase key;
  new_snapshot = λ id image. give tt;
  snapshot_mounts = λ s id. give [];
  commit_container = λ c f o. give tt;
  find_task = λ id w. (if_there (is_there id) tt, w);
  task_status = λ id w. (if_there (is_there id) running, w);
  kill_task = λ id. give tt;
  delete_task_record = λ id. give tt;
  close_task_io = λ id. give tt;
  new_task = λ id. give tt;
  start_task = λ id. give tt;
}

-- One container, one orphaned snapshot, and an old history.
abbrev pub site_catalog : Catalog Site
site_catalog = record {
  managed = give ("sbx_a" ∷ "other" ∷ []);
  containers = give ("sbx_a" ∷ []);
  snapshots = give (("sbx_a", λ l. "true") ∷ ("sbx_old", λ l. "true") ∷ []);
  histories = give (("sbx_a", true) ∷ ("sbx_old", true) ∷ []);
}

abbrev containers : String → Option ContainerInfo
containers id = if is_there id then some site_info else none

load_tells : (b : Bool) → Present (if b then some site_info else none) (if_there b tt)
load_tells true = tt
load_tells false = λ absent. refl

info-Tells : (b : Bool) → Tells (if b then some site_info else none) (if_there b site_info)
info-Tells true = refl
info-Tells false = λ absent. refl

abbrev site-IsTelling : IsTelling site_engine
site-IsTelling = record {
  containers = λ w. containers;
  load_lem = λ w id. load_tells (is_there id);
  info_lem = λ w id. info-Tells (is_there id);
  containers-load = λ w id. refl;
  containers-info = λ w id. refl;
  containers-task = λ w id. refl;
  containers-status = λ w id. refl;
}

list_lem_example :
    OnOk
      (λ ss. map id_of ss ≡ listed containers ("sbx_a" ∷ "other" ∷ []))
      (list site_engine site_catalog (fresh (λ n. true))).0
list_lem_example =
    list_lem site_catalog site-IsTelling (λ w. "sbx_a" ∷ "other" ∷ []) (λ w. refl) (λ w. refl)
      (fresh (λ n. true))

-- What is there of the sandbox.
abbrev pub Whole : Site → Type 0
Whole w = w "sbx_a" ≡ true

erase-Whole : (id : String) → str_eq "sbx_a" id ≡ false → Preserves Whole (erase id)
erase-Whole id apart = record { from = λ w h. rw apart h }

same_site : {A : Type 0} (r : Result A) → Preserves Whole (λ w. (r, w))
same_site r = record { from = λ w h. h }

abbrev pub holders : Holders
holders = record { containers = "sbx_a" ∷ []; key_of = λ id. "sbx_a"; owned = λ key. true }

key_told : (b : Bool) → OnOk (λ info. info.snapshot_key ≡ "sbx_a") (if_there b site_info)
key_told true = refl
key_told false = tt

pub site-IsSweeping : IsSweeping site_engine site_catalog holders Whole
site-IsSweeping = record {
  list_lem = λ w h. refl;
  info_lem = λ w id h. key_told (is_there id);
  walk_lem = λ w h. (λ ours. refl, (λ ours. refl, tt));
  list-Safe = same_site _;
  info-Safe = λ id. same_site _;
  walk-Safe = same_site _;
  remove-Safe = λ key free. erase-Whole key (free.1.0);
}

abbrev site_shim : Shim Site
site_shim = record {
  is_durable = true;
  fingerprint = λ req. "h";
  now = λ w. (7, w);
  new_id = λ w. ("proc_a", w);
  load = λ id. give tt;
  find_task = λ id. give tt;
  task_status = λ id. give running;
  read_spec = λ id. give (record { args = []; terminal = false; env = []; cwd = "/" });
  create_exec = λ pid ps. give tt;
  start_exec = λ pid. give tt;
  exec_status = λ pid. give (record { state = running; exit_status = 0; exit_time = none });
  kill_exec = λ pid. give tt;
  delete_exec = λ pid. give tt;
  delete_killing = λ pid. give tt;
  cancel_io = λ pid. give tt;
  load_exec = λ id pid. give tt;
  make_directory = λ id pid. give tt;
  make_pipe = λ id pid name. give tt;
  start_collector = λ id pid. give tt;
  save = λ info. give tt;
  read_file = λ id pid name. give [];
  stat_file = λ id pid name. give tt;
  make_root = give tt;
  list_directories = give [];
  list_records = give [];
  stat_record = λ id pid. give tt;
  remove_directory = λ id pid. give tt;
  read_record = λ id pid. give [];
  decode = λ raw. ok sleeper;
  has_client = true;
  remove_history = λ id. erase id;
  wait_done = λ pid. give tt;
}

site-IsTidying : IsTidying site_shim Whole
site-IsTidying = record {
  is_idle = λ w pid. false;
  status_lem = λ w pid idle. absurd idle;
  status-Safe = λ pid. same_site _;
  delete-Safe = λ w pid idle h. h;
}

unmanaged : (b : Bool) → manages (if b then some site_info else none) ≡ false → b ≡ false
unmanaged true h = h
unmanaged false h = refl

abbrev await : String → Exec (Sys (Machine Site)) (Unit {0})
await pid = give tt

abbrev race : String → Exec (Sys (Machine Site)) Woken
race pid = give Woken.finished

site-IsRetaining :
    IsRetaining site-IsTelling site_catalog site_shim await containers "sbx_a" Whole
      (λ t. t ≡ ("proc_a", track sleeper) ∷ [])
site-IsRetaining = record {
  present = refl;
  told = λ w h. refl;
  load-Intact = λ id. same_site _;
  info-Intact = λ id. same_site _;
  histories-Intact = same_site _;
  remove-Intact = λ id absent. erase-Whole id (unmanaged (is_there id) absent);
  await_kept = λ pid. record { from = λ s h. h };
}

abbrev site_kernel : Kernel Site
site_kernel = record {
  is_xfs = λ path. give true;
  mounts = give [];
  get_quota = λ device project. give unlimited;
  set_limits = λ device project q. give tt;
  open_directory = λ path. give 3;
  get_attributes = λ fd. give (record { flags = 512; project = 7 });
  set_attributes = λ fd a. give tt;
  close = λ fd. give tt;
  stat = λ path. give tt;
  cleanup = give tt;
  wait = λ w. (Wake.deadline, w);
  make_journal_directory = give tt;
  write_journal = λ id r. give tt;
  read_journal = λ id. give [];
  decode_journal = λ raw. ok record_7;
  remove_journal = λ id. give tt;
  load_size = λ id. give none;
  load_mounts = λ id. give [];
  list_journals = give ("sbx_old" ∷ []);
  load_container = λ id w. (err gone, w);
  stat_snapshot = λ id w. (err gone, w);
}

site-IsGuarded : IsGuarded site_kernel Whole
site-IsGuarded = record {
  holdings = λ w. record {
    exists = λ path. true;
    blocks = λ device project. 0;
    inodes = λ device project. 0;
  };
  stat_lem = λ w path absent. absurd (ground (arith, absent));
  get_quota_lem = λ w device project q got. ground (arith, got);
  holdings-stat = λ w path. refl;
  holdings-get_quota = λ w device project. refl;
  is_xfs-Safe = λ path. same_site _;
  mounts-Safe = same_site _;
  stat-Safe = λ path. same_site _;
  get_quota-Safe = λ device project. same_site _;
  cleanup-Safe = same_site _;
  wait-Safe = λ w h. h;
  read_journal-Safe = λ id. same_site _;
  remove_journal-Safe = λ id. same_site _;
  clear-Safe = λ w device id rec journal h unused. h;
}

site-IsChoosing : IsChoosing site_kernel Whole
site-IsChoosing = record {
  list-Safe = same_site _;
  load-Safe = λ id. same_site _;
  stat-Safe = λ id. same_site _;
}

abbrev site_host : Host Site
site_host = record {
  lock = give tt;
  read_journal = λ id. give (bytes "{}");
  decode_record = λ raw. ok record {
    id = "sbx_old";
    name = "sbx_old";
    guest = bytes "198.18.0.6";
    gateway = bytes "198.18.0.5";
    subnet = bytes "198.18.0.4/30";
  };
  write_journal = λ id n. give tt;
  remove_journal = λ id. give tt;
  make_network_dir = give tt;
  make_sandbox_dir = λ id. give tt;
  remove_sandbox_dir = λ id. give tt;
  write_resolver = λ id b. give tt;
  list_links = give ("sbx_a" ∷ "sbx_old" ∷ []);
  delete_link = λ n. erase n;
  stat_namespace = λ n. give tt;
  delete_namespace = λ n. give tt;
  run_conntrack = λ d g w. (exited 0 [], w);
  list_tables = give (("inet", "sbx_old") ∷ []);
  delete_table = λ n. give tt;
  list_ruleset = give (bytes "{}");
  show_routes = λ s. give 0;
  load_firewall = λ n. give tt;
  run_command = λ args. give tt;
  parse_address = λ s. some (record { a = 198; b = 18; c = 0; d = 6 });
  network_name = λ id. id;
  hash_start = λ n. 513;
}

abbrev site_journals : Journals Site
site_journals = record { list_journals = give ("sbx_a.json" ∷ "sbx_old.json" ∷ []) }

denied : {A : Type 0} (b : Bool) (a : A) → Denies b (if_there b a)
denied true a = tt
denied false a = λ absent. refl

managed_told :
    (b : Bool) → OnOk (λ info. is_managed info ≡ false → b ≡ false) (if_there b site_info)
managed_told true = λ other. other
managed_told false = tt

running_told : (b : Bool) → OnOk (λ state. is_running state ≡ b) (if_there b running)
running_told true = refl
running_told false = tt

cleared :
    (guest : Bytes) (direction : String)
    → Preserves Whole (clear_direction site_host guest direction)
unfolding clear_direction
cleared guest direction = record { from = λ w h. h }

site-IsSparing : IsSparing site_engine site_host site_journals is_there Whole
site-IsSparing = record {
  load_lem = λ w id h. denied (is_there id) tt;
  info_lem = λ w id h. (denied (is_there id) site_info, managed_told (is_there id));
  task_lem = λ w id h. denied (is_there id) tt;
  status_lem = λ w id h. (denied (is_there id) running, running_told (is_there id));
  load-Safe = λ id. same_site _;
  info-Safe = λ id. same_site _;
  task-Safe = λ id. same_site _;
  status-Safe = λ id. same_site _;
  names-Safe = same_site _;
  lock-Safe = same_site _;
  read-Safe = λ id. same_site _;
  links-Safe = same_site _;
  tables-Safe = same_site _;
  stat-Safe = λ name. same_site _;
  clear-Safe = λ guest direction. cleared guest direction;
  link-Safe = λ id off. erase-Whole id off;
  namespace-Safe = λ id off. same_site _;
  table-Safe = λ id off. same_site _;
  directory-Safe = λ id off. same_site _;
  journal-Safe = λ id off. same_site _;
}

abbrev site : Machine Site
site = record { outside = λ n. true; table = ("proc_a", track sleeper) ∷ [] }

entries_there : of_sandbox "sbx_a" site.table ≡ ("proc_a", track sleeper) ∷ []
unfolding of_sandbox
entries_there = refl

reconcile-Keeps_example :
    let s' =
      (reconcile site_engine site_catalog site_shim await race site_kernel site_host site_journals 2
        (fresh site)).1 in
    Whole s'.world.outside × (of_sandbox "sbx_a" s'.world.table ≡ ("proc_a", track sleeper) ∷ [])
reconcile-Keeps_example =
    reconcile-Keeps site-IsTidying site-IsSweeping site-IsRetaining site-IsGuarded site-IsChoosing
      site-IsSparing race 2 (fresh site) refl entries_there
