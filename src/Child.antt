-- ===== src/Child.antt =====
-- A worker's start and exit, `coraza_child_init` and `coraza_child_exit` of src/mod_coraza.c.
pub mod Frees
pub mod Exit
pub mod Cleared
pub mod Ready
pub mod Dirs
pub mod Started
pub mod Serves
mod Examples
use coraza_apache.DlOpen.{Dl, dl_close, Loader, dl_open}
use coraza_apache.Waf.{finish_waf, build_waf}
use coraza_apache.Base.{
  Option, List, ℕ, some, none, Bool, ◌∷◌, if◌then◌else◌, true, ◌++◌, false, ◌&&◌, not, [], ◌==◌,
  eqb_ℤ, ◌||◌,
}
use coraza_apache.Transaction.{Worker, update, set_waf}
use coraza_apache.Library.{LibHistory, Lib, rules_count, free_waf, new_waf_config}
use coraza_apache.Config.{DirConf}
use coraza_apache.Directives.{ServerConf}
use coraza_apache.Merge.{has_entries}
use coraza_apache.Request.{ok}

-- A `server_rec`: its own configuration and its default per-directory one, by their indices. A
-- virtual host without directives of its own shares those of the main server.
pub record ServerRec : Type 0 where
  pub module_config : Option ℕ
  pub lookup_defaults : Option ℕ

-- The process: the loaded library, the worker of the requests, the server configurations, and the
-- arrays of directory configurations `g_tracked_dir_confs` and `g_config_dir_confs`.
pub record Child : Type 0 where
  pub dl : Dl
  pub worker : Worker
  pub server_confs : ℕ → ServerConf
  pub tracked_dir_confs : Option (List ℕ)
  pub config_dir_confs : Option (List ℕ)
  pub exit_registered : Bool

abbrev pub set_server_waf : ℕ → ℕ → (ℕ → ServerConf) → ℕ → ServerConf
set_server_waf k waf f j = if j == k then record (f j) { waf = waf } else f j

abbrev pub with_calls : LibHistory → Worker → Worker
with_calls h w = record w { calls = h }

-- A WAF without rules; the handle is left as it was where there is no configuration for it.
pub empty_waf : Lib → ℕ → LibHistory → ℕ × LibHistory
empty_waf lib before h =
    let config = lib.handle h new_waf_config in
    if config == 0 then (before, new_waf_config ∷ h) else finish_waf lib config (new_waf_config ∷ h)

pub build_server_waf : Lib → ServerConf → LibHistory → ℕ × LibHistory
unfolding empty_waf
build_server_waf lib scf h =
    if has_entries scf.rules then build_waf lib scf.rules h else empty_waf lib scf.waf h

-- `base_dcf->waf`, where there is a base configuration without a WAF.
abbrev pub share_waf : Option ℕ → ℕ → Worker → Worker
share_waf none waf w = w
share_waf (some d) waf w = if (w.dir_confs d).waf == 0 then set_waf d waf w else w

-- The loop's body of step 2, for a server with a configuration.
pub init_server : Lib → Option ℕ → ℕ → Child → Child
unfolding build_server_waf
init_server lib base k c =
    let (waf, h) = build_server_waf lib (c.server_confs k) c.worker.calls in
    let stored = set_server_waf k waf c.server_confs in
    let shared = share_waf base waf (with_calls h c.worker) in
    if waf == 0
    then record c { worker = with_calls h c.worker; server_confs = stored }
    else record c { worker = with_calls (rules_count waf ∷ h) shared; server_confs = stored }

pub init_servers : Lib → List ServerRec → Child → Child
unfolding init_server
init_servers lib [] c = c
init_servers lib (s ∷ ss) c =
    init_servers lib ss
      (elim s.module_config [ none ↦ c | some k ↦ init_server lib s.lookup_defaults k c ])

-- The WAF of the first earlier configuration with the same array of rules that has one, or 0.
-- `same_array` tells whether two configurations point at one array.
pub built_before : (ℕ → ℕ → Bool) → ℕ → List ℕ → Worker → ℕ
built_before same_array i [] w = 0
built_before same_array i (j ∷ js) w =
    if same_array j i && not ((w.dir_confs j).waf == 0)
    then (w.dir_confs j).waf
    else built_before same_array i js w

-- A WAF is built for the configuration, and its rules are counted where that succeeds.
pub build_dir : Lib → ℕ → Worker → Worker
build_dir lib i w =
    let (waf, h) = build_waf lib (w.dir_confs i).rules w.calls in
    set_waf i waf (with_calls (if waf == 0 then h else rules_count waf ∷ h) w)

-- The loop's body of step 3.
pub init_dir : Lib → (ℕ → ℕ → Bool) → List ℕ → ℕ → Worker → Worker
unfolding built_before build_dir
init_dir lib same_array earlier i w =
    let dcf = w.dir_confs i in
    let found = built_before same_array i earlier w in
    if not dcf.has_rules || not (has_entries dcf.rules)
    then w
    else if not (found == 0)
    then set_waf i found w
    else build_dir lib i w

pub init_dirs : Lib → (ℕ → ℕ → Bool) → List ℕ → List ℕ → Worker → Worker
unfolding init_dir
init_dirs lib same_array earlier [] w = w
init_dirs lib same_array earlier (i ∷ is) w =
    init_dirs lib same_array (earlier ++ i ∷ []) is (init_dir lib same_array earlier i w)

abbrev pub init_tracked : Lib → (ℕ → ℕ → Bool) → Option (List ℕ) → Worker → Worker
init_tracked lib same_array none w = w
init_tracked lib same_array (some is) w = init_dirs lib same_array [] is w

-- The mutex, if `apr_thread_mutex_create` made one (`made`): its status is not looked at, and the
-- pointer stays null where it fails. And the pool of the cache.
pub create_mutex : Bool → Worker → Worker
create_mutex made w = record w { mutex = made || w.mutex; cache = record (w.cache) { pool = true } }

-- Behind the loading of the library.
pub build_wafs : Lib → Bool → (ℕ → ℕ → Bool) → List ServerRec → Child → Child
unfolding init_servers init_dirs create_mutex
build_wafs lib made same_array servers c =
    let c1 = init_servers lib servers (record c { worker = create_mutex made c.worker }) in
    record c1 {
      worker = init_tracked lib same_array c1.tracked_dir_confs c1.worker;
      config_dir_confs = c1.tracked_dir_confs;
      tracked_dir_confs = none;
      exit_registered = true;
    }

unfoldable pub child_init : Lib → Loader → Bool → (ℕ → ℕ → Bool) → List ServerRec → Child → Child
unfolding build_wafs
child_init lib l made same_array servers c =
    let (status, dl) = dl_open l c.dl in
    if not (eqb_ℤ status ok)
    then record c { dl = dl }
    else build_wafs lib made same_array servers (record c { dl = dl })

-- Is the WAF one of a server?
pub is_server_waf : ℕ → List ServerRec → (ℕ → ServerConf) → Bool
is_server_waf waf [] f = false
is_server_waf waf (s ∷ ss) f =
    elim s.module_config [ none ↦ false | some k ↦ waf == (f k).waf ] || is_server_waf waf ss f

-- Does one of the configurations hold the WAF?
pub is_dir_waf : ℕ → List ℕ → (ℕ → DirConf) → Bool
is_dir_waf waf [] f = false
is_dir_waf waf (j ∷ js) f = (f j).waf == waf || is_dir_waf waf js f

-- The first pass over the configurations, behind the `earlier` ones.
pub free_dirs :
    List ServerRec → (ℕ → ServerConf) → List ℕ → List ℕ → (ℕ → DirConf) → LibHistory → LibHistory
unfolding is_server_waf is_dir_waf
free_dirs servers confs earlier [] f h = h
free_dirs servers confs earlier (i ∷ is) f h =
    let waf = (f i).waf in
    let skip = waf == 0 || is_server_waf waf servers confs || is_dir_waf waf earlier f in
    free_dirs servers confs (earlier ++ i ∷ []) is f (if skip then h else free_waf waf ∷ h)

-- The second pass.
pub zero_dirs : List ℕ → (ℕ → DirConf) → ℕ → DirConf
zero_dirs [] f = f
zero_dirs (i ∷ is) f = zero_dirs is (update f i (record (f i) { waf = 0 }))

-- The loop over the servers.
pub free_servers : List ServerRec → (ℕ → ServerConf) → LibHistory → (ℕ → ServerConf) × LibHistory
free_servers [] f h = (f, h)
free_servers (s ∷ ss) f h = elim s.module_config [
  | none ↦ free_servers ss f h
  | some k ↦
      let waf = (f k).waf in
      free_servers ss (if waf == 0 then f else set_server_waf k 0 f)
        (if waf == 0 then h else free_waf waf ∷ h)
]

pub exit_dirs : List ServerRec → Child → Worker
unfolding free_dirs zero_dirs
exit_dirs servers c = elim c.config_dir_confs [
  | none ↦ c.worker
  | some is ↦ record (c.worker) {
    calls = free_dirs servers c.server_confs [] is c.worker.dir_confs c.worker.calls;
    dir_confs = zero_dirs is c.worker.dir_confs;
  }
]

unfoldable pub child_exit : List ServerRec → Child → Child
unfolding exit_dirs free_servers
child_exit servers c =
    let w = exit_dirs servers c in
    let (confs, h) = free_servers servers c.server_confs w.calls in
    record c { worker = with_calls h w; server_confs = confs; dl = dl_close c.dl }
