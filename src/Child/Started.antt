-- ===== src/Child/Started.antt =====
-- What `coraza_child_init` of src/mod_coraza.c leaves for the requests of its worker.
use coraza_apache.Child.{
  Child, child_init, init_servers, init_server, ℕ, List, Option, build_wafs, ServerRec, Loader,
  dl_open, Worker, ok, has_entries, init_tracked, create_mutex, DirConf,
}
use coraza_apache.Library.{Lib}
use coraza_apache.Base.{ℕ, Option, List, ◌≡◌, ◌∷◌, if-holds, Bool, true, refl, none, some, ◌∙◌, []}
use coraza_apache.Config.{DirConf}
use coraza_apache.DlOpen.{Loader, dl_open}
use coraza_apache.Request.{ok}
use coraza_apache.Transaction.{Worker}
use coraza_apache.Merge.{has_entries}
use coraza_apache.Child.Ready.{Ready, AllFit, init_servers-Ready}
use coraza_apache.WafCache.Sound.{Sound}
use coraza_apache.Waf.Built.{BuiltFrom, Freed}
use coraza_apache.Child.Dirs.{init_dirs-AllFit}

init_server_tracks :
    (lib : Lib) (base : Option ℕ) (k : ℕ) (c : Child)
    → (init_server lib base k c).tracked_dir_confs ≡ c.tracked_dir_confs
unfolding init_server
init_server_tracks lib base k c =
    if-holds (λ (x : Child). x.tracked_dir_confs ≡ c.tracked_dir_confs) _ (λ _. refl) (λ _. refl)

init_servers_track :
    (lib : Lib) (ss : List ServerRec) (c : Child)
    → (init_servers lib ss c).tracked_dir_confs ≡ c.tracked_dir_confs
unfolding init_servers
init_servers_track lib [] c = refl
init_servers_track lib (s ∷ ss) c = init_servers_track lib ss _ ∙ by_conf s.module_config
  where
    by_conf :
        (m : Option ℕ)
        → (elim m as (λ _. Child) [
          | none ↦ c
          | some k ↦ init_server lib s.lookup_defaults k c
        ]).tracked_dir_confs
          ≡ c.tracked_dir_confs
    by_conf none = refl
    by_conf (some k) = init_server_tracks lib s.lookup_defaults k c

init_tracked-AllFit :
    (lib : Lib) (R : ℕ → DirConf) (same_array : ℕ → ℕ → Bool)
    (shared : (j k : ℕ) → same_array j k ≡ true → (R j).rules ≡ (R k).rules) (m : Option (List ℕ))
    (tracked : List ℕ) (w : Worker)
    → m ≡ some tracked
    → Ready lib R w
    → let w' = init_tracked lib same_array m w in Ready lib R w' × AllFit lib R w' tracked
init_tracked-AllFit lib R same_array shared m tracked w e r =
    rw e (init_dirs-AllFit lib R same_array shared [] tracked w r tt)

-- If libcoraza loads and APR makes the mutex, in a worker that has leaked no configuration, whose cache is sound, whose
-- directory configurations are marked as having rules exactly when they have some, and where
-- configurations that share an array have the same rules, then `coraza_child_init` leaves the worker
-- so, with its mutex; and each tracked configuration with rules has no WAF, or one that was built
-- from exactly its rules.
pub child_init-AllFit :
    (lib : Lib) (l : Loader) (made : Bool) (same_array : ℕ → ℕ → Bool) (servers : List ServerRec)
    (c : Child) (tracked : List ℕ)
    → (dl_open l c.dl).0 ≡ ok
    → made ≡ true
    → c.tracked_dir_confs ≡ some tracked
    → ((j : ℕ) → (c.worker.dir_confs j).has_rules ≡ has_entries (c.worker.dir_confs j).rules)
    → ((j k : ℕ)
        → same_array j k ≡ true
        → (c.worker.dir_confs j).rules ≡ (c.worker.dir_confs k).rules)
    → Sound (BuiltFrom lib) c.worker.cache
    → Freed lib c.worker.calls
    → let w = (child_init lib l made same_array servers c).worker in
      Ready lib c.worker.dir_confs w × AllFit lib c.worker.dir_confs w tracked
unfolding child_init build_wafs create_mutex
child_init-AllFit lib l made same_array servers c tracked loaded created array marked shared cached
      freed =
    let R = c.worker.dir_confs in
    let start = create_mutex made c.worker in
    let r0 : Ready lib R start = record {
      rules = λ j. refl;
      has_rules = marked;
      children = λ j. refl;
      cached = record { all_built = cached.all_built; within = cached.within };
      freed = freed;
      mutex = rw created refl;
    } in
    let c1 = init_servers lib servers (record c { dl = (dl_open l c.dl).1; worker = start }) in
    let r1 =
      init_servers-Ready lib R servers (record c { dl = (dl_open l c.dl).1; worker = start }) r0 in
    rw loaded (
      init_tracked-AllFit lib R same_array shared c1.tracked_dir_confs tracked c1.worker
        (init_servers_track lib servers _ ∙ array) r1)
