-- ===== src/Child/Cleared.antt =====
-- What `coraza_child_exit` of src/mod_coraza.c leaves in the configurations that it goes through.
use coraza_apache.Child.{
  zero_dirs, free_servers, child_exit, is_dir_waf, is_server_waf, exit_dirs, DirConf, ServerConf,
  ServerRec, Child, set_server_waf, LibHistory, update, free_waf,
}
use coraza_apache.Base.{
  ℕ, List, if◌then◌else◌, ◌==◌, ◌≡◌, false, ◌∷◌, if-holds, Bool-cases, [], Option, arith, inl, ◌∙◌,
  none, refl, some, inr, ◌||◌, ap, Bool,
}
use coraza_apache.Config.{DirConf}
use coraza_apache.Directives.{ServerConf}
use coraza_apache.Library.{LibHistory, free_waf}
use coraza_apache.Transaction.{update}
use coraza_apache.Child.Exit.{holds, zeroed, in_array}

update_clear :
    (u i j : ℕ) (f : ℕ → DirConf)
    → u == 0 ≡ false
    → (f j).waf == u ≡ false
    → (update f i (record (f i) { waf = 0 }) j).waf == u ≡ false
update_clear u i j f nonzero clear = elim (Bool-cases (j == i)) [
  | inl here ↦ rw here (ground arith)
  | inr elsewhere ↦ rw elsewhere clear
]

update_cleared :
    (u i : ℕ) (f : ℕ → DirConf)
    → u == 0 ≡ false
    → (update f i (record (f i) { waf = 0 }) i).waf == u ≡ false
update_cleared u i f nonzero = ground arith

zero_dirs_clear :
    (u : ℕ) (is : List ℕ) (j : ℕ) (f : ℕ → DirConf)
    → u == 0 ≡ false
    → (f j).waf == u ≡ false
    → (zero_dirs is f j).waf == u ≡ false
unfolding zero_dirs
zero_dirs_clear u [] j f nonzero clear = clear
zero_dirs_clear u (i ∷ is) j f nonzero clear =
    zero_dirs_clear u is j _ nonzero (update_clear u i j f nonzero clear)

zero_dirs_cleared :
    (u : ℕ) (is : List ℕ) (f : ℕ → DirConf)
    → u == 0 ≡ false
    → is_dir_waf u is (zero_dirs is f) ≡ false
unfolding zero_dirs is_dir_waf
zero_dirs_cleared u [] f nonzero = refl
zero_dirs_cleared u (i ∷ is) f nonzero =
    let g = update f i (record (f i) { waf = 0 }) in
    rw
      (
        zero_dirs_clear u is i g nonzero (update_cleared u i f nonzero),
        zero_dirs_cleared u is g nonzero,
      )
      refl

-- A server's configuration behind its turn.
abbrev after_turn : ℕ → (ℕ → ServerConf) → ℕ → ServerConf
after_turn k f = if (f k).waf == 0 then f else set_server_waf k 0 f

turn_clear :
    (u k j : ℕ) (f : ℕ → ServerConf)
    → u == 0 ≡ false
    → u == (f j).waf ≡ false
    → u == (after_turn k f j).waf ≡ false
turn_clear u k j f nonzero clear =
    if-holds (λ (g : ℕ → ServerConf). u == (g j).waf ≡ false) ((f k).waf == 0) (λ _. clear)
      (λ _. zeroed u k j f nonzero ∙ ground arith)

turn_cleared : (u k : ℕ) (f : ℕ → ServerConf) → u == 0 ≡ false → u == (after_turn k f k).waf ≡ false
turn_cleared u k f nonzero =
    if-holds (λ (g : ℕ → ServerConf). u == (g k).waf ≡ false) ((f k).waf == 0)
      (λ null. ground arith) (λ _. zeroed u k k f nonzero ∙ ground arith)

free_servers_clear :
    (u : ℕ) (ss : List ServerRec) (j : ℕ) (f : ℕ → ServerConf) (h : LibHistory)
    → u == 0 ≡ false
    → u == (f j).waf ≡ false
    → u == ((free_servers ss f h).0 j).waf ≡ false
unfolding free_servers
free_servers_clear u [] j f h nonzero clear = clear
free_servers_clear u (s ∷ ss) j f h nonzero clear =
    by_conf s.module_config (free_servers_clear u ss j)
  where
    by_conf :
        (m : Option ℕ)
        → ((g : ℕ → ServerConf) (l : LibHistory)
            → u == 0 ≡ false
            → u == (g j).waf ≡ false
            → u == ((free_servers ss g l).0 j).waf ≡ false)
        → u
            == ((elim m as (λ _. (ℕ → ServerConf) × LibHistory) [
              | none ↦ free_servers ss f h
              | some k ↦
                  free_servers ss
                    (if (f k).waf == 0 then f else set_server_waf k 0 f)
                    (if (f k).waf == 0 then h else free_waf (f k).waf ∷ h)
            ]).0
                j).waf
          ≡ false
    by_conf none rest = rest f h nonzero clear
    by_conf (some k) rest = rest (after_turn k f) _ nonzero (turn_clear u k j f nonzero clear)

free_servers_cleared :
    (u : ℕ) (ss : List ServerRec) (f : ℕ → ServerConf) (h : LibHistory)
    → u == 0 ≡ false
    → is_server_waf u ss (free_servers ss f h).0 ≡ false
unfolding free_servers is_server_waf
free_servers_cleared u [] f h nonzero = refl
free_servers_cleared u (s ∷ ss) f h nonzero = by_conf s.module_config (free_servers_cleared u ss)
  where
    by_conf :
        (m : Option ℕ)
        → ((g : ℕ → ServerConf) (l : LibHistory)
            → u == 0 ≡ false
            → is_server_waf u ss (free_servers ss g l).0 ≡ false)
        → (let g =
              (elim m as (λ _. (ℕ → ServerConf) × LibHistory) [
                | none ↦ free_servers ss f h
                | some k ↦
                    free_servers ss
                      (if (f k).waf == 0 then f else set_server_waf k 0 f)
                      (if (f k).waf == 0 then h else free_waf (f k).waf ∷ h)
              ]).0 in
            (elim m [ none ↦ false | some k ↦ u == (g k).waf ] || is_server_waf u ss g) ≡ false)
    by_conf none rest = rest f h nonzero
    by_conf (some k) rest =
        let l = if (f k).waf == 0 then h else free_waf (f k).waf ∷ h in
        rw
          (
            free_servers_clear u ss k (after_turn k f) l nonzero (turn_cleared u k f nonzero),
            rest (after_turn k f) l nonzero,
          )
          refl

exit_dirs_zero :
    (servers : List ServerRec) (c : Child) (is : List ℕ)
    → c.config_dir_confs ≡ some is
    → (exit_dirs servers c).dir_confs ≡ zero_dirs is c.worker.dir_confs
unfolding exit_dirs
exit_dirs_zero servers c is e = rw e refl

neither : (a b : Bool) → a ≡ false → b ≡ false → (a || b) ≡ false
neither a b p q = ground arith

in_array_cleared :
    (u : ℕ) (servers : List ServerRec) (c : Child) (m : Option (List ℕ))
    → u == 0 ≡ false
    → c.config_dir_confs ≡ m
    → in_array u m (exit_dirs servers c).dir_confs ≡ false
in_array_cleared u servers c none nonzero e = refl
in_array_cleared u servers c (some is) nonzero e =
    ap (is_dir_waf u is) (exit_dirs_zero servers c is e)
    ∙ zero_dirs_cleared u is c.worker.dir_confs nonzero

-- When a worker has exited, no directory configuration of the frozen array `g_config_dir_confs` and
-- no configuration of a server holds a WAF any more; configurations outside of the array are not
-- looked at.
pub child_exit_clears :
    (u : ℕ) (servers : List ServerRec) (c : Child)
    → u == 0 ≡ false
    → holds u servers (child_exit servers c) ≡ false
unfolding child_exit
child_exit_clears u servers c nonzero =
    neither _ _ (in_array_cleared u servers c c.config_dir_confs nonzero refl)
      (free_servers_cleared u servers c.server_confs (exit_dirs servers c).calls nonzero)
