-- ===== src/Child/Exit.antt =====
-- `coraza_child_exit` of src/mod_coraza.c frees each WAF that it finds exactly once.
use coraza_apache.Base.{
  ℕ, List, ◌==◌, ◌≡◌, true, ◌∷◌, false, Option, none, ◌∙◌, not, ◌+◌, Bool, ◌&&◌, some, Bool-cases,
  inr, arith, inl, ◌||◌, if◌then◌else◌, refl, sym, [], ap,
}
use coraza_apache.Child.{
  is_server_waf, free_servers, ServerConf, ServerRec, LibHistory, set_server_waf, free_waf, Child,
  child_exit, exit_dirs, is_dir_waf, Worker, free_dirs, zero_dirs, DirConf,
}
use coraza_apache.Directives.{ServerConf}
use coraza_apache.Library.{LibHistory, free_waf}
use coraza_apache.Child.Frees.{frees, one_if, free_dirs-frees}
use coraza_apache.Transaction.Scopes.{eq_at}
use coraza_apache.Transaction.{Worker}
use coraza_apache.Config.{DirConf}

-- At most one server configuration holds the WAF.
abbrev pub HeldOnce : ℕ → (ℕ → ServerConf) → Type 0
HeldOnce u f = (j k : ℕ) → u == (f j).waf ≡ true → u == (f k).waf ≡ true → j ≡ k

is_server_waf_same :
    (u : ℕ) (ss : List ServerRec) (f g : ℕ → ServerConf)
    → ((j : ℕ) → (u == (f j).waf) ≡ (u == (g j).waf))
    → is_server_waf u ss f ≡ is_server_waf u ss g
unfolding is_server_waf
is_server_waf_same u [] f g e = refl
is_server_waf_same u (s ∷ ss) f g e = by_conf s.module_config (is_server_waf_same u ss f g e)
  where
    by_conf :
        (m : Option ℕ)
        → is_server_waf u ss f ≡ is_server_waf u ss g
        → (elim m [ none ↦ false | some k ↦ u == (f k).waf ] || is_server_waf u ss f)
          ≡ (elim m [ none ↦ false | some k ↦ u == (g k).waf ] || is_server_waf u ss g)
    by_conf none rest = rest
    by_conf (some k) rest = rw (e k, rest) refl

is_server_waf_nowhere :
    (u : ℕ) (ss : List ServerRec) (f : ℕ → ServerConf)
    → ((j : ℕ) → (u == (f j).waf) ≡ false)
    → is_server_waf u ss f ≡ false
unfolding is_server_waf
is_server_waf_nowhere u [] f e = refl
is_server_waf_nowhere u (s ∷ ss) f e = by_conf s.module_config (is_server_waf_nowhere u ss f e)
  where
    by_conf :
        (m : Option ℕ)
        → is_server_waf u ss f ≡ false
        → (elim m [ none ↦ false | some k ↦ u == (f k).waf ] || is_server_waf u ss f) ≡ false
    by_conf none rest = rest
    by_conf (some k) rest = rw (e k, rest) refl

pub zeroed :
    (u k j : ℕ) (f : ℕ → ServerConf)
    → u == 0 ≡ false
    → (u == (set_server_waf k 0 f j).waf) ≡ (not (j == k) && u == (f j).waf)
zeroed u k j f nonzero = elim (Bool-cases (j == k)) [
  | inl here ↦ simp here (ground arith)
  | inr elsewhere ↦ simp elsewhere refl
]

zeroed-HeldOnce :
    (u k : ℕ) (f : ℕ → ServerConf)
    → u == 0 ≡ false
    → HeldOnce u f
    → HeldOnce u (set_server_waf k 0 f)
zeroed-HeldOnce u k f nonzero once j i a b =
    once j i (last_of _ _ (sym (zeroed u k j f nonzero) ∙ a))
      (last_of _ _ (sym (zeroed u k i f nonzero) ∙ b))
  where
    last_of : (x y : Bool) → (x && y) ≡ true → y ≡ true
    last_of x y h = ground arith

same_index : (j k : ℕ) → j ≡ k → j == k ≡ true
same_index j k e = ground arith

used_waf : (u w : ℕ) → u == 0 ≡ false → u == w ≡ true → (w == 0 ≡ false) × (w == u ≡ true)
used_waf u w nonzero same = (ground arith, ground arith)

other_waf : (u w : ℕ) → u == w ≡ false → w == u ≡ false
other_waf u w other = ground arith

-- The owner was zeroed: nobody is left with the WAF.
none_left :
    (u k j : ℕ) (f : ℕ → ServerConf)
    → u == 0 ≡ false
    → HeldOnce u f
    → u == (f k).waf ≡ true
    → (u == (set_server_waf k 0 f j).waf) ≡ false
none_left u k j f nonzero once owner = zeroed u k j f nonzero ∙ elim (Bool-cases (u == (f j).waf)) [
  | inr other ↦ rw other (ground arith)
  | inl same ↦ rw (same_index j k (once j k same owner)) refl
]

-- Another one was zeroed.
others_same :
    (u k j : ℕ) (f : ℕ → ServerConf)
    → u == 0 ≡ false
    → u == (f k).waf ≡ false
    → (u == (set_server_waf k 0 f j).waf) ≡ (u == (f j).waf)
others_same u k j f nonzero other = zeroed u k j f nonzero ∙ elim (Bool-cases (j == k)) [
  | inr elsewhere ↦ rw elsewhere refl
  | inl here ↦ rw here (sym (ap (λ x. u == (f x).waf) (eq_at j k here) ∙ other))
]

free_servers-frees :
    (u : ℕ) (ss : List ServerRec) (f : ℕ → ServerConf) (h : LibHistory)
    → u == 0 ≡ false
    → HeldOnce u f
    → frees u (free_servers ss f h).1 ≡ frees u h + one_if (is_server_waf u ss f)
unfolding free_servers is_server_waf
free_servers-frees u [] f h nonzero once = omega arith
free_servers-frees u (s ∷ ss) f h nonzero once = by_conf s.module_config (free_servers-frees u ss)
  where
    by_conf :
        (m : Option ℕ)
        → ((g : ℕ → ServerConf) (l : LibHistory)
            → u == 0 ≡ false
            → HeldOnce u g
            → frees u (free_servers ss g l).1 ≡ frees u l + one_if (is_server_waf u ss g))
        → frees u
            (elim m as (λ _. (ℕ → ServerConf) × LibHistory) [
              | none ↦ free_servers ss f h
              | some k ↦
                  free_servers ss
                    (if (f k).waf == 0 then f else set_server_waf k 0 f)
                    (if (f k).waf == 0 then h else free_waf (f k).waf ∷ h)
            ]).1
          ≡ frees u h
            + one_if (elim m [ none ↦ false | some k ↦ u == (f k).waf ] || is_server_waf u ss f)
    by_conf none rest = rest f h nonzero once
    by_conf (some k) rest = elim (Bool-cases (u == (f k).waf)) [
      | inl same ↦
          let (held, here) = used_waf u (f k).waf nonzero same in
          let g = set_server_waf k 0 f in
          let gone = is_server_waf_nowhere u ss g (λ j. none_left u k j f nonzero once same) in
          rw (held, same)
            (rest g (free_waf (f k).waf ∷ h) nonzero (zeroed-HeldOnce u k f nonzero once)
              ∙ rw (gone, here) (omega arith))
      | inr other ↦ elim (Bool-cases ((f k).waf == 0)) [
        | inl null ↦ simp (null, other) (rest f h nonzero once)
        | inr held ↦
            let g = set_server_waf k 0 f in
            let same_rest = is_server_waf_same u ss g f (λ j. others_same u k j f nonzero other) in
            rw (held, other)
              (rest g (free_waf (f k).waf ∷ h) nonzero (zeroed-HeldOnce u k f nonzero once)
                ∙ rw (same_rest, other_waf u (f k).waf other) (omega arith))
      ]
    ]

-- Does a configuration of the array hold the WAF?
abbrev pub in_array : ℕ → Option (List ℕ) → (ℕ → DirConf) → Bool
in_array u none f = false
in_array u (some is) f = is_dir_waf u is f

-- Does a configuration of the frozen array `g_config_dir_confs`, or a server's configuration, hold
-- the WAF? A server's default configuration (`lookup_defaults`) need not stand in the array.
abbrev pub holds : ℕ → List ServerRec → Child → Bool
holds u servers c =
    in_array u c.config_dir_confs c.worker.dir_confs || is_server_waf u servers c.server_confs

drop_last : (x y : Bool) → one_if (x && y && true) ≡ one_if (x && y)
drop_last x y = ground arith

exit_dirs-frees :
    (u : ℕ) (servers : List ServerRec) (c : Child)
    → u == 0 ≡ false
    → frees u (exit_dirs servers c).calls
      ≡ frees u c.worker.calls
        + one_if (
            in_array u c.config_dir_confs c.worker.dir_confs
            && not (is_server_waf u servers c.server_confs))
unfolding exit_dirs is_dir_waf
exit_dirs-frees u servers c nonzero = by_array c.config_dir_confs
  where
    by_array :
        (m : Option (List ℕ))
        → frees u
            (elim m as (λ _. Worker) [
              | none ↦ c.worker
              | some is ↦ record (c.worker) {
                calls = free_dirs servers c.server_confs [] is c.worker.dir_confs c.worker.calls;
                dir_confs = zero_dirs is c.worker.dir_confs;
              }
            ]).calls
          ≡ frees u c.worker.calls
            + one_if
                (in_array u m c.worker.dir_confs && not (is_server_waf u servers c.server_confs))
    by_array none = omega arith
    by_array (some is) =
        free_dirs-frees servers c.server_confs [] is c.worker.dir_confs u c.worker.calls nonzero
        ∙ omega (arith, drop_last _ _)

either_once : (d s : Bool) → one_if (d && not s) + one_if s ≡ one_if (d || s)
either_once d s = ground arith

-- When a worker exits, a WAF that at most one server configuration holds is freed exactly once if a
-- directory configuration of the frozen array `g_config_dir_confs` or the configuration of a server
-- holds it, however many of these hold it; and else, so also if only a configuration outside of the
-- array holds it, not at all.
pub child_exit-frees :
    (u : ℕ) (servers : List ServerRec) (c : Child)
    → u == 0 ≡ false
    → HeldOnce u c.server_confs
    → frees u (child_exit servers c).worker.calls
      ≡ frees u c.worker.calls + one_if (holds u servers c)
unfolding child_exit
child_exit-frees u servers c nonzero once =
    let dirs = exit_dirs-frees u servers c nonzero in
    let last =
      free_servers-frees u servers c.server_confs (exit_dirs servers c).calls nonzero once in
    omega (arith, dirs, last, either_once _ _)
