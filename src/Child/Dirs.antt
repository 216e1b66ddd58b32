-- ===== src/Child/Dirs.antt =====
-- Step 3 of `coraza_child_init` in src/mod_coraza.c: the WAFs of the tracked directory configurations.
use coraza_apache.Library.{Lib, LibHistory, rules_count}
use coraza_apache.Base.{
  Bool, ◌≡◌, ℕ, List, not, ◌||◌, true, false, arith, ◌++◌, if-holds, inl, Bool-cases, append-nil,
  ◌∷◌, ap, [], inr, if◌then◌else◌, ◌==◌, ◌&&◌, append_assoc, refl,
}
use coraza_apache.Config.{RuleEntry, DirConf}
use coraza_apache.Child.{
  built_before, init_dir, build_dir, init_dirs, has_entries, with_calls, set_waf, build_waf,
  rules_count, DirConf,
}
use coraza_apache.Transaction.Scopes.{Fit, set_waf-waf, eq_at}
use coraza_apache.Transaction.{Worker, set_waf}
use coraza_apache.Child.Ready.{Ready, AllFit, DirFits, set_waf-Ready, with_calls-Ready}
use coraza_apache.Merge.{has_entries}
use coraza_apache.Waf.Built.{build_waf-BuiltFrom, Freed}
use coraza_apache.Waf.{build_waf}

no_rules : (a b x : Bool) → a ≡ x → b ≡ x → (not a || not b) ≡ true → x ≡ false
no_rules a b x p q h = ground arith

all_rules : (a b x : Bool) → a ≡ x → b ≡ x → (not a || not b) ≡ false → x ≡ true
all_rules a b x p q h = ground arith

-- Step 3, given when two configurations share an array of rules.
module _ (lib : Lib) (R : ℕ → DirConf) (same_array : ℕ → ℕ → Bool)
    (shared : (j k : ℕ) → same_array j k ≡ true → (R j).rules ≡ (R k).rules) where
  set_waf-DirFits :
      (j k waf : ℕ) (w : Worker)
      → DirFits lib R w j
      → Fit lib waf (R k).rules
      → DirFits lib R (set_waf k waf w) j
  set_waf-DirFits j k waf w h fit = elim (Bool-cases (j == k)) [
    | inl here ↦ rw here (inr (rw (eq_at j k here) fit))
    | inr elsewhere ↦ rw elsewhere h
  ]

  set_waf-AllFit :
      (js : List ℕ) (k waf : ℕ) (w : Worker)
      → AllFit lib R w js
      → Fit lib waf (R k).rules
      → AllFit lib R (set_waf k waf w) js
  set_waf-AllFit [] k waf w h fit = tt
  set_waf-AllFit (j ∷ js) k waf w (here, later) fit =
      (set_waf-DirFits j k waf w here fit, set_waf-AllFit js k waf w later fit)

  AllFit-append :
      (w : Worker) (js : List ℕ) (i : ℕ)
      → AllFit lib R w js
      → DirFits lib R w i
      → AllFit lib R w (js ++ i ∷ [])
  AllFit-append w [] i h fit = (fit, tt)
  AllFit-append w (j ∷ js) i (here, later) fit = (here, AllFit-append w js i later fit)

  built_before-Fit :
      (i : ℕ) (js : List ℕ) (w : Worker)
      → has_entries (R i).rules ≡ true
      → AllFit lib R w js
      → Fit lib (built_before same_array i js w) (R i).rules
  unfolding built_before
  built_before-Fit i [] w ruled h = inl refl
  built_before-Fit i (j ∷ js) w ruled (here, later) =
      if-holds (λ u. Fit lib u (R i).rules) (same_array j i && not ((w.dir_confs j).waf == 0))
        (λ found. of_earlier (shared j i (ground arith)) here)
        (λ _. built_before-Fit i js w ruled later)
    where
      of_earlier :
          (R j).rules ≡ (R i).rules → DirFits lib R w j → Fit lib (w.dir_confs j).waf (R i).rules
      of_earlier e (inl unruled) = absurd (ground (arith, ap has_entries e))
      of_earlier e (inr fit) = rw (← e) fit

  -- What one configuration's turn keeps and brings.
  abbrev After : List ℕ → ℕ → Worker → Type 0
  After js i w = Ready lib R w × AllFit lib R w js × DirFits lib R w i

  stored-After :
      (js : List ℕ) (i waf : ℕ) (w : Worker)
      → Ready lib R w
      → AllFit lib R w js
      → Fit lib waf (R i).rules
      → After js i (set_waf i waf w)
  stored-After js i waf w r h fit = (
    set_waf-Ready lib R i waf w r,
    set_waf-AllFit js i waf w h fit,
    inr (rw (set_waf-waf i waf w) fit),
  )

  with_calls-AllFit :
      (js : List ℕ) (h : LibHistory) (w : Worker)
      → AllFit lib R w js
      → AllFit lib R (with_calls h w) js
  with_calls-AllFit [] h w a = tt
  with_calls-AllFit (j ∷ js) h w (here, later) = (here, with_calls-AllFit js h w later)

  same_rules-Fit : (waf : ℕ) (a b : List RuleEntry) → a ≡ b → Fit lib waf a → Fit lib waf b
  same_rules-Fit waf a b e fit = rw (← e) fit

  build_dir-After :
      (js : List ℕ) (i : ℕ) (w : Worker)
      → Ready lib R w
      → AllFit lib R w js
      → After js i (build_dir lib i w)
  unfolding build_dir
  build_dir-After js i w r h =
      let (fit, freed) = build_waf-BuiltFrom lib (w.dir_confs i).rules w.calls r.freed in
      let (waf, l) = build_waf lib (w.dir_confs i).rules w.calls in
      let l' = if waf == 0 then l else rules_count waf ∷ l in
      let freed' : Freed lib l' =
        if-holds (λ x. Freed lib x) (waf == 0) (λ _. freed) (λ _. freed) in
      stored-After js i waf (with_calls l' w) (with_calls-Ready lib R l' w freed' r)
        (with_calls-AllFit js l' w h)
        (same_rules-Fit waf (w.dir_confs i).rules (R i).rules (r.rules i) fit)

  init_dir-After :
      (js : List ℕ) (i : ℕ) (w : Worker)
      → Ready lib R w
      → AllFit lib R w js
      → After js i (init_dir lib same_array js i w)
  unfolding init_dir
  init_dir-After js i w r h =
      if-holds (After js i)
        (not (w.dir_confs i).has_rules || not (has_entries (w.dir_confs i).rules))
        (λ none_here.
          (r, h, inl (no_rules _ _ _ (r.has_rules i) (ap has_entries (r.rules i)) none_here)))
        (λ some_here.
          if-holds (After js i) (not (built_before same_array i js w == 0))
            (λ _. stored-After js i _ w r h (
              built_before-Fit i js w
                (all_rules _ _ _ (r.has_rules i) (ap has_entries (r.rules i)) some_here) h))
            (λ _. build_dir-After js i w r h))

  pub init_dirs-AllFit :
      (js is : List ℕ) (w : Worker)
      → Ready lib R w
      → AllFit lib R w js
      → let w' = init_dirs lib same_array js is w in Ready lib R w' × AllFit lib R w' (js ++ is)
  unfolding init_dirs
  init_dirs-AllFit js [] w r h = (r, rw (append-nil js) h)
  init_dirs-AllFit js (i ∷ is) w r h =
      let (r', h', fit) = init_dir-After js i w r h in
      let w' = init_dir lib same_array js i w in
      let rest = init_dirs-AllFit (js ++ i ∷ []) is w' r' (AllFit-append w' js i h' fit) in
      rw (← append_assoc js (i ∷ []) is) rest
