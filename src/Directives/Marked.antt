-- ===== src/Directives/Marked.antt =====
-- `has_rules` of a directory configuration says whether it has rules: the directives and
-- `coraza_merge_dir_conf` of src/mod_coraza.c keep it so.
use coraza_apache.Merge.{merge_into, merge_dir_conf, has_entries, DirConfs}
use coraza_apache.Config.{DirConf, RuleEntry}
use coraza_apache.Base.{
  List, Bool, ℕ, ◌≡◌, ◌++◌, ◌∙◌, ◌||◌, ap, ◌∷◌, [], sym, refl, if-holds, some, ◌==◌,
}
use coraza_apache.Directives.{Confs, System, Directive, ServerConf, run_directives}
use coraza_apache.Directives.Effect.{Effect}
use coraza_apache.Directives.Scope.{run_directives-collected}

abbrev pub Marked : DirConf → Type 0
Marked d = d.has_rules ≡ has_entries d.rules

has_entries-append :
    (a b : List RuleEntry) → has_entries (a ++ b) ≡ (has_entries a || has_entries b)
has_entries-append [] b = refl
has_entries-append (r ∷ rs) b = refl

Effect-Marked :
    {top : Bool} {es : List RuleEntry} {c c' : Confs}
    → Effect top es c c'
    → Marked c.dcf
    → Marked c'.dcf
Effect-Marked {es = es} {c = c} f m =
    f.has_rules
    ∙ ap (λ x. x || has_entries es) m
    ∙ sym (has_entries-append c.dcf.rules es)
    ∙ ap has_entries (sym f.rules)

merged_by_rules :
    (k : ℕ) (p c : DirConf) (ps cs : List RuleEntry)
    → p.rules ≡ ps
    → c.rules ≡ cs
    → Marked p
    → Marked c
    → Marked (merge_dir_conf k p c)
unfolding merge_dir_conf
merged_by_rules k p c [] [] hp hc mp mc = simp (hp, hc) refl
merged_by_rules k p c [] (x ∷ cs) hp hc mp mc = simp (hp, hc) (mc ∙ ap has_entries hc)
merged_by_rules k p c (x ∷ ps) [] hp hc mp mc = simp (hp, hc) (mp ∙ ap has_entries hp)
merged_by_rules k p c (x ∷ ps) (y ∷ cs) hp hc mp mc = simp (hp, hc) refl

merge_dir_conf-Marked :
    (k : ℕ) (p c : DirConf) → Marked p → Marked c → Marked (merge_dir_conf k p c)
merge_dir_conf-Marked k p c mp mc = merged_by_rules k p c p.rules c.rules refl refl mp mc

merge_into_everywhere :
    (merged parent child : ℕ) (s : DirConfs)
    → ((j : ℕ) → Marked (s.dir_confs j))
    → (j : ℕ) → Marked ((merge_into merged parent child s).dir_confs j)
unfolding merge_into
merge_into_everywhere merged parent child s m j =
    if-holds Marked (j == merged)
      (λ _.
        merge_dir_conf-Marked child (s.dir_confs parent) (s.dir_confs child) (m parent) (m child))
      (λ _. m j)

-- While httpd reads its configuration: if every directory configuration is marked as having rules
-- exactly when it has some, then this holds after any merge too, which is tracked behind the earlier
-- ones, and for any configuration after any directives, refused ones included.
pub merge_into-Marked :
    (merged parent child : ℕ) (s : DirConfs) (earlier : List ℕ) (sys : System) (top : Bool)
    (ds : List Directive) (i : ℕ) (scf : ServerConf)
    → s.tracked ≡ some earlier
    → ((j : ℕ) → Marked (s.dir_confs j))
    → let s' = merge_into merged parent child s in
      let c : Confs = record { dcf = s'.dir_confs i; scf = scf } in
      ((j : ℕ) → Marked (s'.dir_confs j))
      × Marked (run_directives sys top ds c).1.dcf
      × (s'.tracked ≡ some (earlier ++ merged ∷ []))
unfolding merge_into
merge_into-Marked merged parent child s earlier sys top ds i scf array m =
    let all = merge_into_everywhere merged parent child s m in
    let c : Confs = record { dcf = (merge_into merged parent child s).dir_confs i; scf = scf } in
    (all, Effect-Marked (run_directives-collected sys top ds c).1 (all i), rw array refl)
