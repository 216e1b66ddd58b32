-- ===== src/Directives/Effect.antt =====
-- What rules do to the configurations, whatever directive brings them: src/mod_coraza.c.
use coraza_apache.Base.{
  Bool, List, ◌||◌, ◌≡◌, ℕ, Bytes, ◌∷◌, [], true, ◌++◌, false, ◌%◌, ◌^◌, refl, if◌then◌else◌, ◌∙◌,
  sym, ◌+◌, ap, append_assoc, append-nil, arith,
}
use coraza_apache.Config.{RuleEntry, inline_rule, file_rule}
use coraza_apache.Directives.{
  Confs, ServerConf, file_entry, inline_entry, push_server_rule, store_file, store_inline,
  count_inline, count_file, push_rule,
}
use coraza_apache.Merge.{has_entries}

unfoldable pub is_inline : RuleEntry → Bool
is_inline r = elim r.rule_type [ inline_rule ↦ true | file_rule ↦ false ]

-- How many of the rules are inline, and how many are files.
unfoldable pub inlines : List RuleEntry → ℕ
unfolding is_inline
inlines [] = 0
inlines (r ∷ rs) = (if is_inline r then 1 else 0) + inlines rs

unfoldable pub files_in : List RuleEntry → ℕ
unfolding is_inline
files_in [] = 0
files_in (r ∷ rs) = (if is_inline r then 0 else 1) + files_in rs

-- What rules do to the configurations. The counters are 32 bits wide.
pub record Effect (top : Bool) (es : List RuleEntry) (c c' : Confs) : Type 0 where
  pub rules : c'.dcf.rules ≡ c.dcf.rules ++ es
  pub has_rules : c'.dcf.has_rules ≡ (c.dcf.has_rules || has_entries es)
  pub server_rules : c'.scf.rules ≡ c.scf.rules ++ (if top then es else [])
  pub inline_count : c'.scf.rules_inline % 2 ^ 32 ≡ (c.scf.rules_inline + inlines es) % 2 ^ 32
  pub file_count : c'.scf.rules_file % 2 ^ 32 ≡ (c.scf.rules_file + files_in es) % 2 ^ 32
  pub same_waf : c'.dcf.waf ≡ c.dcf.waf

or_false : (b : Bool) → (b || false) ≡ b
or_false true = refl
or_false false = refl

or_true : (b : Bool) → (b || true) ≡ true
or_true true = refl
or_true false = refl

none_added : (top : Bool) (rs : List RuleEntry) → rs ≡ rs ++ (if top then [] else [])
none_added true rs = sym (append-nil rs)
none_added false rs = sym (append-nil rs)

pub no-Effect :
    (top : Bool) {c c' : Confs}
    → c'.scf ≡ c.scf
    → c'.dcf.rules ≡ c.dcf.rules
    → c'.dcf.has_rules ≡ c.dcf.has_rules
    → c'.dcf.waf ≡ c.dcf.waf
    → Effect top [] c c'
unfolding inlines files_in
no-Effect top {c} {c'} s r h w = record {
  rules = r ∙ sym (append-nil c.dcf.rules);
  has_rules = h ∙ sym (or_false c.dcf.has_rules);
  server_rules = ap (λ x. x.rules) s ∙ none_added top c.scf.rules;
  inline_count = omega (arith, ap (λ x. x.rules_inline) s);
  file_count = omega (arith, ap (λ x. x.rules_file) s);
  same_waf = w;
}

pushed :
    (top : Bool) (e : RuleEntry) (s : ServerConf)
    → (push_server_rule top e s).rules ≡ s.rules ++ (if top then e ∷ [] else [])
pushed true e s = refl
pushed false e s = sym (append-nil s.rules)

pushed_counts :
    (top : Bool) (e : RuleEntry) (s : ServerConf)
    → ((push_server_rule top e s).rules_inline ≡ s.rules_inline)
      × ((push_server_rule top e s).rules_file ≡ s.rules_file)
pushed_counts true e s = (refl, refl)
pushed_counts false e s = (refl, refl)

-- A rule was stored, with the server's configuration `counted` before it.
store-Effect :
    (top : Bool) (e : RuleEntry) (c : Confs) (counted : ServerConf)
    → counted.rules ≡ c.scf.rules
    → counted.rules_inline % 2 ^ 32 ≡ (c.scf.rules_inline + inlines (e ∷ [])) % 2 ^ 32
    → counted.rules_file % 2 ^ 32 ≡ (c.scf.rules_file + files_in (e ∷ [])) % 2 ^ 32
    → Effect top
        (e ∷ [])
        c
        (record { dcf = push_rule e c.dcf; scf = push_server_rule top e counted })
store-Effect top e c counted r i f =
    let counts = pushed_counts top e counted in
    record {
      rules = refl;
      has_rules = sym (or_true c.dcf.has_rules);
      server_rules = pushed top e counted ∙ ap (λ x. x ++ (if top then e ∷ [] else [])) r;
      inline_count = ap (λ x. x % 2 ^ 32) counts.0 ∙ i;
      file_count = ap (λ x. x % 2 ^ 32) counts.1 ∙ f;
      same_waf = refl;
    }

pub store_inline-Effect :
    (top : Bool) (text : Bytes) (c : Confs)
    → Effect top (inline_entry text ∷ []) c (store_inline top text c)
unfolding inlines files_in is_inline
store_inline-Effect top text c =
    store-Effect top (inline_entry text) c (count_inline c.scf) refl (omega arith) (omega arith)

pub store_file-Effect :
    (top : Bool) (path : Bytes) (c : Confs)
    → Effect top (file_entry path ∷ []) c (store_file top path c)
unfolding inlines files_in is_inline
store_file-Effect top path c =
    store-Effect top (file_entry path) c (count_file c.scf) refl (omega arith) (omega arith)

-- A directive's effect in front of those of the rest.
pub first-Effect :
    {top : Bool} {e : RuleEntry} {es : List RuleEntry} {c c' c'' : Confs}
    → Effect top (e ∷ []) c c'
    → Effect top es c' c''
    → Effect top (e ∷ es) c c''
unfolding inlines files_in
first-Effect {top} {e} {es} {c} {c'} {c''} f g = record {
  rules = g.rules ∙ ap (λ x. x ++ es) f.rules ∙ append_assoc c.dcf.rules (e ∷ []) es;
  has_rules =
      g.has_rules
      ∙ ap (λ x. x || has_entries es) (f.has_rules ∙ or_true c.dcf.has_rules)
      ∙ sym (or_true c.dcf.has_rules);
  server_rules =
      g.server_rules ∙ ap (λ x. x ++ (if top then es else [])) f.server_rules ∙ split top;
  inline_count = omega (arith, f.inline_count, g.inline_count);
  file_count = omega (arith, f.file_count, g.file_count);
  same_waf = g.same_waf ∙ f.same_waf;
}
  where
    split :
        (t : Bool)
        → (c.scf.rules ++ (if t then e ∷ [] else [])) ++ (if t then es else [])
          ≡ c.scf.rules ++ (if t then e ∷ es else [])
    split true = append_assoc c.scf.rules (e ∷ []) es
    split false = append-nil _

pub skip-Effect :
    {top : Bool} {es : List RuleEntry} {c c' c'' : Confs}
    → Effect top [] c c'
    → Effect top es c' c''
    → Effect top es c c''
unfolding inlines files_in
skip-Effect {top} {es} {c} {c'} {c''} f g = record {
  rules = g.rules ∙ ap (λ x. x ++ es) (f.rules ∙ append-nil _);
  has_rules = g.has_rules ∙ ap (λ x. x || has_entries es) (f.has_rules ∙ or_false _);
  server_rules =
      g.server_rules
      ∙ ap (λ x. x ++ (if top then es else [])) (f.server_rules ∙ sym (none_added top _));
  inline_count = omega (arith, f.inline_count, g.inline_count);
  file_count = omega (arith, f.file_count, g.file_count);
  same_waf = g.same_waf ∙ f.same_waf;
}
