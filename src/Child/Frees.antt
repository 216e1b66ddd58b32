-- ===== src/Child/Frees.antt =====
-- How often a worker's exit frees a WAF: the loops of `coraza_child_exit` in src/mod_coraza.c.
use coraza_apache.Child.{
  is_dir_waf, free_dirs, DirConf, ServerRec, LibHistory, ServerConf, free_waf, is_server_waf,
}
use coraza_apache.Base.{
  Bool, List, ℕ, if◌then◌else◌, ◌++◌, ◌∷◌, ◌==◌, [], ◌+◌, ◌≡◌, false, ◌||◌, ◌&&◌, arith, not,
  Bool-cases, ◌∙◌, inl, inr, true, refl,
}
use coraza_apache.Config.{DirConf}
use coraza_apache.Library.{LibHistory}
use coraza_apache.Directives.{ServerConf}
use coraza_apache.Transaction.Scopes.{eq_at}

-- How often a WAF was freed.
abbrev pub frees : ℕ → LibHistory → ℕ
frees u [] = 0
frees u (free_waf waf ∷ h) = frees u h + (if waf == u then 1 else 0)
frees u (_ ∷ h) = frees u h

abbrev pub one_if : Bool → ℕ
one_if b = if b then 1 else 0

is_dir_waf_last :
    (u : ℕ) (js : List ℕ) (i : ℕ) (f : ℕ → DirConf)
    → is_dir_waf u (js ++ i ∷ []) f ≡ (is_dir_waf u js f || (f i).waf == u)
unfolding is_dir_waf
is_dir_waf_last u [] i f = ground arith
is_dir_waf_last u (j ∷ js) i f = ground (arith, is_dir_waf_last u js i f)

self_equal : (u : ℕ) → u == u ≡ true
self_equal u = ground arith

freed_unless :
    (u : ℕ) (h : LibHistory) (s d : Bool)
    → frees u (if s || d then h else free_waf u ∷ h) ≡ frees u h + one_if (not s && not d)
freed_unless u h true d = omega arith
freed_unless u h false true = omega arith
freed_unless u h false false = rw (self_equal u) refl

pub other_kept :
    (u w : ℕ) (h : LibHistory) (skip : Bool)
    → w == u ≡ false
    → frees u (if skip then h else free_waf w ∷ h) ≡ frees u h + 0
other_kept u w h true other = omega arith
other_kept u w h false other = rw other refl

-- The configuration in front and those behind it, with the same WAF at most once.
once_each :
    (a x s e : Bool)
    → one_if (a && not s && not e) + one_if (x && not s && not (e || a))
      ≡ one_if ((a || x) && not s && not e)
once_each a x s e = ground arith

-- One configuration of the first pass.
skipped_frees :
    (servers : List ServerRec) (confs : ℕ → ServerConf) (earlier : List ℕ) (f : ℕ → DirConf)
    (i u : ℕ) (h : LibHistory)
    → u == 0 ≡ false
    → let waf = (f i).waf in
      frees u (
        if waf == 0 || is_server_waf waf servers confs || is_dir_waf waf earlier f
        then h
        else free_waf waf ∷ h)
      ≡ frees u h
        + one_if (waf == u && not (is_server_waf u servers confs) && not (is_dir_waf u earlier f))
skipped_frees servers confs earlier f i u h nonzero = elim (Bool-cases ((f i).waf == u)) [
  | inl same ↦ rw (eq_at (f i).waf u same) (
      rw (nonzero, self_equal u)
        (freed_unless u h (is_server_waf u servers confs) (is_dir_waf u earlier f)))
  | inr other ↦ rw other (other_kept u (f i).waf h _ other)
]

pub free_dirs-frees :
    (servers : List ServerRec) (confs : ℕ → ServerConf) (earlier is : List ℕ) (f : ℕ → DirConf)
    (u : ℕ) (h : LibHistory)
    → u == 0 ≡ false
    → frees u (free_dirs servers confs earlier is f h)
      ≡ frees u h
        + one_if (
            is_dir_waf u is f
            && not (is_server_waf u servers confs)
            && not (is_dir_waf u earlier f))
unfolding free_dirs
free_dirs-frees servers confs earlier [] f u h nonzero = omega arith
free_dirs-frees servers confs earlier (i ∷ is) f u h nonzero =
    let first = skipped_frees servers confs earlier f i u h nonzero in
    let rest = free_dirs-frees servers confs (earlier ++ i ∷ []) is f u _ nonzero in
    let a = (f i).waf == u in
    let x = is_dir_waf u is f in
    let s = is_server_waf u servers confs in
    let e = is_dir_waf u earlier f in
    rest ∙ rw (first, is_dir_waf_last u earlier i f) (omega (arith, once_each a x s e))
