-- ===== src/WafCache.antt =====
-- The cache of WAFs built at request time, src/mod_coraza.c: `rules_hash`, `rules_equal`,
-- `waf_cache_find` and `waf_cache_add`. `unsigned long` has 64 bits.
pub mod Equal
pub mod Sound
mod Examples
use coraza_apache.Base.{
  ℕ, ◌+◌, ◌*◌, ◌%◌, ◌^◌, Bool, true, false, not, ◌&&◌, List, [], ◌∷◌, ◌++◌, Bytes, bytes_eq, ◌==◌,
  ltb, leb, length, if◌then◌else◌,
}
use coraza_apache.Config.{RuleType, inline_rule, file_rule, RuleEntry}

-- `WAF_CACHE_MAX`
abbrev pub waf_cache_max : ℕ
waf_cache_max = 64

-- `waf_cache_entry_t`; the number of the rules is the length of their list.
pub record CacheEntry : Type 0 where
  pub hash : ℕ
  pub rules : List RuleEntry
  pub waf : ℕ

-- The cache's variables: the used part of the array, whether its pool is set, whether the warning
-- was given.
pub record Cache : Type 0 where
  pub entries : List CacheEntry
  pub pool : Bool
  pub full_logged : Bool

-- The values of `coraza_rule_type_e`.
abbrev pub type_code : RuleType → ℕ
type_code inline_rule = 0
type_code file_rule = 1

abbrev pub mix : ℕ → ℕ → ℕ
mix h c = (h * 33 + c) % 2 ^ 64

pub hash_value : ℕ → Bytes → ℕ
hash_value h [] = h
hash_value h (c ∷ cs) = hash_value (mix h c) cs

pub hash_entries : ℕ → List RuleEntry → ℕ
unfolding hash_value
hash_entries h [] = h
hash_entries h (r ∷ rs) = hash_entries (hash_value (mix h (type_code r.rule_type)) r.text) rs

unfoldable pub rules_hash : List RuleEntry → ℕ
unfolding hash_entries
rules_hash rules = hash_entries 5381 rules

-- The loop of `rules_equal` over two arrays of the same length.
pub entries_equal : List RuleEntry → List RuleEntry → Bool
entries_equal (a ∷ xs) (b ∷ ys) =
    type_code a.rule_type == type_code b.rule_type && bytes_eq a.text b.text && entries_equal xs ys
entries_equal _ _ = true

unfoldable pub rules_equal : List RuleEntry → List RuleEntry → Bool
unfolding entries_equal
rules_equal a b = if not (length a == length b) then false else entries_equal a b

pub find_entry : ℕ → List RuleEntry → List CacheEntry → ℕ
find_entry h rules [] = 0
find_entry h rules (x ∷ xs) =
    if x.hash == h && rules_equal x.rules rules then x.waf else find_entry h rules xs

unfoldable pub waf_cache_find : ℕ → List RuleEntry → Cache → ℕ
unfolding find_entry
waf_cache_find h rules cache = find_entry h rules cache.entries

unfoldable pub waf_cache_add : ℕ → List RuleEntry → ℕ → Cache → Cache
waf_cache_add h rules waf cache =
    if leb waf_cache_max (length cache.entries)
    then record cache { full_logged = true }
    else if not cache.pool
    then cache
    else record cache {
      entries = cache.entries ++ record { hash = h; rules = rules; waf = waf } ∷ [];
    }
