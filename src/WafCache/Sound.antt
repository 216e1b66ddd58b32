-- ===== src/WafCache/Sound.antt =====
-- The WAF cache of src/mod_coraza.c never hands out a WAF for other rules, whatever their hashes, and
-- finds what was added.
use coraza_apache.Base.{
  ◌≡◌, refl, true, false, inl, inr, Bool-cases, [], ◌∷◌, ◌++◌, List, ◌&&◌, ◌==◌, length, ◌≤◌, ◌<◌,
  arith, ℕ, ◌⊎◌, length-append, ◌≢◌, leb,
}
use coraza_apache.Config.{RuleEntry}
use coraza_apache.WafCache.{
  CacheEntry, Cache, waf_cache_max, find_entry, rules_equal, waf_cache_find, waf_cache_add,
}
use coraza_apache.WafCache.Equal.{rules_equal_iff}

one_more :
    (xs : List CacheEntry) (x : CacheEntry)
    → leb waf_cache_max (length xs) ≡ false
    → length (xs ++ x ∷ []) ≤ waf_cache_max
one_more xs x room = ground (arith, length-append xs (x ∷ []))

-- `Built waf rules`: the WAF was built from these rules.
module _ (Built : ℕ → List RuleEntry → Type 0) where
  abbrev pub AllBuilt : List CacheEntry → Type 0
  AllBuilt [] = Unit
  AllBuilt (x ∷ xs) = Built x.waf x.rules × AllBuilt xs

  pub find_entry-AllBuilt :
      (h : ℕ) (rules : List RuleEntry) (xs : List CacheEntry)
      → AllBuilt xs
      → (find_entry h rules xs ≡ 0) ⊎ Built (find_entry h rules xs) rules
  unfolding find_entry
  find_entry-AllBuilt h rules [] built = inl refl
  find_entry-AllBuilt h rules (x ∷ xs) (here, later) = elim (Bool-cases (x.hash == h)) [
    | inl hash ↦ elim (Bool-cases (rules_equal x.rules rules)) [
      | inl same ↦ simp (hash, same) (inr (rw (← (rules_equal_iff x.rules rules).0 same) here))
      | inr other ↦ simp (hash, other) (find_entry-AllBuilt h rules xs later)
    ]
    | inr other ↦ simp other (find_entry-AllBuilt h rules xs later)
  ]

  AllBuilt-append : (xs ys : List CacheEntry) → AllBuilt xs → AllBuilt ys → AllBuilt (xs ++ ys)
  AllBuilt-append [] ys a b = b
  AllBuilt-append (x ∷ xs) ys (here, later) b = (here, AllBuilt-append xs ys later b)

  -- A cache of WAFs for their own rules, within its array.
  pub record Sound (cache : Cache) : Type 0 where
    pub all_built : AllBuilt cache.entries
    pub within : length cache.entries ≤ waf_cache_max

  pub waf_cache_add-Sound :
      (h : ℕ) (rules : List RuleEntry) (waf : ℕ) (cache : Cache)
      → Sound cache
      → Built waf rules
      → Sound (waf_cache_add h rules waf cache)
  unfolding waf_cache_add
  waf_cache_add-Sound h rules waf cache s built =
      elim (Bool-cases (leb waf_cache_max (length cache.entries))) [
        | inl full ↦ simp full (record { all_built = s.all_built; within = s.within })
        | inr room ↦ elim (Bool-cases cache.pool) [
          | inr no_pool ↦ simp (room, no_pool) s
          | inl pool ↦
              simp (room, pool)
                (record {
                  all_built = AllBuilt-append cache.entries _ s.all_built (built, tt);
                  within =
                      one_more cache.entries (record { hash = h; rules = rules; waf = waf }) room;
                })
        ]
      ]

  -- In a cache that holds WAFs for their own rules only, a lookup gives no WAF, or one that was built
  -- from exactly the rules asked for, even where hashes collide; and adding such a WAF keeps the cache
  -- so, and within its array.
  pub waf_cache-Sound :
      (h : ℕ) (rules : List RuleEntry) (waf : ℕ) (cache : Cache)
      → Sound cache
      → Built waf rules
      → ((waf_cache_find h rules cache ≡ 0) ⊎ Built (waf_cache_find h rules cache) rules)
        × Sound (waf_cache_add h rules waf cache)
  unfolding waf_cache_find
  waf_cache-Sound h rules waf cache s built = (
    find_entry-AllBuilt h rules cache.entries s.all_built,
    waf_cache_add-Sound h rules waf cache s built,
  )

abbrev pub NotNull : ℕ → List RuleEntry → Type 0
NotNull waf rules = waf ≢ 0

rules_equal_refl : (rules : List RuleEntry) → rules_equal rules rules ≡ true
rules_equal_refl rules = (rules_equal_iff rules rules).1 refl

find_entry-append :
    (h : ℕ) (rules : List RuleEntry) (waf : ℕ) (xs : List CacheEntry)
    → AllBuilt NotNull xs
    → find_entry h rules xs ≡ 0
    → find_entry h rules (xs ++ record { hash = h; rules = rules; waf = waf } ∷ []) ≡ waf
unfolding find_entry
find_entry-append h rules waf [] valid miss = ground (arith, rules_equal_refl rules)
find_entry-append h rules waf (x ∷ xs) (here, later) miss =
    elim (Bool-cases (x.hash == h && rules_equal x.rules rules)) [
      | inl hit ↦ absurd (here (rw hit at miss))
      | inr other ↦ rw other (find_entry-append h rules waf xs later (rw other at miss))
    ]

-- While the cache has room and its pool, and holds no null WAF, a WAF that is added after a lookup
-- failed is what the next lookup of the same rules gives.
pub waf_cache_find-add :
    (h : ℕ) (rules : List RuleEntry) (waf : ℕ) (cache : Cache)
    → AllBuilt NotNull cache.entries
    → length cache.entries < waf_cache_max
    → cache.pool ≡ true
    → waf_cache_find h rules cache ≡ 0
    → waf_cache_find h rules (waf_cache_add h rules waf cache) ≡ waf
unfolding waf_cache_find waf_cache_add
waf_cache_find-add h rules waf cache valid room pool miss =
    let open_slot : leb waf_cache_max (length cache.entries) ≡ false = ground arith in
    simp (open_slot, pool) (find_entry-append h rules waf cache.entries valid miss)
