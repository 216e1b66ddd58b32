-- ===== src/Library.antt =====
-- The part of libcoraza that a worker uses apart from a transaction's own calls: WAF configurations,
-- WAFs and transactions, as src/mod_coraza_dl.c wraps them. The library is a parameter: any function
-- of the calls that it has seen, newest first.
use coraza_apache.Base.{ℕ, Bool, List, Bytes, ℤ}

-- One constructor for each wrapper; handles are numbers, and 0 is no handle.
pub data LibCall : Type 0 where
  new_waf_config : LibCall
  rules_add : ℕ → Bytes → LibCall
  rules_add_file : ℕ → Bytes → LibCall
  free_waf_config : ℕ → LibCall
  new_waf : ℕ → LibCall
  free_waf : ℕ → LibCall
  free_string : LibCall
  rules_count : ℕ → LibCall
  new_transaction : ℕ → LibCall
  new_transaction_with_id : ℕ → Bytes → LibCall
  free_transaction : ℕ → LibCall

abbrev pub LibHistory : Type 0
LibHistory = List LibCall

-- What the library answers: a handle or a status; whether `coraza_new_waf` hands back an error
-- string; and whether the C library's `strdup` succeeds.
pub record Lib : Type 0 where
  pub handle : LibHistory → LibCall → ℕ
  pub status : LibHistory → LibCall → ℤ
  pub has_error : LibHistory → LibCall → Bool
  pub strdup : LibHistory → Bytes → Bool
