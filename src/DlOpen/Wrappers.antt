-- ===== src/DlOpen/Wrappers.antt =====
-- The functions that src/mod_coraza_dl.c defines for the other files, each of which calls through the
-- pointer of the symbol of its own name.
use coraza_apache.Base.{Bytes, codes, ◌==◌, List, ◌∷◌, ◌≡◌, false, []}
use coraza_apache.DlOpen.{Loader, Dl, required_symbols, late_symbol}

-- The wrapper functions.
pub data Wrapper : Type 0 where
  coraza_new_waf_config coraza_rules_add coraza_rules_add_file coraza_free_waf_config coraza_new_waf
        coraza_free_waf coraza_free_string coraza_rules_count coraza_rules_merge
        coraza_new_transaction coraza_new_transaction_with_id coraza_free_transaction
        coraza_intervention coraza_free_intervention coraza_process_connection coraza_process_uri
        coraza_add_request_header coraza_add_request_headers coraza_process_request_headers
        coraza_append_request_body coraza_process_request_body coraza_add_response_header
        coraza_add_response_headers coraza_append_response_body coraza_process_response_body
        coraza_process_response_headers coraza_process_logging coraza_update_status_code
        coraza_add_get_args coraza_is_response_body_processable coraza_is_request_body_accessible
        coraza_is_response_body_accessible :
      Wrapper

-- The symbol whose pointer the wrapper calls.
abbrev pub symbol : Wrapper → Bytes
symbol coraza_new_waf_config = codes "coraza_new_waf_config"
symbol coraza_rules_add = codes "coraza_rules_add"
symbol coraza_rules_add_file = codes "coraza_rules_add_file"
symbol coraza_free_waf_config = codes "coraza_free_waf_config"
symbol coraza_new_waf = codes "coraza_new_waf"
symbol coraza_free_waf = codes "coraza_free_waf"
symbol coraza_free_string = codes "coraza_free_string"
symbol coraza_rules_count = codes "coraza_rules_count"
symbol coraza_rules_merge = codes "coraza_rules_merge"
symbol coraza_new_transaction = codes "coraza_new_transaction"
symbol coraza_new_transaction_with_id = codes "coraza_new_transaction_with_id"
symbol coraza_free_transaction = codes "coraza_free_transaction"
symbol coraza_intervention = codes "coraza_intervention"
symbol coraza_free_intervention = codes "coraza_free_intervention"
symbol coraza_process_connection = codes "coraza_process_connection"
symbol coraza_process_uri = codes "coraza_process_uri"
symbol coraza_add_request_header = codes "coraza_add_request_header"
symbol coraza_add_request_headers = codes "coraza_add_request_headers"
symbol coraza_process_request_headers = codes "coraza_process_request_headers"
symbol coraza_append_request_body = codes "coraza_append_request_body"
symbol coraza_process_request_body = codes "coraza_process_request_body"
symbol coraza_add_response_header = codes "coraza_add_response_header"
symbol coraza_add_response_headers = codes "coraza_add_response_headers"
symbol coraza_append_response_body = codes "coraza_append_response_body"
symbol coraza_process_response_body = codes "coraza_process_response_body"
symbol coraza_process_response_headers = codes "coraza_process_response_headers"
symbol coraza_process_logging = codes "coraza_process_logging"
symbol coraza_update_status_code = codes "coraza_update_status_code"
symbol coraza_add_get_args = codes "coraza_add_get_args"
symbol coraza_is_response_body_processable = codes "coraza_is_response_body_processable"
symbol coraza_is_request_body_accessible = codes "coraza_is_request_body_accessible"
symbol coraza_is_response_body_accessible = codes "coraza_is_response_body_accessible"

-- The library has the symbol of each wrapper.
abbrev pub HasAll : Loader → Type 0
HasAll l = (f : Wrapper) → l.dynlib_sym (symbol f) == 0 ≡ false

-- Each wrapper calls the library.
abbrev pub Bound : Loader → Dl → Type 0
Bound l dl = (f : Wrapper) → dl.pointers (symbol f) ≡ l.dynlib_sym (symbol f)

-- Every name is a symbol of the library.
abbrev pub Exported : Loader → List Bytes → Type 0
Exported l [] = Unit
Exported l (n ∷ ns) = (l.dynlib_sym n == 0 ≡ false) × Exported l ns

-- The pointers of these names are the library's.
abbrev pub Resolved : Loader → List Bytes → Dl → Type 0
Resolved l [] dl = Unit
Resolved l (n ∷ ns) dl = (dl.pointers n ≡ l.dynlib_sym n) × Resolved l ns dl

pub Exported-HasAll :
    (l : Loader) → Exported l required_symbols → l.dynlib_sym late_symbol == 0 ≡ false → HasAll l
Exported-HasAll l all late coraza_new_waf_config = all.0
Exported-HasAll l all late coraza_rules_add = all.1.0
Exported-HasAll l all late coraza_rules_add_file = all.1.1.0
Exported-HasAll l all late coraza_free_waf_config = all.1.1.1.0
Exported-HasAll l all late coraza_new_waf = all.1.1.1.1.0
Exported-HasAll l all late coraza_free_waf = all.1.1.1.1.1.0
Exported-HasAll l all late coraza_free_string = all.1.1.1.1.1.1.0
Exported-HasAll l all late coraza_rules_count = all.1.1.1.1.1.1.1.0
Exported-HasAll l all late coraza_rules_merge = all.1.1.1.1.1.1.1.1.0
Exported-HasAll l all late coraza_new_transaction = all.1.1.1.1.1.1.1.1.1.0
Exported-HasAll l all late coraza_new_transaction_with_id = all.1.1.1.1.1.1.1.1.1.1.0
Exported-HasAll l all late coraza_free_transaction = all.1.1.1.1.1.1.1.1.1.1.1.0
Exported-HasAll l all late coraza_intervention = all.1.1.1.1.1.1.1.1.1.1.1.1.0
Exported-HasAll l all late coraza_free_intervention = all.1.1.1.1.1.1.1.1.1.1.1.1.1.0
Exported-HasAll l all late coraza_process_connection = all.1.1.1.1.1.1.1.1.1.1.1.1.1.1.0
Exported-HasAll l all late coraza_process_uri = all.1.1.1.1.1.1.1.1.1.1.1.1.1.1.1.0
Exported-HasAll l all late coraza_add_request_header = all.1.1.1.1.1.1.1.1.1.1.1.1.1.1.1.1.0
Exported-HasAll l all late coraza_add_request_headers = all.1.1.1.1.1.1.1.1.1.1.1.1.1.1.1.1.1.0
Exported-HasAll l all late coraza_process_request_headers =
    all.1.1.1.1.1.1.1.1.1.1.1.1.1.1.1.1.1.1.0
Exported-HasAll l all late coraza_append_request_body = all.1.1.1.1.1.1.1.1.1.1.1.1.1.1.1.1.1.1.1.0
Exported-HasAll l all late coraza_process_request_body =
    all.1.1.1.1.1.1.1.1.1.1.1.1.1.1.1.1.1.1.1.1.0
Exported-HasAll l all late coraza_add_response_header =
    all.1.1.1.1.1.1.1.1.1.1.1.1.1.1.1.1.1.1.1.1.1.0
Exported-HasAll l all late coraza_add_response_headers =
    all.1.1.1.1.1.1.1.1.1.1.1.1.1.1.1.1.1.1.1.1.1.1.0
Exported-HasAll l all late coraza_append_response_body =
    all.1.1.1.1.1.1.1.1.1.1.1.1.1.1.1.1.1.1.1.1.1.1.1.0
Exported-HasAll l all late coraza_process_response_body =
    all.1.1.1.1.1.1.1.1.1.1.1.1.1.1.1.1.1.1.1.1.1.1.1.1.0
Exported-HasAll l all late coraza_process_response_headers =
    all.1.1.1.1.1.1.1.1.1.1.1.1.1.1.1.1.1.1.1.1.1.1.1.1.1.0
Exported-HasAll l all late coraza_process_logging =
    all.1.1.1.1.1.1.1.1.1.1.1.1.1.1.1.1.1.1.1.1.1.1.1.1.1.1.0
Exported-HasAll l all late coraza_update_status_code =
    all.1.1.1.1.1.1.1.1.1.1.1.1.1.1.1.1.1.1.1.1.1.1.1.1.1.1.1.0
Exported-HasAll l all late coraza_add_get_args =
    all.1.1.1.1.1.1.1.1.1.1.1.1.1.1.1.1.1.1.1.1.1.1.1.1.1.1.1.1.0
Exported-HasAll l all late coraza_is_response_body_processable =
    all.1.1.1.1.1.1.1.1.1.1.1.1.1.1.1.1.1.1.1.1.1.1.1.1.1.1.1.1.1.0
Exported-HasAll l all late coraza_is_request_body_accessible =
    all.1.1.1.1.1.1.1.1.1.1.1.1.1.1.1.1.1.1.1.1.1.1.1.1.1.1.1.1.1.1.0
Exported-HasAll l all late coraza_is_response_body_accessible = late

pub HasAll-Exported : (l : Loader) → HasAll l → Exported l required_symbols
HasAll-Exported l all = (
  all coraza_new_waf_config,
  (
    all coraza_rules_add,
    (
      all coraza_rules_add_file,
      (
        all coraza_free_waf_config,
        (
          all coraza_new_waf,
          (
            all coraza_free_waf,
            (
              all coraza_free_string,
              (
                all coraza_rules_count,
                (
                  all coraza_rules_merge,
                  (
                    all coraza_new_transaction,
                    (
                      all coraza_new_transaction_with_id,
                      (
                        all coraza_free_transaction,
                        (
                          all coraza_intervention,
                          (
                            all coraza_free_intervention,
                            (
                              all coraza_process_connection,
                              (
                                all coraza_process_uri,
                                (
                                  all coraza_add_request_header,
                                  (
                                    all coraza_add_request_headers,
                                    (
                                      all coraza_process_request_headers,
                                      (
                                        all coraza_append_request_body,
                                        (
                                          all coraza_process_request_body,
                                          (
                                            all coraza_add_response_header,
                                            (
                                              all coraza_add_response_headers,
                                              (
                                                all coraza_append_response_body,
                                                (
                                                  all coraza_process_response_body,
                                                  (
                                                    all coraza_process_response_headers,
                                                    (
                                                      all coraza_process_logging,
                                                      (
                                                        all coraza_update_status_code,
                                                        (
                                                          all coraza_add_get_args,
                                                          (
                                                            all coraza_is_response_body_processable,
                                                            (
                                                            all coraza_is_request_body_accessible,
                                                            tt,
                                                            ),
                                                          ),
                                                        ),
                                                      ),
                                                    ),
                                                  ),
                                                ),
                                              ),
                                            ),
                                          ),
                                        ),
                                      ),
                                    ),
                                  ),
                                ),
                              ),
                            ),
                          ),
                        ),
                      ),
                    ),
                  ),
                ),
              ),
            ),
          ),
        ),
      ),
    ),
  ),
)

pub Resolved-Bound :
    (l : Loader) (dl : Dl)
    → Resolved l required_symbols dl
    → dl.pointers late_symbol ≡ l.dynlib_sym late_symbol
    → Bound l dl
Resolved-Bound l dl all late coraza_new_waf_config = all.0
Resolved-Bound l dl all late coraza_rules_add = all.1.0
Resolved-Bound l dl all late coraza_rules_add_file = all.1.1.0
Resolved-Bound l dl all late coraza_free_waf_config = all.1.1.1.0
Resolved-Bound l dl all late coraza_new_waf = all.1.1.1.1.0
Resolved-Bound l dl all late coraza_free_waf = all.1.1.1.1.1.0
Resolved-Bound l dl all late coraza_free_string = all.1.1.1.1.1.1.0
Resolved-Bound l dl all late coraza_rules_count = all.1.1.1.1.1.1.1.0
Resolved-Bound l dl all late coraza_rules_merge = all.1.1.1.1.1.1.1.1.0
Resolved-Bound l dl all late coraza_new_transaction = all.1.1.1.1.1.1.1.1.1.0
Resolved-Bound l dl all late coraza_new_transaction_with_id = all.1.1.1.1.1.1.1.1.1.1.0
Resolved-Bound l dl all late coraza_free_transaction = all.1.1.1.1.1.1.1.1.1.1.1.0
Resolved-Bound l dl all late coraza_intervention = all.1.1.1.1.1.1.1.1.1.1.1.1.0
Resolved-Bound l dl all late coraza_free_intervention = all.1.1.1.1.1.1.1.1.1.1.1.1.1.0
Resolved-Bound l dl all late coraza_process_connection = all.1.1.1.1.1.1.1.1.1.1.1.1.1.1.0
Resolved-Bound l dl all late coraza_process_uri = all.1.1.1.1.1.1.1.1.1.1.1.1.1.1.1.0
Resolved-Bound l dl all late coraza_add_request_header = all.1.1.1.1.1.1.1.1.1.1.1.1.1.1.1.1.0
Resolved-Bound l dl all late coraza_add_request_headers = all.1.1.1.1.1.1.1.1.1.1.1.1.1.1.1.1.1.0
Resolved-Bound l dl all late coraza_process_request_headers =
    all.1.1.1.1.1.1.1.1.1.1.1.1.1.1.1.1.1.1.0
Resolved-Bound l dl all late coraza_append_request_body =
    all.1.1.1.1.1.1.1.1.1.1.1.1.1.1.1.1.1.1.1.0
Resolved-Bound l dl all late coraza_process_request_body =
    all.1.1.1.1.1.1.1.1.1.1.1.1.1.1.1.1.1.1.1.1.0
Resolved-Bound l dl all late coraza_add_response_header =
    all.1.1.1.1.1.1.1.1.1.1.1.1.1.1.1.1.1.1.1.1.1.0
Resolved-Bound l dl all late coraza_add_response_headers =
    all.1.1.1.1.1.1.1.1.1.1.1.1.1.1.1.1.1.1.1.1.1.1.0
Resolved-Bound l dl all late coraza_append_response_body =
    all.1.1.1.1.1.1.1.1.1.1.1.1.1.1.1.1.1.1.1.1.1.1.1.0
Resolved-Bound l dl all late coraza_process_response_body =
    all.1.1.1.1.1.1.1.1.1.1.1.1.1.1.1.1.1.1.1.1.1.1.1.1.0
Resolved-Bound l dl all late coraza_process_response_headers =
    all.1.1.1.1.1.1.1.1.1.1.1.1.1.1.1.1.1.1.1.1.1.1.1.1.1.0
Resolved-Bound l dl all late coraza_process_logging =
    all.1.1.1.1.1.1.1.1.1.1.1.1.1.1.1.1.1.1.1.1.1.1.1.1.1.1.0
Resolved-Bound l dl all late coraza_update_status_code =
    all.1.1.1.1.1.1.1.1.1.1.1.1.1.1.1.1.1.1.1.1.1.1.1.1.1.1.1.0
Resolved-Bound l dl all late coraza_add_get_args =
    all.1.1.1.1.1.1.1.1.1.1.1.1.1.1.1.1.1.1.1.1.1.1.1.1.1.1.1.1.0
Resolved-Bound l dl all late coraza_is_response_body_processable =
    all.1.1.1.1.1.1.1.1.1.1.1.1.1.1.1.1.1.1.1.1.1.1.1.1.1.1.1.1.1.0
Resolved-Bound l dl all late coraza_is_request_body_accessible =
    all.1.1.1.1.1.1.1.1.1.1.1.1.1.1.1.1.1.1.1.1.1.1.1.1.1.1.1.1.1.1.0
Resolved-Bound l dl all late coraza_is_response_body_accessible = late
