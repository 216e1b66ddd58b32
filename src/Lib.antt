-- ===== src/Lib.antt =====
-- A model of mod_coraza, the Coraza web application firewall for the Apache HTTP server, with
-- theorems about it.
--
-- For each request the module's post-read-request hook opens a transaction in libcoraza, tells it
-- the connection, the request line, the headers and the body (phases 1 and 2), and enforces the
-- intervention that the engine may have queued after each. The body that it reads is kept for the
-- handler, in memory and past a limit in a file; an input filter replays it. An output filter does
-- the same for the response (phases 3 and 4) and holds it back until it has been inspected. The log
-- hook ends the transaction's life with phase 5.
--
-- Files, and the code they model:
--   Base           names, tests, lists and integers that all modules share
--   Config         the configuration records of src/mod_coraza.h
--   Engine         the calls of libcoraza that src/mod_coraza_dl.c wraps, and the engine's answers
--   Request        coraza_request_ctx_t of src/mod_coraza.h, the written part of request_rec
--   Headers        coraza_pack_headers of src/mod_coraza.c
--   Logging        coraza_log_transaction of src/mod_coraza_log.c
--   Intervention   coraza_process_intervention and coraza_drop_connection of src/mod_coraza.c,
--                  coraza_enforce_intervention of src/mod_coraza_phase1.c
--   Flow           steps that may return early from the hook, and a triple for them
--   Submit         the submission of a header set, in phases 1 and 3
--   Steps          an engine call that fails closed, and the enforcement behind it
--   Body           the read loop of coraza_post_read_request, coraza_open_body_spool
--   Phase1         coraza_post_read_request of src/mod_coraza_phase1.c, behind its guards
--   BodyIn         coraza_input_filter and coraza_replay_saved_body of src/mod_coraza_body_in.c
--   Response       the exits of the output filter, coraza_is_sse_response
--   Obeys          what it is to obey the engine's answers
--   Output         coraza_output_filter of src/mod_coraza_filter_out.c
--   Library        the other wrappers of src/mod_coraza_dl.c, and libcoraza's answers to them
--   Waf            coraza_build_waf of src/mod_coraza.c
--   WafCache       rules_hash, rules_equal, waf_cache_find and waf_cache_add of src/mod_coraza.c
--   Transaction    coraza_create_ctx and coraza_cleanup_transaction of src/mod_coraza.c
--   Hook           the guards of coraza_post_read_request, coraza_ctx_from_prev
--   RulesScan      coraza_rules_scan_*, coraza_check_rules_text and coraza_check_rules_file of
--                  src/mod_coraza.c
--   Directives     the cmd_* functions and coraza_create_server_conf of src/mod_coraza.c
--   Check          coraza_check_config of src/mod_coraza.c
--   Merge          coraza_create_dir_conf and coraza_merge_dir_conf of src/mod_coraza.c
--   DlOpen         coraza_dl_open and coraza_dl_close of src/mod_coraza_dl.c
--   Child          coraza_child_init and coraza_child_exit of src/mod_coraza.c
--   Samples        requests and engines that the examples run on
--
-- How the state corresponds: a request carries its context and the history of the calls that its
-- transaction has seen. The engine is any function of this history: its answers are a parameter of
-- every definition and nothing is assumed of them. What httpd and APR answer (a block of body, a
-- failed write, a refused temp file, a brigade cut in two) is a parameter too. A step of the hook
-- goes on or returns a status, a step of the filter goes on or leaves with one. A bucket is what
-- reading it gives. A worker keeps the history of the calls that build WAFs and open transactions,
-- its directory configurations by their indices, the WAF cache, and whether the mutex was created;
-- locking a mutex that was not created is a fault, `none`. Whether apr_thread_mutex_create makes the
-- mutex is a parameter of coraza_child_init, which does not look at its status.
--
-- Bounds: all loops are structural recursion over the headers, the blocks or the buckets, so no
-- fuel is needed. Hashes have 64 bits; line numbers and counters have 32. Sizes are natural
-- numbers, with the source's tests against INT_MAX and 65535 written out. CORAZA_MAX_DELAYED_BODY
-- has its default of 1 MiB.
--
-- Not modelled: the registration of hooks and of the native Sec* directives, and log lines, which
-- are all that coraza_post_config does. apr_brigade_create and pool allocation do not fail.
pub mod Base
pub mod Config
pub mod Engine
pub mod Request
pub mod Headers
pub mod Logging
pub mod Intervention
pub mod Flow
pub mod Submit
pub mod Steps
pub mod Body
pub mod Phase1
pub mod Samples
pub mod Response
pub mod Output
pub mod Obeys
pub mod BodyIn
pub mod WafCache
pub mod Merge
pub mod Library
pub mod Waf
pub mod Transaction
pub mod Hook
pub mod RulesScan
pub mod Directives
pub mod Check
pub mod DlOpen
pub mod Child
