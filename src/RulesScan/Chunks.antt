-- ===== src/RulesScan/Chunks.antt =====
-- The verdict on a rules file does not depend on how its bytes arrive, and is the one on its text:
-- `coraza_check_rules_file` and `coraza_check_rules_text` of src/mod_coraza.c.
use coraza_apache.RulesScan.{
  Reads, scan_reads, check_rules_file, scan, Verdict, chunk, check_rules_text, Scan, Files, Refusal,
  finish, at_eof, FileCheck, scan_init, accepted, refused_file, read_error, scan_byte, refusal,
}
use coraza_apache.Base.{◌≡◌, refl, Bytes, Option, some, ◌++◌, ◌∷◌, [], none, ◌∙◌, sym, ap}

-- More bytes behind a scan.
abbrev pub then_scan : Bytes → Verdict × Scan → Verdict × Scan
then_scan q (none, s) = scan q s
then_scan q (some d, s) = (some d, s)

pub scan-append : (p q : Bytes) (s : Scan) → scan (p ++ q) s ≡ then_scan q (scan p s)
unfolding scan
scan-append [] q s = refl
scan-append (c ∷ p) q s = by_verdict (scan_byte c s) (scan-append p q)
  where
    by_verdict :
        (x : Verdict × Scan)
        → ((t : Scan) → scan (p ++ q) t ≡ then_scan q (scan p t))
        → elim x.0 [ none ↦ scan (p ++ q) x.1 | some d ↦ (some d, x.1) ]
          ≡ then_scan q (elim x.0 [ none ↦ scan p x.1 | some d ↦ (some d, x.1) ])
    by_verdict (none, s') k = k s'
    by_verdict (some d, s') k = refl

-- The bytes of a file that was read.
abbrev pub bytes_of : Reads → Bytes
bytes_of (chunk b more) = b ++ bytes_of more
bytes_of at_eof = []
bytes_of read_error = []

abbrev pub ReachesEof : Reads → Type 0
ReachesEof (chunk b more) = ReachesEof more
ReachesEof at_eof = Unit
ReachesEof read_error = ⊥

finish-then_scan :
    (q : Bytes) (x : Verdict × Scan)
    → finish (then_scan q x) ≡ elim x.0 [ none ↦ finish (scan q x.1) | some d ↦ (some d, x.1) ]
finish-then_scan q (none, s) = refl
finish-then_scan q (some d, s) = refl

scan_reads-scan :
    (reads : Reads) (s : Scan)
    → ReachesEof reads
    → scan_reads reads s ≡ finish (scan (bytes_of reads) s)
unfolding scan_reads scan
scan_reads-scan at_eof s e = refl
scan_reads-scan read_error s e = absurd e
scan_reads-scan (chunk b more) s e =
    by_verdict (scan b s) (λ t. scan_reads-scan more t e)
    ∙ sym (finish-then_scan (bytes_of more) (scan b s))
    ∙ ap finish (sym (scan-append b (bytes_of more) s))
  where
    by_verdict :
        (x : Verdict × Scan)
        → ((t : Scan) → scan_reads more t ≡ finish (scan (bytes_of more) t))
        → elim x.0 [ none ↦ scan_reads more x.1 | some d ↦ (some d, x.1) ]
          ≡ elim x.0 [ none ↦ finish (scan (bytes_of more) x.1) | some d ↦ (some d, x.1) ]
    by_verdict (none, s') k = k s'
    by_verdict (some d, s') k = refl

-- What a text's verdict is for a file.
abbrev pub file_check : Bytes → Option Refusal → FileCheck
file_check full none = accepted full
file_check full (some r) = refused_file r

as_file_check :
    (full : Bytes) (x : Verdict × Scan)
    → elim (refusal x) [ none ↦ accepted full | some r ↦ refused_file r ]
      ≡ file_check full (refusal x)
as_file_check full (none, s) = refl
as_file_check full (some d, s) = refl

opened_file :
    (files : Files) (path full : Bytes) (reads : Reads)
    → files.server_root_relative path ≡ some full
    → files.file_open full ≡ some reads
    → check_rules_file files path ≡ elim (refusal (scan_reads reads scan_init)) [
      | none ↦ accepted full
      | some r ↦ refused_file r
    ]
unfolding check_rules_file
opened_file files path full reads resolved opens =
    rw (resolved, check_rules_file) (rw (opens, check_rules_file) refl)

-- A file that opens and is read to its end, in whatever pieces, is judged as its text would be, with
-- the same directive and the same line: it is refused when the text is, and else stored.
pub check_rules_file-check_rules_text :
    (files : Files) (path full : Bytes) (reads : Reads)
    → files.server_root_relative path ≡ some full
    → files.file_open full ≡ some reads
    → ReachesEof reads
    → check_rules_file files path ≡ file_check full (check_rules_text (bytes_of reads))
unfolding check_rules_text
check_rules_file-check_rules_text files path full reads resolved opens e =
    rw (opened_file files path full reads resolved opens, scan_reads-scan reads scan_init e)
      (as_file_check full (finish (scan (bytes_of reads) scan_init)))
