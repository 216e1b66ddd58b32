-- ===== src/RulesScan.antt =====
-- The scan of SecLang text for directives that the engine refuses, src/mod_coraza.c:
-- `coraza_rules_scan_*`. `unsigned` has 32 bits.
pub mod Chunks
pub mod Bounds
pub mod Words
pub mod Letters
pub mod Line
mod Examples
use coraza_apache.Base.{
  Bytes, none, Option, ℕ, if◌then◌else◌, ◌+◌, false, List, not, some, Bool, [], codes, ◌∷◌, ◌==◌,
  ◌%◌, leb, ◌^◌, length, ◌&&◌, ◌||◌, ltb, bytes_eq, true, ◌++◌,
}

-- `coraza_unsupported_directives`
abbrev pub unsupported_directives : List Bytes
unsupported_directives = codes "SecRemoteRules" ∷ []

-- `sizeof(s->word)`
abbrev pub word_size : ℕ
word_size = 32

-- `coraza_rules_scan_t`; the collected bytes are `word`, and 0 in `first` is no byte.
pub record Scan : Type 0 where
  pub line : ℕ
  pub rec_line : ℕ
  pub in_record : Bool
  pub in_backticks : Bool
  pub word_done : Bool
  pub first : ℕ
  pub last : ℕ
  pub word : Bytes

abbrev pub scan_init : Scan
scan_init = record {
  line = 1;
  rec_line = 0;
  in_record = false;
  in_backticks = false;
  word_done = false;
  first = 0;
  last = 0;
  word = [];
}

-- The directive, where the code returns one.
abbrev pub Verdict : Type 0
Verdict = Option Bytes

-- `strncasecmp` on bytes of the same number, in the C locale.
pub lower : Bytes → Bytes
lower [] = []
lower (c ∷ cs) = (if leb 65 c && leb c 90 then c + 32 else c) ∷ lower cs

pub find_directive : Bytes → List Bytes → Verdict
unfolding lower
find_directive word [] = none
find_directive word (d ∷ ds) =
    if length word == length d && bytes_eq (lower word) (lower d)
    then some d
    else find_directive word ds

-- `coraza_rules_scan_word`
pub scan_word : Scan → Verdict
unfolding find_directive
scan_word s = find_directive s.word unsupported_directives

abbrev pub clear_line : Scan → Scan
clear_line s = record s { first = 0; last = 0 }

-- The opening and closing of an action list.
pub toggle_backticks : Scan → Scan
toggle_backticks s =
    if not s.in_backticks && s.last == 96
    then record s { in_backticks = true }
    else if s.in_backticks && s.first == 96
    then record s { in_backticks = false }
    else s

-- The word without a backslash at its end.
pub without_backslash : Bytes → Bytes
without_backslash [] = []
without_backslash (c ∷ []) = if c == 92 then [] else c ∷ []
without_backslash (c ∷ d ∷ cs) = c ∷ without_backslash (d ∷ cs)

pub drop_backslash : Scan → Scan
unfolding without_backslash
drop_backslash s = if s.word_done then s else record s { word = without_backslash s.word }

abbrev pub close_record : Scan → Scan
close_record s = record s { in_record = false; word_done = false; word = [] }

-- A line that is neither blank nor a comment, behind the toggle.
pub end_line : Scan → Verdict × Scan
unfolding scan_word drop_backslash
end_line s =
    if s.in_backticks
    then (none, clear_line s)
    else if s.last == 92
    then (none, clear_line (drop_backslash s))
    else (scan_word s, close_record (clear_line s))

-- `coraza_rules_scan_eol`
pub scan_eol : Scan → Verdict × Scan
unfolding end_line toggle_backticks
scan_eol s =
    if s.first == 0 || s.first == 35 then (none, clear_line s) else end_line (toggle_backticks s)

abbrev pub next_line : Scan → Scan
next_line s = record s { line = (s.line + 1) % 2 ^ 32 }

pub newline : Scan → Verdict × Scan
unfolding scan_eol
newline s =
    let (bad, s') = scan_eol s in elim bad [ none ↦ (none, next_line s') | some d ↦ (some d, s') ]

abbrev pub is_blank : ℕ → Bool
is_blank c = c == 32 || c == 9 || c == 13 || c == 11 || c == 12

-- A blank: behind the first word it ends it.
pub see_blank : Scan → Scan
see_blank s =
    if not (s.first == 0) && not (s.first == 35) && ltb 0 (length s.word)
    then record s { word_done = true }
    else s

-- The first byte of a line opens a record, but for a comment.
pub open_line : ℕ → Scan → Scan
open_line c s =
    if not (s.first == 0)
    then s
    else if not (c == 35) && not s.in_record
    then record s { first = c; in_record = true; rec_line = s.line }
    else record s { first = c }

pub collect_byte : ℕ → Scan → Scan
collect_byte c s =
    if s.first == 35 || s.word_done
    then s
    else if ltb (length s.word) word_size
    then record s { word = s.word ++ c ∷ [] }
    else record s { word = []; word_done = true }

pub see_byte : ℕ → Scan → Scan
unfolding open_line collect_byte
see_byte c s = collect_byte c (record (open_line c s) { last = c })

-- The loop's body.
pub scan_byte : ℕ → Scan → Verdict × Scan
unfolding newline see_blank see_byte
scan_byte c s =
    if c == 10 then newline s else if is_blank c then (none, see_blank s) else (none, see_byte c s)

-- `coraza_rules_scan`
unfoldable pub scan : Bytes → Scan → Verdict × Scan
unfolding scan_byte
scan [] s = (none, s)
scan (c ∷ cs) s =
    let (bad, s') = scan_byte c s in
    let rest = scan cs s' in elim bad [ none ↦ rest | some d ↦ (some d, s') ]

-- `coraza_rules_scan_done`
unfoldable pub scan_done : Scan → Verdict × Scan
unfolding scan_eol scan_word
scan_done s =
    let (bad, s') = scan_eol s in
    elim bad [
      | some d ↦ (some d, s')
      | none ↦ ((if s'.in_backticks then scan_word s' else none), s')
    ]

-- The directive and the line where its record starts, of the messages.
pub record Refusal : Type 0 where
  pub directive : Bytes
  pub rec_line : ℕ

abbrev pub refusal : Verdict × Scan → Option Refusal
refusal (none, s) = none
refusal (some d, s) = some (record { directive = d; rec_line = s.rec_line })

-- Behind a scan that found nothing, the end of the input.
abbrev pub finish : Verdict × Scan → Verdict × Scan
finish (none, s) = scan_done s
finish (some d, s) = (some d, s)

-- `coraza_check_rules_text`
unfoldable pub check_rules_text : Bytes → Option Refusal
unfolding scan scan_done
check_rules_text text = refusal (finish (scan text scan_init))

-- What `apr_file_read` gives, call by call.
pub data Reads : Type 0 where
  chunk : Bytes → Reads → Reads
  at_eof : Reads
  read_error : Reads

-- The loop over the file.
pub scan_reads : Reads → Scan → Verdict × Scan
unfolding scan scan_done
scan_reads at_eof s = scan_done s
scan_reads read_error s = (none, s)
scan_reads (chunk b more) s =
    let (bad, s') = scan b s in
    let rest = scan_reads more s' in elim bad [ none ↦ rest | some d ↦ (some d, s') ]

-- How a rules file fares: its path does not resolve; it is refused; or it is stored, with the
-- resolved path.
pub data FileCheck : Type 0 where
  invalid_path : FileCheck
  refused_file : Refusal → FileCheck
  accepted : Bytes → FileCheck

-- httpd and the file system: `ap_server_root_relative`, and the reads of a file that opens.
pub record Files : Type 0 where
  pub server_root_relative : Bytes → Option Bytes
  pub file_open : Bytes → Option Reads

abbrev pub check_reads : Bytes → Option Reads → FileCheck
check_reads full none = accepted full
check_reads full (some reads) = elim (refusal (scan_reads reads scan_init)) [
  | none ↦ accepted full
  | some r ↦ refused_file r
]

-- `coraza_check_rules_file`
unfoldable pub check_rules_file : Files → Bytes → FileCheck
unfolding scan_reads
check_rules_file files path = elim (files.server_root_relative path) [
  | none ↦ invalid_path
  | some full ↦ check_reads full (files.file_open full)
]
