-- ===== src/Provider/Sse.antt =====
-- internal/provider/sseparse.go. bytes.TrimSpace is a parameter; bufio.Scanner with its line
-- splitter is written out as documented: lines end at a line feed, a carriage return before it is
-- dropped, a last line without one counts if it is not empty, and a line that fills the buffer is
-- an error.
pub mod RoundTrip
use workhorse_agent.Prelude.{
  ℕ, ◌*◌, Bool, true, false, not, ◌||◌, List, [], ◌∷◌, ◌++◌, Option, none, some, Text, codes,
  is_empty, length, ltb, ◌==◌, if◌then◌else◌, is_some,
}

pub record SseEvent : Type 0 where
  pub kind : Text
  pub payload : Text

-- What fn answers: nil, io.EOF, or another error.
pub data Answer : Type 0 where
  go_on end_of_file : Answer
  fails : Text → Answer

-- What ParseSSE answers; an io.EOF of fn comes out of the last dispatch only.
pub data Parsed : Type 0 where
  ok end_of_file_error line_too_long : Parsed
  failed : Text → Parsed

abbrev pub max_line : ℕ
max_line = 4 * 1024 * 1024

-- Drops a carriage return at the end.
unfoldable pub drop_cr : Text → Text
drop_cr [] = []
drop_cr (c ∷ []) = if c == 13 then [] else c ∷ []
drop_cr (c ∷ d ∷ cs) = c ∷ drop_cr (d ∷ cs)

abbrev pub line_onto : Text → List Text → List Text
line_onto c [] = c ∷ []
line_onto c (l ∷ ls) = (c ++ l) ∷ ls

-- The pieces between the line feeds, one at least.
unfoldable pub pieces : Text → List Text
pieces [] = [] ∷ []
pieces (c ∷ cs) = let rest = pieces cs in if c == 10 then [] ∷ rest else line_onto (c ∷ []) rest

-- The lines as the scanner sees them, before a carriage return is dropped.
unfoldable pub raw_lines : List Text → List Text
raw_lines [] = []
raw_lines ([] ∷ []) = []
raw_lines ((c ∷ cs) ∷ []) = (c ∷ cs) ∷ []
raw_lines (l ∷ m ∷ ls) = l ∷ raw_lines (m ∷ ls)

-- The rest of a text after a prefix.
unfoldable pub after : Text → Text → Option Text
after [] t = some t
after (p ∷ ps) [] = none
after (p ∷ ps) (c ∷ cs) = let rest = after ps cs in if p == c then rest else none

abbrev pub drop_space : Text → Text
drop_space [] = []
drop_space (c ∷ cs) = if c == 32 then cs else c ∷ cs

-- The variables of the loop; no data is none.
pub record Pending : Type 0 where
  pub event_type : Text
  pub payload : Option Text

abbrev pub empty_pending : Pending
empty_pending = record { event_type = []; payload = none }

abbrev joined : Option Text → Text → Text
joined none d = d
joined (some old) d = old ++ (10 ∷ d)

abbrev text_or_empty : Option Text → Text
text_or_empty none = []
text_or_empty (some d) = d

module _ (trim : Text → Text) where
  -- A line that is neither empty nor a comment.
  unfoldable pub read_line : Text → Pending → Pending
  unfolding codes
  read_line line p = elim (after (codes "event:") line) [
    | some t ↦ record p { event_type = trim t }
    | none ↦ elim (after (codes "data:") line) [
      | some d ↦ record p { payload = some (joined p.payload (drop_space d)) }
      | none ↦ p
    ]
  ]

  abbrev pub is_comment : Text → Bool
  is_comment [] = false
  is_comment (c ∷ cs) = c == 58

  module _ {S : Type 0} (fn : S → SseEvent → S × Answer) where
    abbrev pub has_event : Pending → Bool
    has_event p = not (is_empty p.event_type) || is_some p.payload

    unfoldable pub dispatch : Pending → S → S × Answer
    dispatch p s =
        if has_event p
        then fn s (record { kind = p.event_type; payload = text_or_empty p.payload })
        else (s, go_on)

    abbrev last_answer : S × Answer → S × Parsed
    last_answer (s, go_on) = (s, ok)
    last_answer (s, end_of_file) = (s, end_of_file_error)
    last_answer (s, fails e) = (s, failed e)

    abbrev goes_on : S × Answer → S × Parsed → S × Parsed
    goes_on (s, go_on) rest = rest
    goes_on (s, end_of_file) rest = (s, ok)
    goes_on (s, fails e) rest = (s, failed e)

    -- The loop over the scanner's lines and the dispatch after it.
    unfoldable pub parse_lines : List Text → Pending → S → S × Parsed
    parse_lines [] p s = last_answer (dispatch p s)
    parse_lines (l ∷ ls) p s =
        let blank = goes_on (dispatch p s) (parse_lines ls empty_pending (dispatch p s).0) in
        let on = parse_lines ls p s in
        let read = parse_lines ls (read_line (drop_cr l) p) s in
        if not (ltb (length l) max_line)
        then (s, line_too_long)
        else if is_empty (drop_cr l)
        then blank
        else if is_comment (drop_cr l)
        then on
        else read

    unfoldable pub parse_sse : Text → S → S × Parsed
    parse_sse input s = parse_lines (raw_lines (pieces input)) empty_pending s
