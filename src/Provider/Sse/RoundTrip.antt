-- ===== src/Provider/Sse/RoundTrip.antt =====
-- Events written out as the protocol has them are parsed back, and the line splitter under that.
use workhorse_agent.Prelude.{
  ◌≡◌, refl, sym, ap, ◌∙◌, ℕ, Bool, true, false, not, ◌&&◌, List, [], ◌∷◌, ◌++◌, Option, none, some,
  Text, codes, is_empty, length, ltb, ◌==◌, map, All, All-append, arith,
}
use mathlib.Core.List.{append_assoc, append-nil}
use workhorse_agent.Provider.Sse.{
  SseEvent, Answer, go_on, ok, max_line, drop_cr, pieces, raw_lines, after, Pending, empty_pending,
  joined, text_or_empty, read_line, is_comment, dispatch, parse_lines, parse_sse,
}

unfoldable pub lacks : ℕ → Text → Bool
lacks b [] = true
lacks b (c ∷ cs) = not (c == b) && lacks b cs

unfoldable pub unlines : List Text → Text
unlines [] = []
unlines (l ∷ ls) = l ++ (10 ∷ unlines ls)

-- A line that the scanner gives back as it is.
abbrev pub Clean : Text → Type 0
Clean l = (lacks 10 l ≡ true) × (drop_cr l ≡ l) × (ltb (length l) max_line ≡ true)

pieces-line : (l t : Text) → lacks 10 l ≡ true → pieces (l ++ (10 ∷ t)) ≡ l ∷ pieces t
unfolding pieces lacks
pieces-line [] t h = refl
pieces-line (c ∷ cs) t h = ground (arith, h, pieces-line cs t)

raw_lines-ended : (ls : List Text) → raw_lines (ls ++ [] ∷ []) ≡ ls
unfolding raw_lines
raw_lines-ended [] = refl
raw_lines-ended (l ∷ []) = refl
raw_lines-ended (l ∷ m ∷ ls) = ap (λ t. l ∷ t) (raw_lines-ended (m ∷ ls))

pieces-unlines : (ls : List Text) → All Clean ls → pieces (unlines ls) ≡ ls ++ [] ∷ []
unfolding unlines pieces
pieces-unlines [] h = refl
pieces-unlines (l ∷ ls) h =
    pieces-line l (unlines ls) h.0.0 ∙ ap (λ t. l ∷ t) (pieces-unlines ls h.1)

pub scan-unlines : (ls : List Text) → All Clean ls → raw_lines (pieces (unlines ls)) ≡ ls
scan-unlines ls h = ap raw_lines (pieces-unlines ls h) ∙ raw_lines-ended ls

-- What is sent: the type and the lines of the payload.
pub record Sent : Type 0 where
  pub kind : Text
  pub lines : List Text

abbrev data_line : Text → Text
data_line l = codes "data: " ++ l

unfoldable pub wire : Sent → List Text
unfolding codes
wire e = (codes "event:" ++ e.kind) ∷ (map data_line e.lines ++ [] ∷ [])

unfoldable pub wire_all : List Sent → List Text
wire_all [] = []
wire_all (e ∷ es) = wire e ++ wire_all es

unfoldable pub join_lines : List Text → Text
join_lines [] = []
join_lines (l ∷ []) = l
join_lines (l ∷ m ∷ ls) = l ++ (10 ∷ join_lines (m ∷ ls))

abbrev pub as_event : Sent → SseEvent
as_event e = record { kind = e.kind; payload = join_lines e.lines }

-- The callback that keeps every event.
abbrev pub collect : List SseEvent → SseEvent → List SseEvent × Answer
collect seen e = (seen ++ e ∷ [], go_on)

unfoldable joined_all : Option Text → List Text → Option Text
joined_all o [] = o
joined_all o (l ∷ ls) = joined_all (some (joined o l)) ls

join_lines-cons :
    (a l : Text) (ls : List Text)
    → join_lines ((a ++ (10 ∷ l)) ∷ ls) ≡ a ++ (10 ∷ join_lines (l ∷ ls))
unfolding join_lines
join_lines-cons a l [] = refl
join_lines-cons a l (m ∷ ls) = append_assoc a (10 ∷ l) (10 ∷ join_lines (m ∷ ls))

joined_all-some : (a : Text) (ls : List Text) → joined_all (some a) ls ≡ some (join_lines (a ∷ ls))
unfolding joined_all join_lines
joined_all-some a [] = refl
joined_all-some a (l ∷ ls) = joined_all-some (a ++ (10 ∷ l)) ls ∙ ap some (join_lines-cons a l ls)

joined_all-none : (ls : List Text) → text_or_empty (joined_all none ls) ≡ join_lines ls
unfolding joined_all join_lines
joined_all-none [] = refl
joined_all-none (l ∷ ls) = ap text_or_empty (joined_all-some l ls)

All-front {ℓ κ} : {A : Type ℓ} (P : A → Type κ) (xs ys : List A) → All P (xs ++ ys) → All P xs
All-front P [] ys h = tt
All-front P (x ∷ xs) ys h = (h.0, All-front P xs ys h.1)

module _ (trim : Text → Text) where
  parse_lines-reads :
      (l : Text) (ls : List Text) (p : Pending) (seen : List SseEvent)
      → Clean l
      → is_empty l ≡ false
      → is_comment trim l ≡ false
      → parse_lines trim collect (l ∷ ls) p seen
        ≡ parse_lines trim collect ls (read_line trim l p) seen
  unfolding parse_lines
  parse_lines-reads l ls p seen c n h = ground (arith, c.1, c.2, n, h)

  parse_lines-event :
      (k : Text) (ls : List Text) (seen : List SseEvent)
      → Clean (codes "event:" ++ k)
      → trim k ≡ k
      → parse_lines trim collect ((codes "event:" ++ k) ∷ ls) empty_pending seen
        ≡ parse_lines trim collect ls (record { event_type = k; payload = none }) seen
  unfolding read_line codes after
  parse_lines-event k ls seen c t =
      parse_lines-reads (codes "event:" ++ k) ls empty_pending seen c refl refl
      ∙ ap (λ x. parse_lines trim collect ls (record { event_type = x; payload = none }) seen) t

  parse_lines-data :
      (ds ls : List Text) (k : Text) (o : Option Text) (seen : List SseEvent)
      → All Clean (map data_line ds)
      → parse_lines trim collect
          (map data_line ds ++ ls)
          (record { event_type = k; payload = o })
          seen
        ≡ parse_lines trim collect ls (record { event_type = k; payload = joined_all o ds }) seen
  unfolding read_line codes after joined_all
  parse_lines-data [] ls k o seen h = refl
  parse_lines-data (d ∷ ds) ls k o seen h =
      parse_lines-reads (data_line d) (map data_line ds ++ ls)
        (record { event_type = k; payload = o }) seen h.0 refl refl
      ∙ parse_lines-data ds ls k (some (joined o d)) seen h.1

  parse_lines-blank :
      (ls : List Text) (k : Text) (o : Option Text) (seen : List SseEvent)
      → is_empty k ≡ false
      → parse_lines trim collect ([] ∷ ls) (record { event_type = k; payload = o }) seen
        ≡ parse_lines trim collect ls empty_pending
            (seen ++ (record { kind = k; payload = text_or_empty o }) ∷ [])
  unfolding parse_lines dispatch drop_cr
  parse_lines-blank ls k o seen h = ground (arith, h)

  -- Each wire line comes back from the scanner as it is, and the type is its own trimming.
  abbrev pub Fair : Sent → Type 0
  Fair e = All Clean (wire e) × (trim e.kind ≡ e.kind) × (is_empty e.kind ≡ false)

  parse_lines-wire :
      (e : Sent) (ls : List Text) (seen : List SseEvent)
      → Fair e
      → parse_lines trim collect (wire e ++ ls) empty_pending seen
        ≡ parse_lines trim collect ls empty_pending (seen ++ as_event e ∷ [])
  unfolding wire codes
  parse_lines-wire e ls seen (c, t, n) =
      ap (λ t. parse_lines trim collect ((codes "event:" ++ e.kind) ∷ t) empty_pending seen)
        (append_assoc (map data_line e.lines) ([] ∷ []) ls)
      ∙ parse_lines-event e.kind (map data_line e.lines ++ [] ∷ ls) seen c.0 t
      ∙ parse_lines-data e.lines ([] ∷ ls) e.kind none seen
          (All-front Clean (map data_line e.lines) ([] ∷ []) c.1)
      ∙ parse_lines-blank ls e.kind (joined_all none e.lines) seen n
      ∙ ap
          (λ x.
            parse_lines trim collect ls empty_pending
              (seen ++ (record { kind = e.kind; payload = x }) ∷ []))
          (joined_all-none e.lines)

  parse_lines-wire_all :
      (es : List Sent) (seen : List SseEvent)
      → All Fair es
      → parse_lines trim collect (wire_all es) empty_pending seen ≡ (seen ++ map as_event es, ok)
  unfolding wire_all parse_lines dispatch
  parse_lines-wire_all [] seen h = ap (λ t. (t, ok)) (sym (append-nil seen))
  parse_lines-wire_all (e ∷ es) seen h =
      parse_lines-wire e (wire_all es) seen h.0
      ∙ parse_lines-wire_all es (seen ++ as_event e ∷ []) h.1
      ∙ ap (λ t. (t, ok)) (append_assoc seen (as_event e ∷ []) (map as_event es))

  wire_all-Clean : (es : List Sent) → All Fair es → All Clean (wire_all es)
  unfolding wire_all
  wire_all-Clean [] h = tt
  wire_all-Clean (e ∷ es) h = All-append Clean (wire e) (wire_all es) h.0.0 (wire_all-Clean es h.1)

  -- Events with a type that is not empty and is its own trimming, written as an `event:` line,
  -- `data:` lines and an empty line, where the lines are below the limit and free of line feeds
  -- and of a carriage return at the end, are parsed back, all and in order, with the lines of each
  -- payload joined by line feeds.
  pub parse_sse-wire :
      (es : List Sent)
      → All Fair es
      → parse_sse trim collect (unlines (wire_all es)) [] ≡ (map as_event es, ok)
  unfolding parse_sse
  parse_sse-wire es h =
      ap (λ ls. parse_lines trim collect ls empty_pending [])
        (scan-unlines (wire_all es) (wire_all-Clean es h))
      ∙ parse_lines-wire_all es [] h
