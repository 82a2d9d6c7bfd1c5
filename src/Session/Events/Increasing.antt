-- ===== src/Session/Events/Increasing.antt =====
-- Tables and streams of strictly increasing idx.
use workhorse_agent.Prelude.{
  ◌≡◌, refl, ap, ℕ, ◌≤◌, ◌<◌, Bool, true, false, ◌&&◌, ◌||◌, ◌==◌, List, [], ◌∷◌, ◌++◌, Text,
  keep_if, ltb, leb, leb-false, arith, Bool-cases, inl, inr,
}
use workhorse_agent.Session.Events.{
  Event, Emitter, emit, assign_idx, next_idx, of_session, last_idx, append_event, events_after,
  max_event_idx, live, replay,
}

-- Strictly increasing idx from a bound on.
abbrev pub Above : ℕ → List Event → Type 0
Above b [] = Unit
Above b (e ∷ es) = (b < e.idx) × Above e.idx es

-- The bounds of the snapshot keep all of the session's rows.
kept_below :
    (session : Text) (last bound : ℕ) (es : List Event)
    → max_event_idx session es ≤ bound
    → 0 < bound
    → events_after session last bound es ≡ events_after session last 0 es
unfolding events_after max_event_idx keep_if
kept_below session last bound [] h p = refl
kept_below session last bound (e ∷ es) h p = ground (arith, h, p, kept_below session last bound es)

max_event_idx-gt :
    (session : Text) (b : ℕ) (es : List Event)
    → Above b es
    → 0 < max_event_idx session es
    → b < max_event_idx session es
unfolding max_event_idx
max_event_idx-gt session b [] h p = ground (arith, p)
max_event_idx-gt session b (e ∷ es) h p =
    ground (arith, h.0, p, max_event_idx-gt session e.idx es h.1)

none_after :
    (session : Text) (last : ℕ) (es : List Event)
    → max_event_idx session es ≤ last
    → events_after session last 0 es ≡ []
unfolding events_after max_event_idx keep_if
none_after session last [] h = refl
none_after session last (e ∷ es) h = ground (arith, h, none_after session last es)

-- The last row replayed is the snapshot's.
pub last_idx-replayed :
    (session : Text) (last b c : ℕ) (es : List Event)
    → Above b es
    → last < max_event_idx session es
    → last_idx c (events_after session last 0 es) ≡ max_event_idx session es
unfolding events_after max_event_idx last_idx keep_if
last_idx-replayed session last b c [] h l = ground (arith, l)
last_idx-replayed session last b c (e ∷ es) h l =
    elim (Bool-cases (ltb last (max_event_idx session es))) [
      | inl more ↦ ground (
        arith,
        h.0,
        more,
        max_event_idx-gt session e.idx es h.1,
        last_idx-replayed session last e.idx c es h.1,
        last_idx-replayed session last e.idx e.idx es h.1,
      )
      | inr done ↦
          let rest = none_after session last es (ground (arith, done)) in
          ground (arith, l, done, ap (last_idx e.idx) rest, ap (last_idx c) rest)
    ]

pub replay-kept :
    (session : Text) (last : ℕ) (rows : List Event)
    → last < max_event_idx session rows
    → replay last session rows ≡ events_after session last 0 rows
unfolding replay
replay-kept session last rows l = ground (
  arith,
  l,
  kept_below session last (max_event_idx session rows) rows (omega arith) (omega (arith, l)),
)

pub Above-append :
    (b : ℕ) (xs ys : List Event) → Above b xs → Above (last_idx b xs) ys → Above b (xs ++ ys)
unfolding last_idx
Above-append b [] ys h k = k
Above-append b (x ∷ xs) ys h k = (h.0, Above-append x.idx xs ys h.1 k)

pub Above-live : (sent : ℕ) (es : List Event) → Above sent (live sent es)
unfolding live
Above-live sent [] = tt
Above-live sent (e ∷ es) = elim (Bool-cases (leb e.idx sent)) [
  | inl old ↦ rw (old, live) (Above-live sent es)
  | inr new ↦ rw (new, live) (leb-false e.idx sent new, Above-live e.idx es)
]

events_after-Above :
    (session : Text) (last b c : ℕ) (es : List Event)
    → Above b es
    → c ≤ b
    → Above c (events_after session last 0 es)
unfolding events_after keep_if
events_after-Above session last b c [] h l = tt
events_after-Above session last b c (e ∷ es) h l =
    let later = events_after-Above session last e.idx e.idx es h.1 (omega arith) in
    let skipped = events_after-Above session last e.idx c es h.1 (omega (arith, h.0, l)) in
    elim (Bool-cases (of_session session e && ltb last e.idx && (0 == 0 || leb e.idx 0))) [
      | inl t ↦ rw t (omega (arith, h.0, l), later)
      | inr t ↦ rw t skipped
    ]

pub events_after-newer :
    (session : Text) (last b : ℕ) (es : List Event)
    → Above b es
    → Above last (events_after session last 0 es)
unfolding events_after keep_if
events_after-newer session last b [] h = tt
events_after-newer session last b (e ∷ es) h =
    elim (Bool-cases (of_session session e && ltb last e.idx && (0 == 0 || leb e.idx 0))) [
      | inl t ↦
          rw t (ground (arith, t), events_after-Above session last e.idx e.idx es h.1 (omega arith))
      | inr t ↦ rw t (events_after-newer session last e.idx es h.1)
    ]

Above-snoc :
    (b : ℕ) (es : List Event) (e : Event)
    → Above b es
    → last_idx b es < e.idx
    → Above b (es ++ e ∷ [])
unfolding last_idx
Above-snoc b [] e h l = (l, tt)
Above-snoc b (x ∷ xs) e h l = (h.0, Above-snoc x.idx xs e h.1 l)

added :
    (session kind payload : Text) (rows : List Event)
    → Above 0 rows
    → Above 0 (append_event session kind payload rows).1
unfolding append_event
added session kind payload rows h = Above-snoc 0 rows _ h (omega arith)

-- Whatever the database answers and whether or not the outbox has room, emitting an event keeps the
-- rows of the table strictly increasing.
pub emit-Above :
    (answers room : Bool) (kind payload : Text) (s : Emitter)
    → Above 0 s.rows
    → Above 0 (emit answers room kind payload s).1.rows
unfolding emit assign_idx append_event next_idx
emit-Above true true kind payload s h =
    elim s.persistent
      as (λ b. Above 0 (emit true true kind payload (record s { persistent = b })).1.rows) [
        | true ↦ added s.id kind payload s.rows h
        | false ↦ h
      ]
emit-Above true false kind payload s h =
    elim s.persistent
      as (λ b. Above 0 (emit true false kind payload (record s { persistent = b })).1.rows) [
        | true ↦ added s.id kind payload s.rows h
        | false ↦ h
      ]
emit-Above false true kind payload s h =
    elim s.persistent
      as (λ b. Above 0 (emit false true kind payload (record s { persistent = b })).1.rows) [
        | true ↦ h
        | false ↦ h
      ]
emit-Above false false kind payload s h =
    elim s.persistent
      as (λ b. Above 0 (emit false false kind payload (record s { persistent = b })).1.rows) [
        | true ↦ h
        | false ↦ h
      ]
