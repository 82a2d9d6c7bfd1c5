-- ===== src/Session/Events.antt =====
-- A session's events: the events table of internal/store/sqlite/crud.go, Emit, EmitNow and assignIdx
-- of internal/session/session.go, and the replay and live phases of handleStreamGet in
-- internal/api/stream_get.go. The session is
-- persistent where it is streamed; rows stand in the order of their idx and none is deleted; the
-- queries of the stream and the writes to the client succeed.
pub mod Increasing
pub mod Replay
use workhorse_agent.Prelude.{
  ℕ, suc, Bool, true, false, not, ◌&&◌, ◌||◌, List, [], ◌∷◌, ◌++◌, Option, none, some, Text,
  text_eq, length, ltb, leb, ◌==◌, keep_if, if◌then◌else◌,
}

pub record Event : Type 0 where
  pub idx : ℕ
  pub session_id : Text
  pub kind : Text
  pub payload : Text

unfoldable pub of_session : Text → Event → Bool
of_session id e = text_eq e.session_id id

-- The last idx that the table's AUTOINCREMENT gave out.
unfoldable pub last_idx : ℕ → List Event → ℕ
last_idx b [] = b
last_idx b (e ∷ es) = last_idx e.idx es

unfoldable pub append_event : Text → Text → Text → List Event → ℕ × List Event
append_event session kind payload rows =
    let idx = suc (last_idx 0 rows) in
    (idx, rows ++ (record { idx = idx; session_id = session; kind = kind; payload = payload }) ∷ [])

-- A snapshot of 0 is none.
unfoldable pub events_after : Text → ℕ → ℕ → List Event → List Event
unfolding keep_if
events_after session last snapshot rows =
    keep_if (λ e. of_session session e && ltb last e.idx && (snapshot == 0 || leb e.idx snapshot))
      rows

unfoldable pub max_event_idx : Text → List Event → ℕ
max_event_idx session [] = 0
max_event_idx session (e ∷ es) =
    let rest = max_event_idx session es in
    if of_session session e && ltb rest e.idx then e.idx else rest

-- The session's side: the table, unless it is ephemeral, its own counter, and the outbox.
pub record Emitter : Type 0 where
  pub id : Text
  pub persistent : Bool
  pub counter : ℕ
  pub rows : List Event
  pub outbox : List Event

unfoldable pub next_idx : Emitter → ℕ × Emitter
next_idx s = (suc s.counter, record s { counter = suc s.counter })

-- `answers` is whether the payload is marshalled and the row written.
unfoldable pub assign_idx : Bool → Text → Text → Emitter → Option (ℕ × Emitter)
assign_idx answers kind payload s =
    let (idx, rows) = append_event s.id kind payload s.rows in
    if not s.persistent
    then some (next_idx s)
    else if not answers
    then none
    else some
        (idx, record s { rows = rows; counter = if ltb s.counter idx then idx else s.counter })

-- `room` is whether the outbox takes the event: for Emit, before its context ends; for EmitNow, at
-- once. The second component is the error of Emit, and the answer of EmitNow.
unfoldable pub emit : (answers room : Bool) → Text → Text → Emitter → Bool × Emitter
emit answers room kind payload s = elim (assign_idx answers kind payload s) [
  | none ↦ (false, s)
  | some (idx, s') ↦
      let e : Event = record { idx = idx; session_id = s.id; kind = kind; payload = payload } in
      if room then (true, record s' { outbox = s'.outbox ++ e ∷ [] }) else (false, s')
]

-- The live phase: an event that is not newer than the last one sent is skipped.
unfoldable pub live : ℕ → List Event → List Event
live sent [] = []
live sent (e ∷ es) =
    let skip = live sent es in let send = live e.idx es in if leb e.idx sent then skip else e ∷ send

unfoldable pub replay : ℕ → Text → List Event → List Event
replay last session rows =
    let snapshot = max_event_idx session rows in
    if ltb last snapshot then events_after session last snapshot rows else []

-- What one GET writes: `last` is the client's Last-Event-ID, `queue` what its live phase takes from
-- the outbox.
unfoldable pub stream_get : Option ℕ → Text → List Event → List Event → List Event
stream_get none session rows queue = live 0 queue
stream_get (some last) session rows queue =
    let replayed = replay last session rows in replayed ++ live (last_idx 0 replayed) queue
