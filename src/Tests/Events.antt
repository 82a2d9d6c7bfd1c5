-- ===== src/Tests/Events.antt =====
-- A table of two sessions' events, and a client that comes back.
use workhorse_agent.Prelude.{
  ◌≡◌, refl, ℕ, false, any, List, [], ◌∷◌, ◌++◌, some, keep_if, text_eq, arith,
}
use workhorse_agent.Session.Events.{
  Event, of_session, events_after, max_event_idx, last_idx, replay, live, stream_get,
}
use workhorse_agent.Session.Events.Increasing.{Above}
use workhorse_agent.Session.Events.Replay.{unseen, has_idx, stream_get-exact, stream_get-overtaken}

abbrev event : ℕ → ℕ → Event
event n session = record { idx = n; session_id = session ∷ []; kind = []; payload = [] }

abbrev rows : List Event
rows = event 1 7 ∷ event 2 8 ∷ event 3 7 ∷ []

-- The outbox holds an event of the replay; the sixth event reached it before the fifth.
abbrev queue : List Event
queue = event 3 7 ∷ event 6 7 ∷ event 5 7 ∷ event 8 7 ∷ []

stream_get-exact_example :
    Above 1 (stream_get (some 1) (7 ∷ []) rows queue)
    × (stream_get (some 1) (7 ∷ []) rows queue
        ≡ events_after (7 ∷ []) 1 0 rows ++ unseen (keep_if (of_session (7 ∷ [])) rows) queue)
unfolding max_event_idx of_session text_eq
stream_get-exact_example =
    stream_get-exact (7 ∷ []) 1 rows queue (omega arith, (omega arith, (omega arith, tt)))
      (omega arith)

sent_to_client : stream_get (some 1) (7 ∷ []) rows queue ≡ event 3 7 ∷ event 6 7 ∷ event 8 7 ∷ []
unfolding stream_get replay live last_idx events_after max_event_idx of_session text_eq keep_if
sent_to_client = refl

stream_get-overtaken_example :
    has_idx 5 (stream_get (some 1) (7 ∷ []) rows ((event 3 7 ∷ []) ++ event 6 7 ∷ event 5 7 ∷ []))
    ≡ false
unfolding max_event_idx of_session text_eq events_after keep_if any
stream_get-overtaken_example =
    stream_get-overtaken (7 ∷ []) 1 5 rows (event 3 7 ∷ []) (event 5 7 ∷ []) (event 6 7)
      (omega arith, (omega arith, (omega arith, tt))) (omega arith) refl (omega arith) refl
