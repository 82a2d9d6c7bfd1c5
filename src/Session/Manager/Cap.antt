-- ===== src/Session/Manager/Cap.antt =====
-- The cap on live sessions, with any number of calls in flight.
use workhorse_agent.Prelude.{
  ℕ, ◌≤◌, ◌<◌, ◌≡◌, ◌≢◌, Bool, true, false, List, [], ◌∷◌, Option, none, some, Text, text_eq,
  text_eq_iff, lookup, length, arith, length-insert-le, length-insert_present, length-delete-le,
  lookup-insert_ne, lookup-insert_self, lookup-delete_ne, if◌then◌else◌, ap, refl,
}
use workhorse_agent.Session.Rows.{
  Row, Store, Fetched, get_row, row, fetch_failed, row_not_found, database_failed,
}
use workhorse_agent.Session.Manager.{
  Session, Sessions, reserve, publish, abandon, get_or_hydrate, found, load, from_row, hydrated,
  unlist,
}

hydrated-length :
    (id : Text) (b : Option Session) (ss : Sessions) (max : ℕ)
    → length ss < max
    → length (hydrated id b ss).1 ≤ max
unfolding hydrated
hydrated-length id none ss max h = omega arith
hydrated-length id (some sess) ss max h = omega (arith, length-insert-le id (some sess) ss)

from_row-length :
    (build : Row → Option Session) (id : Text) (f : Fetched) (ss : Sessions) (max : ℕ)
    → length ss < max
    → length (from_row build id f ss).1 ≤ max
unfolding from_row
from_row-length build id (fetch_failed row_not_found) ss max h = omega arith
from_row-length build id (fetch_failed database_failed) ss max h = omega arith
from_row-length build id (row r) ss max h = ground (arith, hydrated-length id (build r) ss max h)

-- The calls that change the map, each critical section of CreateSession for itself. A session is
-- published or given up by the call that reserved its slot.
pub data Call : Type 0 where
  begins : Text → Call
  publishes : Session → Call
  abandons : Text → Call
  hydrates : (Row → Option Session) → Text → Option Store → Call
  deletes : ℕ → Text → Option Store → Call

pub record World : Type 0 where
  pub sessions : Sessions
  pub creating : Text → Bool

abbrev update : (Text → Bool) → Text → Bool → Text → Bool
update f k v j = if text_eq k j then v else f j

begun : World → Text → Option Sessions → World
begun w id none = w
begun w id (some ss) = record w { sessions = ss; creating = update w.creating id true }

begun_new : ℕ → World → Text → Option (Option Session) → World
unfolding begun
begun_new max w id none = begun w id (reserve max id w.sessions)
begun_new max w id (some slot) = w

-- A new id is fresh: a ULID that the map has is not drawn again.
unfoldable pub step : ℕ → World → Call → World
unfolding begun_new
step max w (begins id) = begun_new max w id (lookup id w.sessions)
step max w (publishes sess) =
    if w.creating sess.id
    then record { sessions = publish sess w.sessions; creating = update w.creating sess.id false }
    else w
step max w (abandons id) =
    if w.creating id
    then record { sessions = abandon id w.sessions; creating = update w.creating id false }
    else w
step max w (hydrates build id st) = record w {
  sessions = (get_or_hydrate build max id st w.sessions).1;
}
step max w (deletes now id st) = record w { sessions = (unlist now id w.sessions st).1 }

unfoldable pub run : ℕ → World → List Call → World
unfolding step
run max w [] = w
run max w (c ∷ cs) = run max (step max w c) cs

-- The slot of a session that is being created stays its own.
record Inv (max : ℕ) (w : World) : Type 0 where
  capped : length w.sessions ≤ max
  reserved : (id : Text) → w.creating id ≡ true → lookup id w.sessions ≡ some none

begun_new-Inv :
    (max : ℕ) (w : World) (id : Text) (slot : Option (Option Session))
    → 0 < max
    → lookup id w.sessions ≡ slot
    → Inv max w
    → Inv max (begun_new max w id slot)
unfolding begun_new reserve
begun_new-Inv max w id none p e v = record {
  capped = ground (arith, v.capped, length-insert-le id none w.sessions);
  reserved = λ j h. ground (
    arith,
    v.reserved j,
    text_eq_iff id j,
    lookup-insert_self {V = Option Session} id none w.sessions,
    lookup-insert_ne {V = Option Session} id j none w.sessions,
  );
}
begun_new-Inv max w id (some slot) p e v = v

publishes-Inv :
    (max : ℕ) (w : World) (sess : Session) → Inv max w → Inv max (step max w (publishes sess))
unfolding step publish
publishes-Inv max w sess v = record {
  capped = ground (
    arith,
    v.capped,
    v.reserved sess.id,
    length-insert_present sess.id (some sess) w.sessions {w = none},
  );
  reserved = λ j h. ground (
    arith,
    v.reserved j,
    text_eq_iff sess.id j,
    lookup-insert_ne sess.id j (some sess) w.sessions,
  );
}

abandons-Inv : (max : ℕ) (w : World) (id : Text) → Inv max w → Inv max (step max w (abandons id))
unfolding step abandon
abandons-Inv max w id v = record {
  capped = ground (arith, v.capped, length-delete-le id w.sessions);
  reserved =
      λ j h. ground (arith, v.reserved j, text_eq_iff id j, lookup-delete_ne id j w.sessions);
}

-- Hydration adds at most the session asked for, and that within the cap.
module _ (build : Row → Option Session) (id : Text) (ss : Sessions) (max : ℕ) (j : Text)
    (held : lookup j ss ≡ some none) where
  hydrated-keeps : (b : Option Session) → j ≢ id → lookup j (hydrated id b ss).1 ≡ some none
  unfolding hydrated
  hydrated-keeps none n = held
  hydrated-keeps (some sess) n = ground (arith, lookup-insert_ne id j (some sess) ss)

  from_row-keeps : (f : Fetched) → j ≢ id → lookup j (from_row build id f ss).1 ≡ some none
  unfolding from_row
  from_row-keeps (fetch_failed row_not_found) n = held
  from_row-keeps (fetch_failed database_failed) n = held
  from_row-keeps (row r) n = ground (arith, hydrated-keeps (build r) n)

  load-keeps : (st : Option Store) → j ≢ id → lookup j (load build max id st ss).1 ≡ some none
  unfolding load
  load-keeps none n = held
  load-keeps (some st) n = ground (arith, from_row-keeps (get_row id st) n)

  found-keeps :
      (st : Option Store) (slot : Option (Option Session))
      → lookup id ss ≡ slot
      → lookup j (found build max id st ss slot).1 ≡ some none
  unfolding found
  found-keeps st (some (some sess)) e = held
  found-keeps st (some none) e = held
  found-keeps st none e = load-keeps st (λ same. ground (arith, ap (λ k. lookup k ss) same))

found-length :
    (build : Row → Option Session) (max : ℕ) (id : Text) (st : Option Store) (ss : Sessions)
    (slot : Option (Option Session))
    → 0 < max
    → length ss ≤ max
    → length (found build max id st ss slot).1 ≤ max
unfolding found load
found-length build max id st ss (some (some sess)) p h = h
found-length build max id st ss (some none) p h = h
found-length build max id none ss none p h = h
found-length build max id (some st) ss none p h =
    ground (arith, from_row-length build id (get_row id st) ss max)

step-Inv : (max : ℕ) (w : World) (c : Call) → 0 < max → Inv max w → Inv max (step max w c)
unfolding step unlist get_or_hydrate
step-Inv max w (begins id) p v = begun_new-Inv max w id (lookup id w.sessions) p refl v
step-Inv max w (publishes sess) p v = publishes-Inv max w sess v
step-Inv max w (abandons id) p v = abandons-Inv max w id v
step-Inv max w (hydrates build id st) p v = record {
  capped = found-length build max id st w.sessions (lookup id w.sessions) p v.capped;
  reserved =
      λ j h. found-keeps build id w.sessions max j (v.reserved j h) st (lookup id w.sessions) refl;
}
step-Inv max w (deletes now id st) p v = record {
  capped = ground (arith, v.capped, length-delete-le id w.sessions);
  reserved = λ j h. ground (
    arith,
    v.reserved j h,
    text_eq_iff id j,
    lookup-delete_ne id j w.sessions,
    ap (λ k. lookup k w.sessions) {x = j} {y = id},
  );
}

run-Inv : (max : ℕ) (w : World) (cs : List Call) → 0 < max → Inv max w → Inv max (run max w cs)
unfolding run
run-Inv max w [] p v = v
run-Inv max w (c ∷ cs) p v = run-Inv max (step max w c) cs p (step-Inv max w c p v)

abbrev pub empty : World
empty = record { sessions = []; creating = λ id. false }

-- The cap holds at every moment: however the critical sections of concurrent CreateSession calls,
-- hydrations and deletions interleave, and however persistence fails, the map never holds more
-- than `max_concurrent` sessions, the slots reserved included.
pub run_capped : (max : ℕ) (cs : List Call) → 0 < max → length (run max empty cs).sessions ≤ max
run_capped max cs p =
    (run-Inv max empty cs p (record { capped = omega arith; reserved = λ id h. cc })).capped
