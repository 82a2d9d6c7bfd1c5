-- ===== src/Session/Manager/Lifecycle.antt =====
-- A session is found once it is created, and not any more once it is deleted.
use workhorse_agent.Prelude.{ℕ, ◌≡◌, Option, none, some, insert, lookup-insert_self, arith}
use workhorse_agent.Session.Rows.{Store}
use workhorse_agent.Session.Manager.{
  Session, Sessions, ok, reserve, publish, persisted, create_session, get_session,
}

get_session-publish :
    (sess : Session) (ss : Sessions) → get_session sess.id (publish sess ss) ≡ ok sess
unfolding get_session publish
get_session-publish sess ss = ground (arith, lookup-insert_self sess.id (some sess) ss)

persisted-published :
    (st : Option Store) (sess s : Session) (ss : Sessions)
    → (persisted st sess ss).0 ≡ ok s
    → get_session sess.id (persisted st sess ss).1 ≡ ok s
unfolding persisted
persisted-published none sess s ss h = ground (arith, get_session-publish sess ss)
persisted-published (some st) sess s ss h = ground (arith, get_session-publish sess ss)

-- A session that CreateSession returns is the one that GetSession finds from then on.
pub create_session-get_session :
    (max : ℕ) (sess s : Session) (ss : Sessions) (st : Option Store)
    → (create_session max (some sess) ss st).0 ≡ ok s
    → get_session sess.id (create_session max (some sess) ss st).1 ≡ ok s
unfolding create_session reserve
create_session-get_session max sess s ss st h =
    ground (arith, persisted-published st sess s (insert sess.id none ss))
