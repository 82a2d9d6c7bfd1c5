-- ===== src/Session/Events/Replay.antt =====
-- What a client that comes back with a Last-Event-ID is sent.
use workhorse_agent.Prelude.{
  ◌≡◌, refl, sym, ap, ◌∙◌, ℕ, ◌≤◌, ◌<◌, Bool, true, false, ◌&&◌, ◌||◌, ◌==◌, List, [], ◌∷◌, ◌++◌,
  some, Text, any, any-append, any-keep_if, zero, suc, if◌then◌else◌, keep_if, leb, arith,
  Bool-cases, inl, inr,
}
use mathlib.Core.Path.{subst}
use workhorse_agent.Session.Events.{
  Event, of_session, last_idx, events_after, max_event_idx, live, stream_get,
}
use workhorse_agent.Session.Events.Increasing.{
  Above, last_idx-replayed, replay-kept, Above-append, Above-live, events_after-newer,
}

-- The events that are newer than all of `before` and than all that stand before them.
unfoldable pub unseen : List Event → List Event → List Event
unseen before [] = []
unseen before (e ∷ es) =
    let rest = unseen (before ++ e ∷ []) es in
    if any (λ b. leb e.idx b.idx) before then rest else e ∷ rest

-- A bound says the same as the events that it bounds.
abbrev Bounds : ℕ → List Event → Type 0
Bounds sent before = (n : ℕ) → any (λ b. leb n b.idx) before ≡ leb n sent

any-snoc :
    (f : Event → Bool) (xs : List Event) (e : Event) → any f (xs ++ e ∷ []) ≡ (any f xs || f e)
unfolding any
any-snoc f xs e = ground (arith, any-append f xs (e ∷ []))

live-unseen :
    (sent : ℕ) (before es : List Event) → Bounds sent before → live sent es ≡ unseen before es
unfolding live unseen
live-unseen sent before [] h = refl
live-unseen sent before (e ∷ es) h = elim (Bool-cases (leb e.idx sent)) [
  | inl old ↦
      let ih =
        live-unseen sent (before ++ e ∷ []) es
          (λ n. ground (arith, old, h n, any-snoc (λ b. leb n b.idx) before e)) in
      ground (arith, old, h e.idx, ih)
  | inr new ↦
      let ih =
        live-unseen e.idx (before ++ e ∷ []) es
          (λ n. ground (arith, new, h n, any-snoc (λ b. leb n b.idx) before e)) in
      ground (arith, new, h e.idx, ih)
]

some_row :
    (session : Text) (es : List Event)
    → 0 < max_event_idx session es
    → any (λ e. of_session session e && leb 0 e.idx) es ≡ true
unfolding max_event_idx any
some_row session [] h = ground (arith, h)
some_row session (e ∷ es) h = ground (arith, h, some_row session es)

max_event_idx-any :
    (session : Text) (n : ℕ) (es : List Event)
    → any (λ e. of_session session e && leb (suc n) e.idx) es
      ≡ leb (suc n) (max_event_idx session es)
unfolding max_event_idx any
max_event_idx-any session n [] = ground arith
max_event_idx-any session n (e ∷ es) = ground (arith, max_event_idx-any session n es)

max_event_idx-Bounds :
    (session : Text) (rows : List Event)
    → 0 < max_event_idx session rows
    → Bounds (max_event_idx session rows) (keep_if (of_session session) rows)
max_event_idx-Bounds session rows h zero =
    ground
      (arith, any-keep_if (λ b. leb 0 b.idx) (of_session session) rows, some_row session rows h)
max_event_idx-Bounds session rows h (suc n) =
    any-keep_if (λ b. leb (suc n) b.idx) (of_session session) rows
    ∙ max_event_idx-any session n rows

stream_get-replayed :
    (session : Text) (last : ℕ) (rows queue : List Event)
    → Above 0 rows
    → last < max_event_idx session rows
    → stream_get (some last) session rows queue
      ≡ events_after session last 0 rows ++ live (max_event_idx session rows) queue
unfolding stream_get
stream_get-replayed session last rows queue h l =
    ap (λ r. r ++ live (last_idx 0 r) queue) (replay-kept session last rows l)
    ∙ ap (λ n. events_after session last 0 rows ++ live n queue)
        (last_idx-replayed session last 0 0 rows h l)

-- Over a table of strictly increasing idx, and whatever the outbox hands over, in whatever order, a
-- client whose last event is older than the newest one of its session is sent strictly increasing
-- events newer than its last: none twice, none out of order. These are every newer event that the
-- table holds of the session, and then those events of the outbox, and no others, that are newer
-- than all of the session's rows and than all that the outbox handed over before them.
pub stream_get-exact :
    (session : Text) (last : ℕ) (rows queue : List Event)
    → Above 0 rows
    → last < max_event_idx session rows
    → Above last (stream_get (some last) session rows queue)
      × (stream_get (some last) session rows queue
          ≡ events_after session last 0 rows ++ unseen (keep_if (of_session session) rows) queue)
stream_get-exact session last rows queue h l =
    let e = stream_get-replayed session last rows queue h l in
    let kept = events_after session last 0 rows in
    (
      subst (Above last) (sym e) (
          Above-append last kept (live (max_event_idx session rows) queue)
            (events_after-newer session last 0 rows h)
            (subst (λ n. Above n (live (max_event_idx session rows) queue))
              (sym (last_idx-replayed session last 0 last rows h l))
              (Above-live (max_event_idx session rows) queue))),
      e
          ∙ ap (λ q. kept ++ q)
              (live-unseen (max_event_idx session rows) (keep_if (of_session session) rows) queue
                (max_event_idx-Bounds session rows (omega (arith, l)))),
    )

abbrev pub has_idx : ℕ → List Event → Bool
has_idx n es = any (λ e. e.idx == n) es

Above-lacks : (n b : ℕ) (es : List Event) → Above b es → n ≤ b → has_idx n es ≡ false
unfolding any
Above-lacks n b [] h l = refl
Above-lacks n b (e ∷ es) h l =
    ground (arith, h.0, l, Above-lacks n e.idx es h.1 (omega (arith, h.0, l)))

live-overtaken :
    (n sent : ℕ) (xs ys : List Event) (f : Event)
    → n < f.idx
    → has_idx n xs ≡ false
    → has_idx n (live sent (xs ++ f ∷ ys)) ≡ false
unfolding live any
live-overtaken n sent [] ys f l h = elim (Bool-cases (leb f.idx sent)) [
  | inl old ↦
      ground (
        arith,
        old,
        Above-lacks n sent (live sent ys) (Above-live sent ys) (ground (arith, old, l)),
      )
  | inr new ↦
      ground (
        arith,
        new,
        l,
        Above-lacks n f.idx (live f.idx ys) (Above-live f.idx ys) (omega (arith, l)),
      )
]
live-overtaken n sent (x ∷ xs) ys f l h =
    ground (arith, h, live-overtaken n sent xs ys f l, live-overtaken n x.idx xs ys f l)

-- An event that the replay does not send, and that reaches the outbox only after an event with a
-- greater idx, is not sent on that stream, whatever follows. The table has strictly increasing idx,
-- and the client's last event is older than the newest one of its session.
pub stream_get-overtaken :
    (session : Text) (last n : ℕ) (rows xs ys : List Event) (f : Event)
    → Above 0 rows
    → last < max_event_idx session rows
    → has_idx n (events_after session last 0 rows) ≡ false
    → n < f.idx
    → has_idx n xs ≡ false
    → has_idx n (stream_get (some last) session rows (xs ++ f ∷ ys)) ≡ false
stream_get-overtaken session last n rows xs ys f a l absent less first =
    let kept = events_after session last 0 rows in
    let sent = live (max_event_idx session rows) (xs ++ f ∷ ys) in
    ground (
      arith,
      absent,
      ap (has_idx n) (stream_get-replayed session last rows (xs ++ f ∷ ys) a l),
      any-append (λ e. e.idx == n) kept sent,
      live-overtaken n (max_event_idx session rows) xs ys f less first,
    )
