-- ===== src/Schedule/Worker/Counts.antt =====
-- Counting a schedule's firings and the rows that can still fire.
use workhorse_agent.Prelude.{
  ℕ, ◌+◌, ◌≤◌, ◌≡◌, refl, Bool, true, false, ◌&&◌, not, List, [], ◌∷◌, ◌++◌, Text, text_eq, is_some,
  length, keep_if, any, arith, if◌then◌else◌,
}
use workhorse_agent.Schedule.Cron.{LocalTime}
use workhorse_agent.Schedule.Rows.{Schedule, has_id, touched, touch_rows}
use workhorse_agent.Schedule.Worker.{should_fire}

-- The firings of one schedule.
unfoldable pub firings : Text → List (Text × ℕ) → ℕ
unfolding keep_if
firings id fired = length (keep_if (λ e. text_eq e.0 id) fired)

-- Its rows that are enabled, and whether one of them is recurring.
unfoldable pub armed : Text → List Schedule → ℕ
unfolding keep_if has_id
armed id rows = length (keep_if (λ r. has_id id r && r.enabled) rows)

unfoldable pub recurs : Text → List Schedule → Bool
unfolding any has_id
recurs id = any (λ r. has_id id r && not (is_some r.run_at))

pub firings-append :
    (id other : Text) (now : ℕ) (fired : List (Text × ℕ))
    → firings id (fired ++ (other, now) ∷ [])
      ≡ firings id fired + (if text_eq other id then 1 else 0)
unfolding firings keep_if
firings-append id other now [] = ground arith
firings-append id other now (e ∷ es) = ground (arith, firings-append id other now es)

pub recurs-touch_rows :
    (id other : Text) (at : ℕ) (rows : List Schedule)
    → recurs id (touch_rows other at rows) ≡ recurs id rows
unfolding recurs any touch_rows touched has_id
recurs-touch_rows id other at [] = refl
recurs-touch_rows id other at (r ∷ rs) = ground (arith, recurs-touch_rows id other at rs)

pub armed-touch_rows-le :
    (id other : Text) (at : ℕ) (rows : List Schedule)
    → armed id (touch_rows other at rows) ≤ armed id rows
unfolding armed keep_if touch_rows touched has_id
armed-touch_rows-le id other at [] = omega arith
armed-touch_rows-le id other at (r ∷ rs) = ground (arith, armed-touch_rows-le id other at rs)

pub armed-touch_rows :
    (id : Text) (at : ℕ) (rows : List Schedule)
    → recurs id rows ≡ false
    → armed id (touch_rows id at rows) ≡ 0
unfolding armed recurs any keep_if touch_rows touched has_id
armed-touch_rows id at [] h = refl
armed-touch_rows id at (r ∷ rs) h = ground (arith, h, armed-touch_rows id at rs)

pub should_fire-enabled :
    (local : ℕ → LocalTime) (s : Schedule) (now : ℕ)
    → should_fire local s now ≡ true
    → s.enabled ≡ true
unfolding should_fire
should_fire-enabled local s now h = ground arith

pub armed_head :
    (id : Text) (s : Schedule) (rest : List Schedule)
    → armed id (s ∷ rest) ≡ (if text_eq s.id id && s.enabled then 1 else 0) + armed id rest
unfolding armed keep_if has_id
armed_head id s rest = ground arith

pub recurs-snoc :
    (id : Text) (s : Schedule) (rows : List Schedule)
    → text_eq s.id id ≡ false
    → recurs id (rows ++ s ∷ []) ≡ recurs id rows
unfolding recurs any has_id
recurs-snoc id s [] h = ground arith
recurs-snoc id s (r ∷ rs) h = ground (arith, recurs-snoc id s rs h)

pub armed-snoc :
    (id : Text) (s : Schedule) (rows : List Schedule)
    → text_eq s.id id ≡ false
    → armed id (rows ++ s ∷ []) ≡ armed id rows
unfolding armed keep_if has_id
armed-snoc id s [] h = ground arith
armed-snoc id s (r ∷ rs) h = ground (arith, armed-snoc id s rs h)

pub recurs-keep_if :
    (id : Text) (p : Schedule → Bool) (rows : List Schedule)
    → recurs id rows ≡ false
    → recurs id (keep_if p rows) ≡ false
unfolding recurs any keep_if has_id
recurs-keep_if id p [] h = refl
recurs-keep_if id p (r ∷ rs) h = ground (arith, h, recurs-keep_if id p rs)

pub armed-keep_if-le :
    (id : Text) (p : Schedule → Bool) (rows : List Schedule)
    → armed id (keep_if p rows) ≤ armed id rows
unfolding armed keep_if has_id
armed-keep_if-le id p [] = omega arith
armed-keep_if-le id p (r ∷ rs) = ground (arith, armed-keep_if-le id p rs)
