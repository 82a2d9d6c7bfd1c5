-- ===== src/Delegation/Manager.antt =====
-- internal/delegation/manager.go and id.go: Start, ConsumePending and the records that a task's end
-- makes. A session is its metadata; `reads` and `writes` are whether the database answers. The
-- goroutine of the child session is what it reports.
pub mod Cap
pub mod Overlap
pub mod Told
pub mod Claims
use workhorse_agent.Prelude.{
  ℕ, zero, suc, ◌*◌, Bool, true, false, not, ◌&&◌, List, [], ◌∷◌, ◌++◌, Option, none, some, Text,
  codes, is_empty, length, map, get_elem?, ltb, leb, any, is_some, if◌then◌else◌, Dict, lookup,
  ◌>>=◌,
}
use workhorse_agent.Delegation.Rows.{
  Delegation, running, has_id, create_delegation, count_running, claim_pending_notifications,
}
use workhorse_agent.Delegation.Notice.{render_notice}

abbrev pub max_concurrent : ℕ
max_concurrent = 4

abbrev adjectives : List Text
adjectives =
    codes "brisk"
    ∷ codes "calm"
    ∷ codes "swift"
    ∷ codes "steady"
    ∷ codes "bright"
    ∷ codes "crisp"
    ∷ codes "eager"
    ∷ codes "gentle"
    ∷ codes "lively"
    ∷ codes "quiet"
    ∷ []

abbrev colors : List Text
colors =
    codes "amber"
    ∷ codes "teal"
    ∷ codes "cobalt"
    ∷ codes "coral"
    ∷ codes "indigo"
    ∷ codes "jade"
    ∷ codes "lavender"
    ∷ codes "ruby"
    ∷ codes "slate"
    ∷ codes "ochre"
    ∷ []

abbrev animals : List Text
animals =
    codes "fox"
    ∷ codes "owl"
    ∷ codes "hawk"
    ∷ codes "otter"
    ∷ codes "lynx"
    ∷ codes "heron"
    ∷ codes "fawn"
    ∷ codes "wolf"
    ∷ codes "stork"
    ∷ codes "crane"
    ∷ []

-- `draw` is rand.Int below the length, none where the random source fails.
unfoldable pub pick : List Text → Option ℕ → Option Text
pick words draw = draw >>= get_elem? words

unfoldable pub generate : Option ℕ × Option ℕ × Option ℕ → Option Text
generate (a, c, n) = pick adjectives a >>= (λ adj. pick colors c >>= (λ color.
    pick animals n >>= (λ animal. some (adj ++ codes "-" ++ color ++ codes "-" ++ animal))))

pub data Unique : Type 0 where
  unique : Text → Unique
  no_random id_exhausted : Unique

-- At most `attempts` draws, the i-th from `draws i`.
unfoldable pub generate_unique :
    (Text → Bool) → (ℕ → Option ℕ × Option ℕ × Option ℕ) → (i attempts : ℕ) → Unique
generate_unique exists draws i zero = id_exhausted
generate_unique exists draws i (suc k) =
    let rest = generate_unique exists draws (suc i) k in
    elim (generate (draws i)) [ none ↦ no_random | some id ↦ if exists id then rest else unique id ]

pub record Request : Type 0 where
  pub parent_session_id : Text
  pub workdir : Text
  pub description : Text
  pub prompt : Text

pub data StartError : Type 0 where
  description_required description_long prompt_required prompt_long parent_not_found nested
        count_failed too_many no_random_id ids_exhausted create_failed :
      StartError

-- What Start asks of other parts: packages strings and utf8, the session manager, the database, the
-- clock and the random source.
pub record World : Type 0 where
  pub trim : Text → Text
  pub rune_count : Text → ℕ
  pub sessions : Dict (Dict Text)
  pub reads : Bool
  pub writes : Bool
  pub now : ℕ
  pub draws : ℕ → Option ℕ × Option ℕ × Option ℕ

unfoldable pub validate_request : World → Request → Option StartError
validate_request e r =
    if is_empty (e.trim r.description)
    then some description_required
    else if ltb 200 (e.rune_count r.description)
    then some description_long
    else if is_empty (e.trim r.prompt)
    then some prompt_required
    else if ltb (32 * 1024) (length r.prompt)
    then some prompt_long
    else none

unfoldable pub child_meta_key : Text
unfolding codes
child_meta_key = codes "delegation_child"

-- The checks of Start up to the cap: none where it goes on.
unfoldable pub refusal : World → Request → List Delegation → Option StartError
unfolding child_meta_key
refusal e r rows = elim (validate_request e r) [
  | some err ↦ some err
  | none ↦ elim (lookup r.parent_session_id e.sessions) [
    | none ↦ some parent_not_found
    | some metadata ↦
        if is_some (lookup child_meta_key metadata)
        then some nested
        else if not e.reads
        then some count_failed
        else if leb max_concurrent (count_running rows)
        then some too_many
        else none
  ]
]

abbrev pub new_delegation : World → Request → Text → Delegation
new_delegation e r id = record {
  id = id;
  session_id = r.parent_session_id;
  description = r.description;
  prompt = r.prompt;
  workdir = r.workdir;
  status = running;
  title = [];
  summary = [];
  result = [];
  error = [];
  started_at = e.now;
  completed_at = none;
  notified_at = none;
}

pub data Started : Type 0 where
  started : (id : Text) → List Delegation → Started
  refused : StartError → Started

-- The write, with the id generated.
unfoldable pub create : World → Request → List Delegation → Text → Started
create e r rows id =
    if not e.writes
    then refused create_failed
    else elim (create_delegation (new_delegation e r id) rows) [
      | none ↦ refused create_failed
      | some rows' ↦ started id rows'
    ]

-- The rest of Start: an id that no row has, and the write. A lookup that fails counts as unused.
unfoldable pub admit : World → Request → List Delegation → Started
admit e r rows = elim (generate_unique (λ id. e.reads && any (has_id id) rows) e.draws 0 20) [
  | no_random ↦ refused no_random_id
  | id_exhausted ↦ refused ids_exhausted
  | unique id ↦ create e r rows id
]

unfoldable pub start : World → Request → List Delegation → Started
start e r rows = elim (refusal e r rows) [ some err ↦ refused err | none ↦ admit e r rows ]

-- `answers` is whether the transaction commits; it leaves the table alone where it does not.
unfoldable pub consume_pending : Bool → Text → ℕ → List Delegation → List Text × List Delegation
consume_pending answers session now rows =
    let (pending, rows') = claim_pending_notifications session now rows in
    if answers then (map render_notice pending, rows') else ([], rows)
