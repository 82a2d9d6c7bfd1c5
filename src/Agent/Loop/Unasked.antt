-- ===== src/Agent/Loop/Unasked.antt =====
-- Tool results that no message asked for, and the tool uses a stream leaves pending.
use workhorse_agent.Prelude.{
  ◌≡◌, ◌≢◌, refl, sym, ap, ◌∙◌, true, ◌||◌, List, [], ◌∷◌, ◌++◌, none, some, Text, text_eq,
  text_eq_self, map, any, arith,
}
use mathlib.Core.List.{map-append}
use workhorse_agent.Provider.Message.{
  Message, ProviderEvent, text_delta, tool_use_event, usage, stop, error, reasoning_start,
  reasoning_delta, reasoning_end, user,
}
use workhorse_agent.Provider.Pairing.{uses, results, has, SameIds, Follows, Paired}
use workhorse_agent.Session.State.{}
use workhorse_agent.Session.History.{
  Session, PendingToolUse, entries, append_message, drain_pending_tool_uses,
}
use workhorse_agent.Session.History.Pending.{ids}
use workhorse_agent.Agent.Loop.{}
use workhorse_agent.Agent.Loop.Stream.{Draft, empty_draft, consume, consume_all}
use workhorse_agent.Agent.Loop.Passes.{}
use workhorse_agent.Agent.Loop.Turn.{drain_into_history, answer_pending, cancelled_block}
use workhorse_agent.Agent.Loop.Owed.{Rests, call_ids, results-cancelled}
use workhorse_agent.Agent.Loop.Drafts.{has-snoc, empty_draft-Agrees, consume_all-Agrees}
use workhorse_agent.Agent.Loop.Orderly.{has_tool_use}

Follows-split :
    (owed : List Text) (ms : List Message) (m : Message) (left : List Text)
    → Follows owed (ms ++ m ∷ []) left
    → Follows owed ms (results m.content)
unfolding Follows
Follows-split owed [] m left h = h.0
Follows-split owed (x ∷ xs) m left h = (h.0, Follows-split (uses x.content) xs m left h.1)

Follows-same :
    (owed : List Text) (ms : List Message) (left right : List Text)
    → Follows owed ms left
    → Follows owed ms right
    → SameIds left right
unfolding Follows
Follows-same owed [] left right h g = λ j. sym (h j) ∙ g j
Follows-same owed (x ∷ xs) left right h g = Follows-same (uses x.content) xs left right h.1 g.1

-- Results that nothing asked for.
unasked :
    (ms : List Message) (m : Message) (j : Text)
    → Paired ms
    → has (results m.content) j ≡ true
    → ¬ Paired (ms ++ m ∷ [])
unfolding Paired has any
unasked ms m j p h q =
    ground (arith, h, Follows-same [] ms [] (results m.content) p (Follows-split [] ms m [] q) j)

answer-unpaired :
    (s : Session) (ps : List PendingToolUse)
    → Paired s.history
    → ps ≢ []
    → ¬ Paired (answer_pending ps s).history
unfolding append_message has any
answer-unpaired s [] p h = absurd (h refl)
answer-unpaired s (q ∷ qs) p h =
    unasked s.history
      (record { role = user; content = map cancelled_block (q ∷ qs); stop_reason = [] }) q.id p
      (ap (λ xs. has xs q.id) (results-cancelled (q ∷ qs)) ∙ ground (arith, text_eq_self q.id))

pub drain-unpaired :
    (s : Session) (j : Text)
    → Paired s.history
    → has (ids s.pending) j ≡ true
    → ¬ Paired (drain_into_history s).history
unfolding drain_into_history drain_pending_tool_uses ids has any
drain-unpaired s j p h =
    answer-unpaired (record s { pending = [] }) (entries s.pending) p
      (λ e. ground (arith, h, ap (λ ps. any (text_eq j) (map (λ q. q.id) ps)) e))

opened-has :
    (d : Draft) (id name input j : Text)
    → has (call_ids (consume d (tool_use_event (some (id, name, input)))).tool_calls) j
      ≡ (text_eq j id || has (call_ids d.tool_calls) j)
unfolding consume
opened-has d id name input j =
    ap (λ xs. has xs j)
      (map-append (λ c. c.id) d.tool_calls ((record { id = id; name = name; input = input }) ∷ []))
    ∙ has-snoc (call_ids d.tool_calls) id j

consume-has :
    (d : Draft) (ev : ProviderEvent) (j : Text)
    → has (call_ids d.tool_calls) j ≡ true
    → has (call_ids (consume d ev).tool_calls) j ≡ true
unfolding consume
consume-has d (text_delta t) j h = h
consume-has d (tool_use_event none) j h = h
consume-has d (tool_use_event (some (id, name, input))) j h =
    ground (arith, h, opened-has d id name input j)
consume-has d (usage i o) j h = h
consume-has d (stop r) j h = h
consume-has d (error none) j h = h
consume-has d (error (some e)) j h = h
consume-has d (reasoning_start i k) j h = h
consume-has d (reasoning_delta i t) j h = h
consume-has d (reasoning_end i none) j h = h
consume-has d (reasoning_end i (some b)) j h = h

consume_all-has :
    (d : Draft) (evs : List ProviderEvent) (j : Text)
    → has (call_ids d.tool_calls) j ≡ true
    → has (call_ids (consume_all d evs).tool_calls) j ≡ true
unfolding consume_all
consume_all-has d [] j h = h
consume_all-has d (ev ∷ evs) j h = consume_all-has (consume d ev) evs j (consume-has d ev j h)

abbrev opens : Text → Text → Text → Draft → Draft
opens id name input d = consume d (tool_use_event (some (id, name, input)))

pub consume_all-asks :
    (d : Draft) (evs : List ProviderEvent)
    → has_tool_use evs ≡ true
    → (j : Text) × (has (call_ids (consume_all d evs).tool_calls) j ≡ true)
unfolding consume_all has_tool_use any
consume_all-asks d [] h = ground (arith, h)
consume_all-asks d (tool_use_event (some (id, name, input)) ∷ evs) h = (
  id,
  consume_all-has (opens id name input d) evs id
      (ground (arith, opened-has d id name input id, text_eq_self id)),
)
consume_all-asks d (tool_use_event none ∷ evs) h =
    consume_all-asks (consume d (tool_use_event none)) evs h
consume_all-asks d (text_delta t ∷ evs) h = consume_all-asks (consume d (text_delta t)) evs h
consume_all-asks d (usage i o ∷ evs) h = consume_all-asks (consume d (usage i o)) evs h
consume_all-asks d (stop r ∷ evs) h = consume_all-asks (consume d (stop r)) evs h
consume_all-asks d (error none ∷ evs) h = consume_all-asks (consume d (error none)) evs h
consume_all-asks d (error (some e) ∷ evs) h = consume_all-asks (consume d (error (some e))) evs h
consume_all-asks d (reasoning_start i k ∷ evs) h =
    consume_all-asks (consume d (reasoning_start i k)) evs h
consume_all-asks d (reasoning_delta i t ∷ evs) h =
    consume_all-asks (consume d (reasoning_delta i t)) evs h
consume_all-asks d (reasoning_end i b ∷ evs) h =
    consume_all-asks (consume d (reasoning_end i b)) evs h

-- What a stream with a tool_use leaves pending, whatever else it holds.
pub asked :
    (s : Session) (evs : List ProviderEvent)
    → Rests s
    → has_tool_use evs ≡ true
    → ((consume_all (empty_draft s) evs).session.history ≡ s.history)
      × (j : Text) × (has (ids (consume_all (empty_draft s) evs).session.pending) j ≡ true)
asked s evs r asks =
    let a = consume_all-Agrees s.history (empty_draft s) evs (empty_draft-Agrees s r.0) in
    let (j, found) = consume_all-asks (empty_draft s) evs asks in
    (a.same_history, j, a.pending_ids j ∙ found)
