-- ===== src/Agent/Loop/Drafts.antt =====
-- What consuming a stream keeps: the blocks, the calls and the pending tool uses tell the same ids.
use workhorse_agent.Prelude.{
  ◌≡◌, refl, sym, ap, ◌∙◌, ◌||◌, List, [], ◌∷◌, ◌++◌, none, some, Text, text_eq, any, any-append,
  arith,
}
use mathlib.Core.Path.{subst}
use mathlib.Core.List.{map-append, append-nil}
use workhorse_agent.Provider.Message.{
  ContentBlock, tool_use, reasoning, Message, ProviderEvent, text_delta, tool_use_event, usage,
  stop, error, reasoning_start, reasoning_delta, reasoning_end,
}
use workhorse_agent.Provider.Pairing.{
  uses, results, has, SameIds, Follows, Paired, Follows-snoc, Follows-left, uses-append,
  results-append,
}
use workhorse_agent.Session.History.{Session, append_message, mark_tool_use_pending}
use workhorse_agent.Session.History.Pending.{
  ids, KeyedById, insert-KeyedById, has-insert, ids-empty,
}
use workhorse_agent.Agent.Loop.Stream.{
  Draft, consume, consume_all, close_stream, append_assistant, empty_draft,
}
use workhorse_agent.Agent.Loop.Owed.{Owes, Rests, call_ids, uses-append_text, results-append_text}

pub record Agrees (history : List Message) (d : Draft) : Type 0 where
  pub keyed : KeyedById d.session.pending
  pub pending_ids : SameIds (ids d.session.pending) (call_ids d.tool_calls)
  pub block_ids : uses d.blocks ≡ call_ids d.tool_calls
  pub no_results : results d.blocks ≡ []
  pub same_history : d.session.history ≡ history

pub empty_draft-Agrees : (s : Session) → s.pending ≡ [] → Agrees s.history (empty_draft s)
unfolding uses results ids has any
empty_draft-Agrees s e = record {
  keyed = subst KeyedById (sym e) tt;
  pending_ids = λ j. ap (λ m. has (ids m) j) e;
  block_ids = refl;
  no_results = refl;
  same_history = refl;
}

pub has-snoc : (xs : List Text) (x j : Text) → has (xs ++ x ∷ []) j ≡ (text_eq j x || has xs j)
unfolding has any
has-snoc xs x j = ground (arith, any-append (text_eq j) xs (x ∷ []))

abbrev opens : Text → Text → Text → Draft → Draft
opens id name input d = consume d (tool_use_event (some (id, name, input)))

opens-Agrees :
    (h : List Message) (d : Draft) (id name input : Text)
    → Agrees h d
    → Agrees h (opens id name input d)
unfolding consume mark_tool_use_pending uses results
opens-Agrees h d id name input a = record {
  keyed =
      insert-KeyedById (record { id = id; name = name; input = input }) d.session.pending a.keyed;
  pending_ids = λ j.
      has-insert (record { id = id; name = name; input = input }) d.session.pending a.keyed j
      ∙ ap (λ b. text_eq j id || b) (a.pending_ids j)
      ∙ sym (has-snoc (call_ids d.tool_calls) id j)
      ∙ ap (λ xs. has xs j)
          (sym (
            map-append (λ c. c.id) d.tool_calls
              ((record { id = id; name = name; input = input }) ∷ [])));
  block_ids =
      uses-append d.blocks (tool_use id name input ∷ [])
      ∙ ap (λ xs. xs ++ id ∷ []) a.block_ids
      ∙ sym (
          map-append (λ c. c.id) d.tool_calls
            ((record { id = id; name = name; input = input }) ∷ []));
  no_results =
      results-append d.blocks (tool_use id name input ∷ [])
      ∙ append-nil (results d.blocks)
      ∙ a.no_results;
  same_history = a.same_history;
}

-- An event that adds blocks without ids.
reblocked :
    (h : List Message) (d e : Draft)
    → e.session ≡ d.session
    → e.tool_calls ≡ d.tool_calls
    → uses e.blocks ≡ uses d.blocks
    → results e.blocks ≡ results d.blocks
    → Agrees h d
    → Agrees h e
reblocked h d e s c u r a = record {
  keyed = subst (λ s. KeyedById s.pending) (sym s) a.keyed;
  pending_ids = λ j.
      ap (λ s. has (ids s.pending) j) s ∙ a.pending_ids j ∙ ap (λ c. has (call_ids c) j) (sym c);
  block_ids = u ∙ a.block_ids ∙ ap call_ids (sym c);
  no_results = r ∙ a.no_results;
  same_history = ap (λ s. s.history) s ∙ a.same_history;
}

consume-Agrees :
    (h : List Message) (d : Draft) (ev : ProviderEvent) → Agrees h d → Agrees h (consume d ev)
unfolding consume uses results
consume-Agrees h d (text_delta t) a =
    reblocked h d (consume d (text_delta t)) refl refl (uses-append_text t d.blocks)
      (results-append_text t d.blocks) a
consume-Agrees h d (tool_use_event none) a = a
consume-Agrees h d (tool_use_event (some (id, name, input))) a = opens-Agrees h d id name input a
consume-Agrees h d (usage i o) a = a
consume-Agrees h d (stop r) a = reblocked h d (consume d (stop r)) refl refl refl refl a
consume-Agrees h d (error none) a = a
consume-Agrees h d (error (some e)) a =
    reblocked h d (consume d (error (some e))) refl refl refl refl a
consume-Agrees h d (reasoning_start i k) a = a
consume-Agrees h d (reasoning_delta i t) a = a
consume-Agrees h d (reasoning_end i none) a = a
consume-Agrees h d (reasoning_end i (some r)) a =
    reblocked h d (consume d (reasoning_end i (some r))) refl refl
      (uses-append d.blocks (reasoning r ∷ []) ∙ append-nil (uses d.blocks))
      (results-append d.blocks (reasoning r ∷ []) ∙ append-nil (results d.blocks)) a

pub consume_all-Agrees :
    (h : List Message) (d : Draft) (evs : List ProviderEvent)
    → Agrees h d
    → Agrees h (consume_all d evs)
unfolding consume_all
consume_all-Agrees h d [] a = a
consume_all-Agrees h d (ev ∷ evs) a =
    consume_all-Agrees h (consume d ev) evs (consume-Agrees h d ev a)

closed_from :
    (h : List Message) (d : Draft) (stop_reason : Text) (bs : List ContentBlock)
    → d.blocks ≡ bs
    → Paired h
    → Agrees h d
    → Follows [] (append_assistant bs stop_reason d.session).history (uses bs)
unfolding append_message Paired uses
closed_from h d r [] e p a = subst (λ h. Follows [] h []) (sym a.same_history) p
closed_from h d r (b ∷ bs) e p a =
    Follows-snoc [] d.session.history [] _ (subst (λ h. Follows [] h []) (sym a.same_history) p)
      (λ j. ap (λ xs. has xs j) (sym (ap results (sym e) ∙ a.no_results)))

append_assistant-pending :
    (bs : List ContentBlock) (r : Text) (s : Session)
    → (append_assistant bs r s).pending ≡ s.pending
unfolding append_message
append_assistant-pending [] r s = refl
append_assistant-pending (b ∷ bs) r s = refl

-- A stream that ends well leaves the session owing what it asked for.
pub close_stream-Owes :
    (h : List Message) (d : Draft)
    → Paired h
    → Agrees h d
    → Owes (close_stream d).session
      × SameIds (ids (close_stream d).session.pending) (call_ids d.tool_calls)
unfolding close_stream
close_stream-Owes h d p a =
    let same = append_assistant-pending d.blocks d.stop_reason d.session in
    (
      (
        subst KeyedById (sym same) a.keyed,
        Follows-left [] (append_assistant d.blocks d.stop_reason d.session).history (uses d.blocks)
            (ids (append_assistant d.blocks d.stop_reason d.session).pending)
            (closed_from h d d.stop_reason d.blocks refl p a)
            (λ j.
              ap (λ xs. has xs j) a.block_ids
              ∙ sym (a.pending_ids j)
              ∙ ap (λ m. has (ids m) j) (sym same)),
      ),
      λ j. ap (λ m. has (ids m) j) same ∙ a.pending_ids j,
    )

-- A draft without calls has changed nothing of the session that the next turn sees.
pub Agrees-Rests :
    (h : List Message) (d : Draft) → Paired h → Agrees h d → d.tool_calls ≡ [] → Rests d.session
unfolding has any
Agrees-Rests h d p a e = (
  ids-empty d.session.pending (λ j. a.pending_ids j ∙ ap (λ c. has (call_ids c) j) e),
  subst Paired (sym a.same_history) p,
)
