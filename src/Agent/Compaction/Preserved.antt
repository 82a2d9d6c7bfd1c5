-- ===== src/Agent/Compaction/Preserved.antt =====
-- What a compacted history keeps of the one it replaces, and what it breaks.
use workhorse_agent.Prelude.{
  ◌≡◌, ◌≢◌, refl, sym, ap, ◌∙◌, ℕ, zero, suc, ◌-◌, ◌≤◌, ◌<◌, true, false, List, [], ◌∷◌, ◌++◌, Text,
  text_eq_self, length, take, drop, leb, arith, inl, inr, Bool-cases, Option-cases, length-append,
  any,
}
use mathlib.Core.Path.{subst}
use mathlib.Core.List.{append_assoc, append-nil}
use workhorse_agent.Provider.Message.{
  ContentBlock, text, tool_use, tool_result, reasoning, Message, system,
}
use workhorse_agent.Provider.Pairing.{results, uses, has, Follows, Paired}
use workhorse_agent.Agent.Compaction.{
  Compactor, compacted, compact_with_keep, kept_count, new_history, preserved, preserved_message,
  errors_of, summarise,
}

pub take-drop {ℓ} : {A : Type ℓ} (n : ℕ) (xs : List A) → take n xs ++ drop n xs ≡ xs
take-drop zero xs = refl
take-drop (suc n) [] = refl
take-drop (suc n) (x ∷ xs) = ground (arith, take-drop n xs)

length-drop {ℓ} : {A : Type ℓ} (n : ℕ) (xs : List A) → length (drop n xs) ≡ length xs - n
length-drop zero xs = omega arith
length-drop (suc n) [] = omega arith
length-drop (suc n) (x ∷ xs) = omega (arith, length-drop n xs)

preserved-cons :
    (m : Message) (ms : List Message) → preserved (m ∷ ms) ≡ errors_of m.content ++ preserved ms
unfolding preserved
preserved-cons m ms = refl

errors_of_text : (summary : Text) → errors_of (text summary ∷ []) ≡ []
unfolding errors_of
errors_of_text summary = refl

preserved-append : (ms ns : List Message) → preserved (ms ++ ns) ≡ preserved ms ++ preserved ns
unfolding preserved
preserved-append [] ns = refl
preserved-append (m ∷ ms) ns =
    ap (λ t. errors_of m.content ++ t) (preserved-append ms ns)
    ∙ sym (append_assoc (errors_of m.content) (preserved ms) (preserved ns))

errors_of_append : (bs cs : List ContentBlock) → errors_of (bs ++ cs) ≡ errors_of bs ++ errors_of cs
unfolding errors_of
errors_of_append [] cs = refl
errors_of_append (text t ∷ bs) cs = errors_of_append bs cs
errors_of_append (tool_use id name input ∷ bs) cs = errors_of_append bs cs
errors_of_append (tool_result id output true ∷ bs) cs = ground (arith, errors_of_append bs cs)
errors_of_append (tool_result id output false ∷ bs) cs = errors_of_append bs cs
errors_of_append (reasoning r ∷ bs) cs = errors_of_append bs cs

errors_of_twice : (bs : List ContentBlock) → errors_of (errors_of bs) ≡ errors_of bs
unfolding errors_of
errors_of_twice [] = refl
errors_of_twice (text t ∷ bs) = errors_of_twice bs
errors_of_twice (tool_use id name input ∷ bs) = errors_of_twice bs
errors_of_twice (tool_result id output true ∷ bs) = ground (arith, errors_of_twice bs)
errors_of_twice (tool_result id output false ∷ bs) = errors_of_twice bs
errors_of_twice (reasoning r ∷ bs) = errors_of_twice bs

errors_of-preserved : (ms : List Message) → errors_of (preserved ms) ≡ preserved ms
unfolding preserved errors_of
errors_of-preserved [] = refl
errors_of-preserved (m ∷ ms) = ground (
  arith,
  errors_of_append (errors_of m.content) (preserved ms),
  errors_of_twice m.content,
  errors_of-preserved ms,
)

preserved-message : (bs : List ContentBlock) → preserved (preserved_message bs) ≡ errors_of bs
unfolding preserved errors_of
preserved-message [] = refl
preserved-message (b ∷ bs) = append-nil (errors_of (b ∷ bs))

-- How a compaction that goes through was made.
compacted_form :
    (c : Compactor) (history : List Message) (keep : ℕ) (ms : List Message)
    → compact_with_keep c history keep ≡ compacted ms
    → (leb (length history) (suc (kept_count keep)) ≡ false)
      × (summary : Text) × (ms
          ≡ new_history summary
              (take (length history - kept_count keep) history)
              (drop (length history - kept_count keep) history))
unfolding compact_with_keep
compacted_form c history keep ms h =
    let cut = length history - kept_count keep in
    elim (Bool-cases (leb (length history) (suc (kept_count keep)))) [
      | inl e ↦ ground (arith, h, e)
      | inr e ↦ elim (Option-cases (summarise c (take cut history))) [
        | inl n ↦ ground (arith, h, e, n)
        | inr (summary, q) ↦ (e, summary, ground (arith, h, e, q))
      ]
    ]

has-errors_of :
    (bs : List ContentBlock)
    → errors_of bs ≢ []
    → (j : Text) × (has (results (errors_of bs)) j ≡ true)
unfolding errors_of results has any
has-errors_of [] h = absurd (h refl)
has-errors_of (text t ∷ bs) h = has-errors_of bs h
has-errors_of (tool_use id name input ∷ bs) h = has-errors_of bs h
has-errors_of (tool_result id output true ∷ bs) h = (id, ground (arith, text_eq_self id))
has-errors_of (tool_result id output false ∷ bs) h = has-errors_of bs h
has-errors_of (reasoning r ∷ bs) h = has-errors_of bs h

unpaired_by :
    (summary : Text) (bs : List ContentBlock) (recent : List Message) (j : Text)
    → has (results bs) j ≡ true
    → Paired (
        record { role = system; content = text summary ∷ []; stop_reason = [] }
        ∷ (preserved_message bs ++ recent))
    → ⊥
unfolding Paired Follows has any results uses
unpaired_by summary [] recent j h g = ground (arith, h)
unpaired_by summary (b ∷ bs) recent j h g = ground (arith, h, g.1.0 j)

has-preserved :
    (ms : List Message) → preserved ms ≢ [] → (j : Text) × (has (results (preserved ms)) j ≡ true)
has-preserved ms h =
    subst (λ bs. (j : Text) × (has (results bs) j ≡ true)) (errors_of-preserved ms)
      (has-errors_of (preserved ms) (λ e. h (sym (errors_of-preserved ms) ∙ e)))

length-preserved_message-le : (bs : List ContentBlock) → length (preserved_message bs) ≤ 1
length-preserved_message-le [] = omega arith
length-preserved_message-le (b ∷ bs) = omega arith

preserved-new_history :
    (summary : Text) (old recent : List Message)
    → preserved (new_history summary old recent) ≡ preserved (old ++ recent)
unfolding new_history
preserved-new_history summary old recent = ground (
  arith,
  preserved-append old recent,
  errors_of-preserved old,
  preserved-message (preserved old),
  preserved-append (preserved_message (preserved old)) recent,
  preserved-cons (record { role = system; content = text summary ∷ []; stop_reason = [] })
      (preserved_message (preserved old) ++ recent),
  errors_of_text summary,
)

leb→gt : (a b : ℕ) → leb a b ≡ false → b < a
leb→gt a b h = ground arith

new_history_front :
    (summary : Text) (old recent : List Message)
    → (front : List Message) × (new_history summary old recent ≡ front ++ recent)
      × (length front ≤ 2)
unfolding new_history
new_history_front summary old recent = (
  record { role = system; content = text summary ∷ []; stop_reason = [] }
      ∷ preserved_message (preserved old),
  refl,
  omega (arith, length-preserved_message-le (preserved old)),
)

-- After a compaction the error results of the history are all there, in their order, the last
-- messages, as many as are to be kept, end the new history verbatim, after at most two others, and
-- the history is no longer than before.
pub compact_with_keep-kept :
    (c : Compactor) (history : List Message) (keep : ℕ) (ms : List Message)
    → compact_with_keep c history keep ≡ compacted ms
    → (preserved ms ≡ preserved history)
      × ((front : List Message) × (ms ≡ front ++ drop (length history - kept_count keep) history)
          × (length front ≤ 2))
      × (length ms ≤ length history)
compact_with_keep-kept c history keep ms h =
    let (long, summary, form) = compacted_form c history keep ms h in
    let cut = length history - kept_count keep in
    let (front, split, short) = new_history_front summary (take cut history) (drop cut history) in
    (
      ap preserved form
          ∙ preserved-new_history summary (take cut history) (drop cut history)
          ∙ ap preserved (take-drop cut history),
      (front, form ∙ split, short),
      omega (
        arith,
        leb→gt (length history) (suc (kept_count keep)) long,
        short,
        ap length (form ∙ split),
        length-append front (drop cut history),
        length-drop cut history,
      ),
    )

-- A compaction of messages among which there is an error result leaves a history that breaks the
-- pairing rule, since that result is kept without the tool_use it answers.
pub compact_with_keep-unpaired :
    (c : Compactor) (history : List Message) (keep : ℕ) (ms : List Message)
    → compact_with_keep c history keep ≡ compacted ms
    → preserved (take (length history - kept_count keep) history) ≢ []
    → ¬ Paired ms
unfolding new_history
compact_with_keep-unpaired c history keep ms h errors paired =
    let (short, summary, form) = compacted_form c history keep ms h in
    let (j, found) = has-preserved (take (length history - kept_count keep) history) errors in
    unpaired_by summary (preserved (take (length history - kept_count keep) history))
      (drop (length history - kept_count keep) history) j found (subst Paired form paired)
