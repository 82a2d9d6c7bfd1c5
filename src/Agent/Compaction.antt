-- ===== src/Agent/Compaction.antt =====
-- internal/agent/compaction.go. The fast provider is the stream that it answers the messages to
-- summarise with, `none` where the request fails; strings.TrimSpace is a field too.
pub mod Preserved
use workhorse_agent.Prelude.{
  ℕ, zero, suc, ◌+◌, ◌-◌, ◌/◌, Bool, true, false, List, [], ◌∷◌, ◌++◌, Option, none, some, Text,
  codes, is_empty, length, take, drop, leb, ◌==◌, if◌then◌else◌,
}
use workhorse_agent.Provider.Message.{
  ContentBlock, text, tool_use, tool_result, reasoning, thinking, redacted_thinking, Message,
  system, user, ProviderEvent, text_delta, tool_use_event, usage, stop, error, reasoning_start,
  reasoning_delta, reasoning_end,
}

pub record Compactor : Type 0 where
  pub stream : List Message → Option (List ProviderEvent)
  pub trim : Text → Text
  pub recent_keep : ℕ

-- `unchanged` is ok = false without an error.
pub data Compaction : Type 0 where
  unchanged summary_failed : Compaction
  compacted : List Message → Compaction

-- What the channel's text deltas add up to, until it closes or an error comes.
unfoldable pub collect : Text → List ProviderEvent → Option Text
collect acc [] = some acc
collect acc (text_delta d ∷ evs) = collect (acc ++ d) evs
collect acc (error (some e) ∷ evs) = none
collect acc (error none ∷ evs) = collect acc evs
collect acc (tool_use_event t ∷ evs) = collect acc evs
collect acc (usage i o ∷ evs) = collect acc evs
collect acc (stop r ∷ evs) = collect acc evs
collect acc (reasoning_start i k ∷ evs) = collect acc evs
collect acc (reasoning_delta i d ∷ evs) = collect acc evs
collect acc (reasoning_end i b ∷ evs) = collect acc evs

unfoldable pub compaction_fallback : Text
unfolding codes
compaction_fallback = codes "(compaction summary unavailable)"

unfoldable pub summarise : Compactor → List Message → Option Text
summarise c msgs = elim (c.stream msgs) [
  | none ↦ none
  | some evs ↦ elim (collect [] evs) [
    | none ↦ none
    | some t ↦ if is_empty (c.trim t) then some compaction_fallback else some (c.trim t)
  ]
]

-- The error results among the blocks.
unfoldable pub errors_of : List ContentBlock → List ContentBlock
errors_of [] = []
errors_of (tool_result id output true ∷ bs) = tool_result id output true ∷ errors_of bs
errors_of (tool_result id output false ∷ bs) = errors_of bs
errors_of (text t ∷ bs) = errors_of bs
errors_of (tool_use id name input ∷ bs) = errors_of bs
errors_of (reasoning r ∷ bs) = errors_of bs

unfoldable pub preserved : List Message → List ContentBlock
preserved [] = []
preserved (m ∷ ms) = errors_of m.content ++ preserved ms

abbrev pub preserved_message : List ContentBlock → List Message
preserved_message [] = []
preserved_message (b ∷ bs) = record { role = user; content = b ∷ bs; stop_reason = [] } ∷ []

unfoldable pub new_history : Text → List Message → List Message → List Message
new_history summary old recent =
    record { role = system; content = text summary ∷ []; stop_reason = [] }
    ∷ (preserved_message (preserved old) ++ recent)

unfoldable pub kept_count : ℕ → ℕ
kept_count keep = if leb keep 0 then 8 else keep

unfoldable pub compact_with_keep : Compactor → List Message → ℕ → Compaction
compact_with_keep c history keep =
    let cut = length history - kept_count keep in
    if leb (length history) (suc (kept_count keep))
    then unchanged
    else elim (summarise c (take cut history)) [
      | none ↦ summary_failed
      | some summary ↦ compacted (new_history summary (take cut history) (drop cut history))
    ]

unfoldable pub compact : Compactor → List Message → Compaction
compact c history = compact_with_keep c history c.recent_keep

unfoldable pub block_chars : ContentBlock → ℕ
block_chars (text t) = length t
block_chars (tool_use id name input) = length name + length input
block_chars (tool_result id output e) = length output
block_chars (reasoning (thinking content signature)) = length content + length signature
block_chars (reasoning (redacted_thinking d)) = length d

unfoldable pub blocks_chars : List ContentBlock → ℕ
blocks_chars [] = 0
blocks_chars (b ∷ bs) = block_chars b + blocks_chars bs

unfoldable pub chars : List Message → ℕ
chars [] = 0
chars (m ∷ ms) = blocks_chars m.content + chars ms

unfoldable pub estimate_tokens : List Message → ℕ
estimate_tokens ms = if chars ms == 0 then 0 else if chars ms / 4 == 0 then 1 else chars ms / 4
