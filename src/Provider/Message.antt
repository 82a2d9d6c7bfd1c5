-- ===== src/Provider/Message.antt =====
-- The types of internal/provider/provider.go. A block is one constructor for each BlockType with the
-- fields that it populates; the two that reasoning makes have a type of their own.
use workhorse_agent.Prelude.{Bool, ◌||◌, List, ℕ, Option, Text, codes, text_eq}

pub data Role : Type 0 where
  user assistant system : Role

pub data Reasoning : Type 0 where
  thinking : (content signature : Text) → Reasoning
  redacted_thinking : Text → Reasoning

pub data ContentBlock : Type 0 where
  text : Text → ContentBlock
  tool_use : (id name input : Text) → ContentBlock
  tool_result : (id output : Text) → (is_error : Bool) → ContentBlock
  reasoning : Reasoning → ContentBlock

pub record Message : Type 0 where
  pub role : Role
  pub content : List ContentBlock
  pub stop_reason : Text

pub record ProviderError : Type 0 where
  pub provider : Text
  pub status_code : ℕ
  pub code : Text
  pub message : Text

-- A field that the code leaves nil is `none`.
pub data ProviderEvent : Type 0 where
  text_delta : Text → ProviderEvent
  tool_use_event : Option (Text × Text × Text) → ProviderEvent
  usage : (input_tokens output_tokens : ℕ) → ProviderEvent
  stop : Text → ProviderEvent
  error : Option ProviderError → ProviderEvent
  reasoning_start : (block_index : ℕ) → (kind : Text) → ProviderEvent
  reasoning_delta : (block_index : ℕ) → Text → ProviderEvent
  reasoning_end : (block_index : ℕ) → Option Reasoning → ProviderEvent

unfoldable pub is_retryable : ProviderError → Bool
unfolding codes text_eq
is_retryable e =
    text_eq e.code (codes "rate_limited")
    || text_eq e.code (codes "server_error")
    || text_eq e.code (codes "network_error")
    || text_eq e.code (codes "stream_broken")
