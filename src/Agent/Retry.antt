-- ===== src/Agent/Retry.antt =====
-- internal/agent/retry.go. Durations are nanoseconds.
pub mod Attempts
use workhorse_agent.Prelude.{
  ℕ, zero, suc, ◌+◌, ◌-◌, ◌*◌, Bool, true, false, not, ◌||◌, List, [], ◌∷◌, Option, none, some,
  Text, leb, ltb, length, get_elem?, if◌then◌else◌,
}

pub record RetryConfig : Type 0 where
  pub attempts : ℕ
  pub backoff : List ℕ

abbrev pub millisecond : ℕ
millisecond = 1_000_000

abbrev pub default_retry_config : RetryConfig
default_retry_config = record {
  attempts = 3;
  backoff = 500 * millisecond ∷ 2000 * millisecond ∷ 8000 * millisecond ∷ [];
}

-- What p.Stream answers: a channel, a ProviderError, or any other error.
pub data Answer (Channel : Type 0) : Type 0 where
  streams : Channel → Answer Channel
  provider_error : (code : Text) → (retryable : Bool) → (retry_after : ℕ) → Answer Channel
  other_error : Text → Answer Channel

pub data Outcome (Channel : Type 0) : Type 0 where
  live : Channel → Outcome Channel
  gave_up : Answer Channel → Outcome Channel
  retry_cancelled : Outcome Channel

unfoldable pub last_of : ℕ → List ℕ → ℕ
last_of x [] = x
last_of x (y ∷ ys) = last_of y ys

unfoldable pub base_for : List ℕ → ℕ → ℕ
unfolding last_of
base_for [] attempt = 500 * millisecond
base_for (x ∷ xs) attempt = elim (get_elem? (x ∷ xs) attempt) [ some d ↦ d | none ↦ last_of x xs ]

unfoldable pub backoff_for : RetryConfig → ℕ → ℕ → ℕ
backoff_for cfg attempt retry_after =
    let base = base_for cfg.backoff attempt in if ltb base retry_after then retry_after else base

-- A retry that is announced before its sleep.
pub record Retried : Type 0 where
  pub attempt : ℕ
  pub wait : ℕ
  pub code : Text

pub record Run (Channel : Type 0) : Type 0 where
  pub outcome : Outcome Channel
  pub retried : List Retried

-- `answers` is the provider and `interrupts` the context, which may end any sleep that is not
-- empty. No fuel is left over: the loop ends by itself within attempts + 1 calls.
module _ {Channel : Type 0} (answers : ℕ → Answer Channel) (interrupts : ℕ → Bool)
    (cfg : RetryConfig) where
  unfoldable pub sleeps : ℕ → ℕ → Bool
  sleeps attempt wait = if ltb 0 wait then not (interrupts attempt) else true

  abbrev pub ended : Outcome Channel → Run Channel
  ended o = record { outcome = o; retried = [] }

  abbrev pub announced : Retried → Run Channel → Run Channel
  announced r run = record run { retried = r ∷ run.retried }

  unfoldable pub after_sleep : Bool → Retried → Option (Run Channel) → Option (Run Channel)
  after_sleep false r later = some (announced r (ended retry_cancelled))
  after_sleep true r none = none
  after_sleep true r (some run) = some (announced r run)

  unfoldable pub after_answer : Answer Channel → ℕ → Option (Run Channel) → Option (Run Channel)
  after_answer (streams ch) attempt later = some (ended (live ch))
  after_answer (other_error text) attempt later = some (ended (gave_up (other_error text)))
  after_answer (provider_error code retryable after) attempt later =
      let wait = backoff_for cfg attempt after in
      if not retryable || leb cfg.attempts attempt
      then some (ended (gave_up (provider_error code retryable after)))
      else after_sleep (sleeps attempt wait)
          (record { attempt = suc attempt; wait = wait; code = code }) later

  -- One attempt; `later` is what the next ones come to.
  unfoldable pub retry_from : ℕ → ℕ → Option (Run Channel)
  retry_from zero attempt = none
  retry_from (suc f) attempt = after_answer (answers attempt) attempt (retry_from f (suc attempt))

  unfoldable pub stream_with_retry : Option (Run Channel)
  stream_with_retry = retry_from (suc cfg.attempts) 0
