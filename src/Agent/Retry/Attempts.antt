-- ===== src/Agent/Retry/Attempts.antt =====
-- How many attempts a stream gets.
use workhorse_agent.Prelude.{
  ℕ, zero, suc, ◌+◌, ◌≤◌, ◌<◌, ◌≡◌, refl, ap, ◌∙◌, Bool, true, false, not, ◌||◌, Option, none, some,
  leb, length, arith, Bool-cases, inl, inr,
}
use workhorse_agent.Agent.Retry.{
  RetryConfig, Answer, streams, provider_error, other_error, live, Retried, Run, backoff_for,
  sleeps, announced, after_sleep, after_answer, retry_from, stream_with_retry,
}

abbrev pub retryable_error : {Channel : Type 0} → Answer Channel → Bool
retryable_error (streams ch) = false
retryable_error (provider_error code retryable after) = retryable
retryable_error (other_error text) = false

module _ {Channel : Type 0} (answers : ℕ → Answer Channel) (interrupts : ℕ → Bool)
    (cfg : RetryConfig) where
  abbrev Bounded : ℕ → Option (Run Channel) → Type 0
  Bounded attempt r =
      (run : Run Channel) × (r ≡ some run) × (attempt + length run.retried ≤ cfg.attempts)

  after_sleep-Bounded :
      (b : Bool) (r : Retried) (attempt : ℕ) (later : Option (Run Channel))
      → attempt < cfg.attempts
      → Bounded (suc attempt) later
      → Bounded attempt (after_sleep answers interrupts cfg b r later)
  unfolding after_sleep
  after_sleep-Bounded false r attempt later h k = (_, refl, omega arith)
  after_sleep-Bounded true r attempt none h (run, e, le) = ground (arith, e)
  after_sleep-Bounded true r attempt (some run') h (run, e, le) = (_, refl, ground (arith, e, le))

  after_answer-Bounded :
      (a : Answer Channel) (attempt : ℕ) (later : Option (Run Channel))
      → attempt ≤ cfg.attempts
      → (attempt < cfg.attempts → Bounded (suc attempt) later)
      → Bounded attempt (after_answer answers interrupts cfg a attempt later)
  unfolding after_answer
  after_answer-Bounded (streams ch) attempt later h k = (_, refl, omega arith)
  after_answer-Bounded (other_error text) attempt later h k = (_, refl, omega arith)
  after_answer-Bounded (provider_error code retryable after) attempt later h k =
      elim (Bool-cases (not retryable || leb cfg.attempts attempt)) [
        | inl e ↦ rw e (_, refl, omega (arith, h))
        | inr e ↦
            let more : attempt < cfg.attempts = ground (arith, e) in
            rw e (
              after_sleep-Bounded
                (sleeps answers interrupts cfg attempt (backoff_for cfg attempt after)) _ attempt
                later more (k more))
      ]

  retry_from-Bounded :
      (f attempt : ℕ)
      → cfg.attempts ≤ attempt + f
      → attempt ≤ cfg.attempts
      → Bounded attempt (retry_from answers interrupts cfg (suc f) attempt)
  unfolding retry_from
  retry_from-Bounded zero attempt h k =
      after_answer-Bounded (answers attempt) attempt none k (λ l. ground (arith, l, h))
  retry_from-Bounded (suc f) attempt h k =
      after_answer-Bounded (answers attempt) attempt
        (retry_from answers interrupts cfg (suc f) (suc attempt)) k
        (λ l. retry_from-Bounded f (suc attempt) (omega arith) l)

  abbrev Succeeds : ℕ → Channel → Option (Run Channel) → Type 0
  Succeeds k ch r =
      (run : Run Channel) × (r ≡ some run) × (run.outcome ≡ live ch) × (length run.retried ≡ k)

  after_answer-Succeeds :
      (a : Answer Channel) (attempt k : ℕ) (ch : Channel) (later : Option (Run Channel))
      → attempt < cfg.attempts
      → retryable_error a ≡ true
      → interrupts attempt ≡ false
      → Succeeds k ch later
      → Succeeds (suc k) ch (after_answer answers interrupts cfg a attempt later)
  unfolding after_answer after_sleep sleeps
  after_answer-Succeeds (streams ch') attempt k ch later h r i s = cc
  after_answer-Succeeds (other_error text) attempt k ch later h r i s = cc
  after_answer-Succeeds (provider_error code retryable after) attempt k ch later h r i
        (run, e, o, l) =
      let more : (not retryable || leb cfg.attempts attempt) ≡ false = ground (arith, r, h) in
      let wakes : sleeps answers interrupts cfg attempt (backoff_for cfg attempt after) ≡ true =
        ground (arith, i) in
      let wait = backoff_for cfg attempt after in
      (
        announced answers interrupts cfg
            (record { attempt = suc attempt; wait = wait; code = code }) run,
        rw (more, wakes, e) refl,
        o,
        ap suc l,
      )

  retry_from-Succeeds :
      (f attempt k : ℕ) (ch : Channel)
      → k ≤ f
      → attempt + k ≤ cfg.attempts
      → answers (attempt + k) ≡ streams ch
      → ((j : ℕ) → j < attempt + k → retryable_error (answers j) ≡ true)
      → ((j : ℕ) → interrupts j ≡ false)
      → Succeeds k ch (retry_from answers interrupts cfg (suc f) attempt)
  unfolding retry_from after_answer
  retry_from-Succeeds f attempt zero ch h hk ans ret calm =
      let now : answers attempt ≡ streams ch = ap answers (omega arith) ∙ ans in
      (
        _,
        ap
            (λ a.
              after_answer answers interrupts cfg a attempt
                (retry_from answers interrupts cfg f (suc attempt)))
            now,
        refl,
        refl,
      )
  retry_from-Succeeds zero attempt (suc k) ch h hk ans ret calm = ground arith
  retry_from-Succeeds (suc f) attempt (suc k) ch h hk ans ret calm =
      after_answer-Succeeds (answers attempt) attempt k ch
        (retry_from answers interrupts cfg (suc f) (suc attempt)) (omega arith)
        (ret attempt (omega arith)) (calm attempt)
        (retry_from-Succeeds f (suc attempt) k ch (omega arith) (omega arith)
          (ap answers (omega arith) ∙ ans) (λ j l. ret j (omega arith)) calm)

  -- The loop ends by itself, whatever the provider answers and whichever sleeps the context cuts
  -- short, and it retries at most Attempts times.
  pub stream_with_retry_ends :
      (run : Run Channel) × (stream_with_retry answers interrupts cfg ≡ some run)
      × (length run.retried ≤ cfg.attempts)
  unfolding stream_with_retry
  stream_with_retry_ends =
      let (run, e, le) = retry_from-Bounded cfg.attempts 0 (omega arith) (omega arith) in
      (run, e, omega (arith, le))

  -- A passing failure does not reach the caller: where the first k answers are retryable errors
  -- and the next one is a channel, with k at most Attempts and no sleep cut short, the caller gets
  -- that channel after k announced retries.
  pub stream_with_retry_succeeds :
      (k : ℕ) (ch : Channel)
      → k ≤ cfg.attempts
      → answers k ≡ streams ch
      → ((j : ℕ) → j < k → retryable_error (answers j) ≡ true)
      → ((j : ℕ) → interrupts j ≡ false)
      → (run : Run Channel) × (stream_with_retry answers interrupts cfg ≡ some run)
        × (run.outcome ≡ live ch)
        × (length run.retried ≡ k)
  unfolding stream_with_retry
  stream_with_retry_succeeds k ch h ans ret calm =
      retry_from-Succeeds cfg.attempts 0 k ch h (omega arith) (ap answers (omega arith) ∙ ans)
        (λ j l. ret j (omega arith)) calm
