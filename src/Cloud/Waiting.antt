-- ===== src/Cloud/Waiting.antt =====
-- How long `wait_for_terminal_state` polls, and what it gives.
use azure_iot_ops_cli_extens.Base.{ℕ, zero, suc, ◌≡◌, refl, ◌∙◌, Bool, true, false, ◌<◌, arith}
use azure_iot_ops_cli_extens.Cloud.{
  Cloud, Run, poll_retries, poll_result, wait_state, wait_for_terminal_state,
}

module _ {Q : Type 0} (C : Cloud Q) (p : C.Poller) where
  -- The world after so many polls that found the operation running, each with its sleep.
  unfoldable pub rounds : ℕ → C.World → C.World
  rounds zero w = w
  rounds (suc n) w = rounds n (C.sleep (C.done p w).1)

  -- What a poll finds after so many rounds.
  abbrev pub finds : ℕ → C.World → Bool
  finds n w = (C.done p (rounds n w)).0

  abbrev pub at : Run C → C.World → Run C
  at s w = record { world = w; display = s.display; requests = s.requests }

  step-done :
      (left : ℕ) (s : Run C)
      → finds 0 s.world ≡ true
      → wait_state C (suc left) p s ≡ poll_result C p (at s (C.done p s.world).1)
  unfolding wait_state rounds
  step-done left s d = rw (d, wait_state) refl

  step-running :
      (left : ℕ) (s : Run C)
      → finds 0 s.world ≡ false
      → wait_state C (suc left) p s ≡ wait_state C left p (at s (C.sleep (C.done p s.world).1))
  unfolding wait_state rounds
  step-running left s d = rw (d, wait_state) refl

  wait_state-done :
      (n left : ℕ) (s : Run C)
      → ((i : ℕ) → i < n → finds i s.world ≡ false)
      → n < left
      → finds n s.world ≡ true
      → wait_state C left p s ≡ poll_result C p (at s (C.done p (rounds n s.world)).1)
  unfolding wait_state rounds
  wait_state-done n zero s running h d = ground (arith, h)
  wait_state-done zero (suc left) s running h d = step-done left s d
  wait_state-done (suc n) (suc left) s running h d =
      step-running left s (running 0 (ground arith))
      ∙ (wait_state-done n left (at s (C.sleep (C.done p s.world).1))
          (λ i k. running (suc i) (ground (arith, k))) (ground (arith, h)) d)

  -- Where the polls find an operation running and the n-th finds it done, n below the retries, the
  -- wait sleeps n times and gives the result that the poller then has.
  pub wait_for_terminal_state-done :
      (n : ℕ) (s : Run C)
      → ((i : ℕ) → i < n → finds i s.world ≡ false)
      → n < poll_retries
      → finds n s.world ≡ true
      → wait_for_terminal_state C p s ≡ poll_result C p (at s (C.done p (rounds n s.world)).1)
  unfolding wait_for_terminal_state
  wait_for_terminal_state-done n s running h d = wait_state-done n poll_retries s running h d
