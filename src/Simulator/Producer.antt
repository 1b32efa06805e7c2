-- ===== src/Simulator/Producer.antt =====
-- OperatorSimulatorProducer (provider-simulator/provider-simulator.producer.ts). The queue belongs to BullMQ: the jobs are listed with their delays.
use ledger_ops_api.Common.{ℕ, ◌+◌, ◌-◌, ◌≤◌, ◌<◌, List, [], ◌∷◌, String, arith}
use ledger_ops_api.Simulator.{Job, acknowledge, settle}

-- `floor_random n` is Math.floor(Math.random() * n).
abbrev pub random_delay_ms : (floor_random : ℕ → ℕ) → ℕ → ℕ → ℕ
random_delay_ms floor_random min_ms max_ms = min_ms + floor_random (max_ms - min_ms)

pub record QueuedJob : Type 0 where
  pub job : Job
  pub reference : String
  pub delay : ℕ

-- The two draws of Math.random.
module _ (first second : ℕ → ℕ) where
  unfoldable pub ack_delay : ℕ
  ack_delay = random_delay_ms first 1000 3000

  unfoldable pub settle_delay : ℕ
  unfolding ack_delay
  settle_delay = ack_delay + random_delay_ms second 2000 6000

  unfoldable pub schedule_callbacks : String → List QueuedJob
  unfolding ack_delay settle_delay
  schedule_callbacks reference =
      record { job = acknowledge; reference = reference; delay = ack_delay }
      ∷ record { job = settle; reference = reference; delay = settle_delay }
      ∷ []

  -- The acknowledgment is sent within three seconds, and the settlement two to six seconds after it.
  pub delays-bounds :
      ((n : ℕ) → 0 < n → first n < n)
      → ((n : ℕ) → 0 < n → second n < n)
      → (1000 ≤ ack_delay)
        × (ack_delay < 3000)
        × (ack_delay + 2000 ≤ settle_delay)
        × (settle_delay < ack_delay + 6000)
  unfolding ack_delay settle_delay
  delays-bounds h k =
      let a = h 2000 (omega arith) in
      let b = k 4000 (omega arith) in (omega arith, omega arith, omega arith, omega arith)
