-- ===== src/Email/DeadLetters.antt =====
-- src/core/queues/processors/email.processor.ts: the attempts of a job that fails.
use nest_nexus.Prelude.{ℕ, zero, suc, String, Option, some}
use nest_nexus.Email.{Job, Outbox, on_failed}

module _ (webhook_url : Option String) (job : Job) (error : String) where
  -- The queue tells the worker of every failed attempt, in order.
  abbrev pub after_failures : ℕ → Outbox → Outbox
  after_failures zero s = s
  after_failures (suc n) s = on_failed webhook_url (some job) error (suc n) (after_failures n s)
