-- ===== src/Relayer/Worker.antt =====
-- backend/internal/relayer/relayer.go: `process` and `RunOnce`. `Run` repeats `RunOnce`.
use stablecoin_settlement_en.Common.{
  ℕ, ◌-◌, u64, if◌then◌else◌, Option, none, some, Bytes, Bytes-eq, Result, ok, err,
}
use stablecoin_settlement_en.Intent.State.{created, authorized, settling}
use stablecoin_settlement_en.Intent.Machine.{Intent, not_found}
use stablecoin_settlement_en.Intent.Store.{get}
use stablecoin_settlement_en.Queue.{Queue, Delivery, stale_receipt}
use stablecoin_settlement_en.Queue as Jobs
use stablecoin_settlement_en.Retry.{Verdict, judge, retryable, negative}
use stablecoin_settlement_en.Retry as Faults
use stablecoin_settlement_en.Relayer.World.{
  World, Turn, Report, report, no_op, retry, intent_missing, not_authorized, already,
  process_failed, nil_amount, after_lease, before_poison, before_answer, at_lease, at_nack, Error,
  from_intent, from_queue, Setup,
}
use stablecoin_settlement_en.Relayer.Ship.{process_authorized}
use stablecoin_settlement_en.Relayer.Rescue.{rescue}
use stablecoin_settlement_en.Relayer.GiveUp.{poison_job}

-- The queue after an Ack or a Nack; a stale receipt is passed over.
unfoldable pub queue_answer : World → Result Jobs.Error Queue → World × Result Error (Unit {0})
queue_answer w (ok q) = (record w { queue = q }, ok tt)
queue_answer w (err stale_receipt) = (w, ok tt)
queue_answer w (err e) = (w, err (from_queue e))

-- A Nack with the word of an int64 delay: a negative one is a time in the past.
unfoldable pub nack_after : Delivery → ℕ → ℕ → Queue → Result Jobs.Error Queue
unfolding negative
nack_after d wait now q =
    if negative wait then Jobs.nack d 0 (now - (u64 - wait)) q else Jobs.nack d wait now q

-- Only a retry goes back to the queue.
unfoldable pub answer_job : Turn → Delivery → Report → ℕ → World → World × Result Error (Unit {0})
unfolding queue_answer nack_after
answer_job t d r wait w = elim r.outcome [
  | retry ↦ queue_answer w (nack_after d wait (t.clock at_nack) w.queue)
  | _ ↦ queue_answer w (Jobs.ack d w.queue)
]

-- By then the others may have taken the job over.
unfoldable pub hand_back : Turn → Delivery → Report → ℕ → World → World × Result Error (Unit {0})
unfolding answer_job
hand_back t d r wait w = answer_job t d r wait (t.others before_answer w)

-- A process error is a retry. A panic does not come here.
unfoldable pub report_of : Result Error Report → Report
report_of (ok r) = r
report_of (err e) = report retry process_failed

-- What a turn comes to: nothing to do; a job done with a report, and the error of its process; or
-- an error of the queue or of the dead letters, or a panic, with nothing more done to the queue.
pub data Ran : Type 0 where
  idle : Ran
  ran : Delivery → Report → Option Error → Ran
  broke : Error → Ran

abbrev pub error_of : Result Error Report → Option Error
error_of (ok r) = none
error_of (err e) = some e

unfoldable pub handed :
    Delivery → Report → Option Error → World × Result Error (Unit {0}) → World × Ran
handed d r e (w, ok u) = (w, ran d r e)
handed d r e (w, err q) = (w, broke q)

module _ (sha256 : Bytes → Bytes) (stamp : ℕ → Bytes) where
  unfoldable pub process_intent : Setup → Turn → Intent → World → World × Result Error Report
  unfolding process_authorized rescue
  process_intent u t it w = elim it.state [
    | created ↦ (w, ok (report retry not_authorized))
    | authorized ↦ process_authorized sha256 stamp u t it w
    | settling ↦ rescue sha256 u t it w
    | _ ↦ (w, ok (report no_op already))
  ]

  -- `process`.
  unfoldable pub process : Setup → Turn → Delivery → World → World × Result Error Report
  unfolding process_intent get
  process u t d w = elim (get w.intents d.job.intent_id) [
    | err not_found ↦ (w, ok (report no_op intent_missing))
    | err e ↦ (w, err (from_intent e))
    | ok it ↦ process_intent u t it w
  ]

  unfoldable pub after_poison :
      Setup → Turn → Delivery → Option Error → World × Result Error Report → World × Ran
  unfolding handed hand_back
  after_poison u t d e (w, err f) = (w, broke f)
  after_poison u t d e (w, ok r) = handed d r e (hand_back t d r u.config.retry_after w)

  -- What `Judge` says of a retry is done.
  unfoldable pub judged :
      Setup → Turn → Delivery → Report → Option Error → World → Verdict → World × Ran
  unfolding after_poison handed hand_back poison_job
  judged u t d r e w (retryable wait) = handed d r e (hand_back t d r wait w)
  judged u t d r e w Faults.poison =
      after_poison u t d e (poison_job sha256 stamp t d (t.others before_poison w))

  -- Behind `process`; a panic in it leaves `RunOnce`.
  unfoldable pub after_process : Setup → Turn → Delivery → World × Result Error Report → World × Ran
  unfolding judged handed hand_back report_of
  after_process u t d (w, err nil_amount) = (w, broke nil_amount)
  after_process u t d (w, p) =
      let r = report_of p in
      elim r.outcome [
        | retry ↦ judged u t d r (error_of p) w (
            judge u.faults
              (record { poison = r.poison; attempt = d.attempt; base = u.config.retry_after }))
        | _ ↦ handed d r (error_of p) (hand_back t d r u.config.retry_after w)
      ]

  -- `RunOnce`.
  unfoldable pub run_once : Setup → Turn → World → World × Ran
  unfolding after_process process
  run_once u t w = elim (Jobs.lease (t.clock at_lease) u.config.lease w.queue) [
    | err e ↦ (w, broke (from_queue e))
    | ok (q, none) ↦ (record w { queue = q }, idle)
    | ok (q, some d) ↦
        let w' = t.others after_lease (record w { queue = q }) in
        after_process u t d (process u t d w')
  ]
