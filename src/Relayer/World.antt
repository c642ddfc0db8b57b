-- ===== src/Relayer/World.antt =====
-- backend/internal/relayer/relayer.go and broadcast.go: what a worker works on, and what the world
-- answers it in one turn. The sender, the limiter, the clock and the texts that fmt builds are the
-- world's; `calls` logs what was handed to the sender.
use stablecoin_settlement_en.Common.{
  ℕ, ◌*◌, ◌^◌, Bool, false, Option, none, some, List, [], ◌∷◌, ◌++◌, length, Bytes, str, Bytes-eq,
  Dict, lookup, insert,
}
use stablecoin_settlement_en.Intent.State.{
  State, created, authorized, settling, confirming, needs_review, settled, failed, canceled, other,
}
use stablecoin_settlement_en.Intent.Machine.{Intent}
use stablecoin_settlement_en.Intent.Machine as Machine
use stablecoin_settlement_en.Intent.Store as Store
use stablecoin_settlement_en.Ledger.Entry as Entry
use stablecoin_settlement_en.Ledger.Journal.{Journal}
use stablecoin_settlement_en.Queue
use stablecoin_settlement_en.Queue.{Queue}
use stablecoin_settlement_en.Txseq.{Reservation, Sent, Counter}
use stablecoin_settlement_en.Fee.{Fee}
use stablecoin_settlement_en.Fee as Fees
use stablecoin_settlement_en.Retry as Faults
use stablecoin_settlement_en.Deadletter as Dlq

pub record Broadcast : Type 0 where
  pub intent_id : Bytes
  pub account : Bytes
  pub nonce : ℕ
  pub ordered : Bool
  pub fill : Bool
  pub fee : Fee
  pub tx_hash : Bytes
  pub sent : Sent
  pub at : ℕ

-- `MemoryBroadcasts`: the rows of each intent, in order.
abbrev pub Broadcasts : Type 0
Broadcasts = Dict Bytes (List Broadcast)

abbrev pub rows_of : Bytes → Broadcasts → List Broadcast
rows_of id m = elim (lookup id m) [ none ↦ [] | some rows ↦ rows ]

-- `Record`.
unfoldable pub add_broadcast : Broadcast → Broadcasts → Broadcasts
add_broadcast b m = insert b.intent_id (rows_of b.intent_id m ++ b ∷ []) m

unfoldable pub last_row : List Broadcast → Option Broadcast
last_row [] = none
last_row (b ∷ []) = some b
last_row (b ∷ c ∷ rows) = last_row (c ∷ rows)

-- `Last`: the last row, and how many there are.
unfoldable pub last_broadcast : Bytes → Broadcasts → Option (Broadcast × ℕ)
unfolding last_row
last_broadcast id m = elim (last_row (rows_of id m)) [
  | none ↦ none
  | some b ↦ some (b, length (rows_of id m))
]

-- A call of the sender: `Send` and `SendAt`, `Replace`, `Cancel`.
pub data CallKind : Type 0 where
  send replace cancel : CallKind

pub record Call : Type 0 where
  pub kind : CallKind
  pub intent_id : Bytes
  pub slot : Reservation
  pub fee : Option Fee

pub record World : Type 0 where
  pub intents : Store.Store
  pub journal : Journal
  pub counter : Counter
  pub broadcasts : Broadcasts
  pub queue : Queue
  pub dead : Dlq.Store
  pub calls : List Call

-- Which of the three interfaces the sender implements, with its `Account`.
pub data Sender : Type 0 where
  plain : Sender
  ordered : (Intent → Bytes) → Sender
  replacing : (Intent → Bytes) → Sender

-- What the sender answers: a hash, or an error with what it declares, `ErrNotSent` and `ErrPoison`.
pub data Answer : Type 0 where
  hash : Bytes → Answer
  failure : (never_left poison : Bool) → Answer

-- The readings of the clock in one turn.
pub data Reading : Type 0 where
  at_lease at_settling at_record at_confirming at_rescue at_review at_failed at_park at_nack :
      Reading

-- The texts of one turn.
pub data Note : Type 0 where
  no_note intent_missing not_authorized throttled no_slot lost_race send_failed already waiting
        above_ceiling outcome_unknown nothing_to_clear slot_cleared replaced_at gave_up_review
        gave_up_failed job_dropped process_failed :
      Note

-- Where the others, who share the stores, get in between: behind the lease, before a job is given up,
-- and before the ack or nack. Between these points a turn is one step.
pub data Moment : Type 0 where
  after_lease before_poison before_answer : Moment

-- What the world brings to one turn of a worker: the clock, the texts, whether the limiter and the
-- account's semaphore let it through in time, the sender's answer, and what the others do meanwhile.
pub record Turn : Type 0 where
  pub clock : Reading → ℕ
  pub text : Note → Bytes
  pub granted : Bool
  pub turn : Bool
  pub turn_again : Bool
  pub answer : Answer
  pub others : Moment → World → World

pub data Outcome : Type 0 where
  sent_out no_op retry review replaced cleared poison : Outcome

-- `Err` is kept as what `Judge` asks of it.
pub record Report : Type 0 where
  pub outcome : Outcome
  pub tx_hash : Bytes
  pub note : Note
  pub poison : Bool

abbrev pub report : Outcome → Note → Report
report o n = record { outcome = o; tx_hash = []; note = n; poison = false }

-- `nil_amount` is a panic, on an intent without an amount or a policy without a base fee.
pub data Error : Type 0 where
  from_intent : Machine.Error → Error
  from_ledger : Entry.Error → Error
  from_queue : Queue.Error → Error
  from_dead : Dlq.Error → Error
  nil_amount : Error

pub record Config : Type 0 where
  pub lease : ℕ
  pub retry_after : ℕ
  pub stuck_after : ℕ

-- `DefaultConfig`, in nanoseconds.
abbrev pub default_config : Config
default_config = record {
  lease = 30 * 10 ^ 9;
  retry_after = 5 * 10 ^ 9;
  stuck_after = 300 * 10 ^ 9;
}

-- The parts of `Worker` that do not change.
pub record Setup : Type 0 where
  pub sender : Sender
  pub config : Config
  pub fee : Fees.Policy
  pub faults : Faults.Policy

unfoldable pub state_text : State → Bytes
state_text created = str "created"
state_text authorized = str "authorized"
state_text settling = str "settling"
state_text confirming = str "confirming"
state_text needs_review = str "needs_review"
state_text settled = str "settled"
state_text failed = str "failed"
state_text canceled = str "canceled"
state_text (other s) = s
