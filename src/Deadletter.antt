-- ===== src/Deadletter.antt =====
-- backend/internal/dlq: the jobs that were given up, parked until a person redrives or drops them.
use stablecoin_settlement_en.Common.{
  ℕ, ◌+◌, ◌%◌, Bool, true, false, none, some, List, [], ◌∷◌, ◌++◌, u64, if◌then◌else◌, not, Bytes,
  Bytes-eq, is_empty, Dict, lookup, insert, Result, ok, err, ◌>>=◌, ◌>>◌, refuse_if,
}
use stablecoin_settlement_en.Queue
use stablecoin_settlement_en.Queue.{Job, Queue}
pub mod Books
pub mod Cycles

pub data Status : Type 0 where
  parked redriven dropped : Status
  odd : Bytes → Status

pub data Error : Type 0 where
  invalid_record not_found not_parked : Error
  from_queue : Queue.Error → Error

pub record Record : Type 0 where
  pub job : Job
  pub attempts : ℕ
  pub reason : Bytes
  pub intent_state : Bytes
  pub cycles : ℕ
  pub status : Status
  pub parked_at : ℕ
  pub resolved_by : Bytes
  pub resolved_at : ℕ

-- `Record.Validate`.
unfoldable pub validate : Record → Result Error (Unit {0})
validate r = do
  elim (Queue.validate r.job) [ err e ↦ err invalid_record | ok u ↦ ok tt ]
  refuse_if (is_empty r.reason) invalid_record

pub record Store : Type 0 where
  pub records : Dict Bytes Record
  pub order : List Bytes

-- `NewMemoryStore`.
unfoldable pub empty : Store
empty = record { records = []; order = [] }

unfoldable pub is_parked : Status → Bool
is_parked parked = true
is_parked _ = false

-- The fields that `Park` fills in.
unfoldable pub parked_record : Record → ℕ → ℕ → Record
parked_record r now cycles = record r {
  status = parked;
  parked_at = now;
  cycles = cycles;
  resolved_by = [];
  resolved_at = 0;
}

-- `Park` of a valid record.
unfoldable pub park_valid : Record → ℕ → Store → Store × Bool
unfolding is_parked parked_record
park_valid r now s = elim (lookup r.job.id s.records) [
  | none ↦ (
    record {
      records = insert r.job.id (parked_record r now 1) s.records;
      order = s.order ++ r.job.id ∷ [];
    },
    true,
  )
  | some old ↦ if is_parked old.status then (s, false) else (
    record s { records = insert r.job.id (parked_record r now ((old.cycles + 1) % u64)) s.records },
    true,
  )
]

unfoldable pub park : Record → ℕ → Store → Result Error (Store × Bool)
unfolding validate park_valid
park r now s = do validate r; ok (park_valid r now s)

unfoldable pub get : Bytes → Store → Result Error Record
get id s = elim (lookup id s.records) [ none ↦ err not_found | some r ↦ ok r ]

-- The targets that `Resolve` takes.
unfoldable pub resolvable : Status → Bool
resolvable redriven = true
resolvable dropped = true
resolvable _ = false

unfoldable pub resolved : Record → Status → Bytes → ℕ → Record
resolved r to by now = record r { status = to; resolved_by = by; resolved_at = now }

-- `Resolve`: the one atomic step.
unfoldable pub resolve : Bytes → Status → Bytes → ℕ → Store → Result Error (Store × Record)
unfolding get is_parked resolvable resolved
resolve id to by now s = do
  refuse_if (not (resolvable to)) invalid_record
  refuse_if (is_empty by) invalid_record
  r ← get id s
  refuse_if (not (is_parked r.status)) not_parked
  ok (record s { records = insert id (resolved r to by now) s.records }, resolved r to by now)

-- The first half of `Redrive`: the job goes back to the queue.
unfoldable pub requeue : Bytes → ℕ → Store → Queue → Result Error Queue
unfolding get is_parked
requeue id now s q = do
  r ← get id s
  refuse_if (not (is_parked r.status)) not_parked
  elim (Queue.enqueue r.job now q) [ err e ↦ err (from_queue e) | ok (q', b) ↦ ok q' ]

-- `Redrive`: the store, the queue and the answer. The queue has changed even where `Resolve` fails.
unfoldable pub redrive : Bytes → Bytes → ℕ → Store → Queue → Queue × Result Error (Store × Record)
unfolding requeue resolve
redrive id by now s q = elim (requeue id now s q) [
  | err e ↦ (q, err e)
  | ok q' ↦ (q', resolve id redriven by now s)
]

-- `Drop`.
unfoldable pub drop_job : Bytes → Bytes → ℕ → Store → Result Error (Store × Record)
unfolding resolve
drop_job id by now s = resolve id dropped by now s
