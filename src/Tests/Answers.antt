-- ===== src/Tests/Answers.antt =====
-- Tests of backend/internal/idempotency and backend/internal/dlq.
use stablecoin_settlement_en.Common.{
  ◌^◌, ◌≡◌, refl, ◌≢◌, true, some, [], ◌∷◌, arith, replicate, Bytes, str, bytes_eq, Bytes-eq,
  is_empty, lookup, insert, ok,
}
use stablecoin_settlement_en.Idempotency
use stablecoin_settlement_en.Idempotency.{
  RecordKey-eq, Response, default_policy, in_flight, completed, fresh, replay, claim, complete,
  record_key, first_record, key_eq, claim_live, claim_new, expired, answer,
}
use stablecoin_settlement_en.Idempotency.Serve.{finish, reply}
use stablecoin_settlement_en.Idempotency.Kept.{done}
use stablecoin_settlement_en.Idempotency.Answers.{claim_exclusive, answer_replayed, late_answer}
use stablecoin_settlement_en.Queue
use stablecoin_settlement_en.Queue.{Queue, Slot}
use stablecoin_settlement_en.Deadletter
use stablecoin_settlement_en.Deadletter.{
  redriven, dropped, resolve, redrive, requeue, park, resolved, parked_record,
}
use stablecoin_settlement_en.Deadletter.Books.{resolve_once}
use stablecoin_settlement_en.Deadletter.Cycles.{Life, new, parked_once, handled}

abbrev merchant : Bytes
merchant = str "m1"

abbrev order : Bytes
order = str "order-1"

abbrev made : Response
made = record { status = 201; header = []; body = str "pi_1" }

-- The record of the first claim, at time 5.
abbrev first_claim : Idempotency.Record
first_claim = first_record merchant order (str "f1") 5 default_policy

abbrev claims : Idempotency.Store
claims = insert (record_key merchant order) first_claim []

abbrev answered : Idempotency.Store
answered =
    insert (record_key merchant order)
      (record first_claim { status = completed; response = some made }) []

claim_exclusive_example : (claim merchant order (str "f1") 6 default_policy claims).2 ≢ fresh
unfolding claim lookup insert claim_new first_record
claim_exclusive_example =
    claim_exclusive {bound = 100} merchant order (str "f1") 5 default_policy [] claims claims
      first_claim refl (omega arith) (omega arith) done (str "f1") 6 default_policy (omega arith)

answer_replayed_example :
    (x : Idempotency.Record) × (claim merchant order (str "f1") 50 default_policy answered
      ≡ (answered, x, replay))
    × (x.response ≡ some made)
unfolding finish complete lookup insert key_eq bytes_eq first_record answer
answer_replayed_example =
    answer_replayed {bound = 100} merchant order 1 made made claims answered answered first_claim
      refl refl (omega arith) refl done 50 default_policy (omega arith)

late_answer_example :
    (o : Idempotency.Store) × (s : Idempotency.Record) × (claim merchant order
        (str "f2")
        (10 ^ 15)
        default_policy
        claims
      ≡ (o, s, fresh))
    × (q : Idempotency.Store) × (finish merchant order 1 made o ≡ (q, reply made))
    × (x : Idempotency.Record) × (claim merchant order (str "f2") (10 ^ 15) default_policy q
        ≡ (q, x, replay))
    × (x.response ≡ some made)
unfolding claim lookup insert claim_new first_record
late_answer_example =
    late_answer merchant order (str "f1") (str "f2") 5 (10 ^ 15) default_policy [] claims
      first_claim made refl refl (omega arith) (omega arith)

abbrev given_up : Deadletter.Record
given_up = record {
  job = record {
    id = str "j1";
    kind = Queue.settle;
    intent_id = str "pi_1";
    ref = 7 ∷ replicate 31 0;
  };
  attempts = 10;
  reason = str "no luck";
  intent_state = str "settling";
  cycles = 0;
  status = Deadletter.parked;
  parked_at = 0;
  resolved_by = [];
  resolved_at = 0;
}

abbrev there : Deadletter.Record
there = record given_up { cycles = 1; parked_at = 9 }

abbrev shelf : Deadletter.Store
shelf = record { records = insert (str "j1") there []; order = str "j1" ∷ [] }

abbrev gone : Deadletter.Record
gone = record there { status = redriven; resolved_by = str "ann"; resolved_at = 12 }

abbrev cleared : Deadletter.Store
cleared = record shelf { records = insert (str "j1") gone [] }

resolve_once_example : resolve (str "j1") dropped (str "bob") 13 cleared ≢ ok (cleared, gone)
unfolding resolve lookup insert bytes_eq is_empty resolved
resolve_once_example =
    resolve_once (str "j1") redriven (str "ann") 12 shelf cleared gone refl dropped (str "bob") 13
      cleared gone

abbrev refilled : Queue
refilled = record {
  jobs =
      insert (str "j1")
        (record { job = given_up.job; attempt = 0; not_before = 12; lease_until = 0 }) [];
  order = str "j1" ∷ [];
}

-- Parked at 9, and redriven at 12.
redriven_life : Life (str "j1") 1 cleared
unfolding Deadletter.empty park resolve lookup insert bytes_eq is_empty resolved parked_record
    Queue.validate
redriven_life =
    handled (str "j1") redriven (str "ann") 12 gone
      (parked_once {t = shelf} given_up 9 true new refl) refl
