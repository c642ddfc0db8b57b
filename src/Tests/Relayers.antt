-- ===== src/Tests/Relayers.antt =====
-- Tests of backend/internal/relayer: one worker and one payment.
use stablecoin_settlement_en.Common.{
  ℕ, ◌+◌, err, ◌≡◌, refl, ap, ◌⊎◌, Bool, true, false, none, some, [], ◌∷◌, arith, length, replicate,
  Bytes, str, bytes_eq, Bytes-eq, is_empty, lookup, insert, Result, ok,
}
use stablecoin_settlement_en.Common.Int.{ℤ, pos}
use stablecoin_settlement_en.Common.Encode.{decimal}
use stablecoin_settlement_en.Paymentref.{derive}
use stablecoin_settlement_en.Intent.State.{authorized, settling}
use stablecoin_settlement_en.Intent.Machine.{Intent, write}
use stablecoin_settlement_en.Ledger.Journal as Journal
use stablecoin_settlement_en.Ledger.Entry.{Entry}
use stablecoin_settlement_en.Ledger.Journal.{append}
use stablecoin_settlement_en.Queue as Jobs
use stablecoin_settlement_en.Queue.{Slot, settle, lease_slot, delivery}
use stablecoin_settlement_en.Txseq.{Reservation, Counter, line_of, not_sent, unknown}
use stablecoin_settlement_en.Fee.{new_fee}
use stablecoin_settlement_en.Txseq.{reserve, resolve}
use stablecoin_settlement_en.Intent.Machine.{apply, guard}
use stablecoin_settlement_en.Intent.State.{valid, terminal, lookup_rule, allows}
use stablecoin_settlement_en.Intent.Store.{save}
use stablecoin_settlement_en.Ledger.Entry.{payer_account, merchant_account}
use stablecoin_settlement_en.Common.Int.{◌-ℤ◌, ◌+ℤ◌}
use stablecoin_settlement_en.Relayer.World.{
  last_broadcast, World, Setup, Turn, Answer, Broadcast, hash, ordered, default_config, Report,
  before_answer, Error,
}
use stablecoin_settlement_en.Relayer.Ship.{process_authorized, ship_ordered, hold_entry, hold_id}
use stablecoin_settlement_en.Relayer.GiveUp.{last_sent, void_answer, give_up_intent, void_entry}
use stablecoin_settlement_en.Relayer.Ships.{call_of, settle_request}
use stablecoin_settlement_en.Relayer.Sends.{one_send, sent_once_held}
use stablecoin_settlement_en.Relayer.Numbers.{line_returned, closed_line}
use stablecoin_settlement_en.Relayer.Failing.{fail_request, failed_on_last_row, failed_only_unsent}

abbrev one_hash : Bytes → Bytes
one_hash b = 7 ∷ replicate 31 0

abbrev no_stamp : ℕ → Bytes
no_stamp n = []

abbrev signed : Intent
signed = record {
  id = str "pi_1";
  ref = 7 ∷ replicate 31 0;
  chain = str "evm:1";
  token = str "0xT";
  payer = str "0xP";
  merchant = str "0xM";
  amount = some (pos 100);
  state = authorized;
  version = 2;
  tx_hash = [];
  created_at = 10;
  updated_at = 20;
  expires_at = 0;
  history = [];
}

abbrev job : Jobs.Job
job = record { id = str "j1"; kind = settle; intent_id = str "pi_1"; ref = 7 ∷ replicate 31 0 }

abbrev slot : Slot
slot = record { job = job; attempt = 0; not_before = 10; lease_until = 0 }

abbrev world : World
world = record {
  intents = record { m = insert signed.id signed []; by_ref = insert signed.ref signed.id [] };
  journal = record { entries = []; by_id = []; resolved = [] };
  counter = [];
  broadcasts = [];
  queue = record { jobs = insert job.id slot []; order = job.id ∷ [] };
  dead = record { records = []; order = [] };
  calls = [];
}

abbrev setup : Setup
setup = record {
  sender = ordered (λ it. str "hot");
  config = default_config;
  fee = record { base = new_fee 20 2; bump_percent = 15; max_cap = none; max_tries = 3 };
  faults = record { max_attempts = 3; max_backoff = 0; jitter = none };
}

abbrev turn : Answer → Turn
turn a = record {
  clock = λ r. 100;
  text = λ n. str "note";
  granted = true;
  turn = true;
  turn_again = true;
  answer = a;
  others = λ m w. w;
}

abbrev sent_turn : Turn
sent_turn = turn (hash (str "0xaa"))

abbrev after_first : World × Result Error Report
after_first = process_authorized one_hash no_stamp setup sent_turn signed world

-- The first worker did call the sender, once.
one_call : length after_first.0.calls ≡ 1
unfolding process_authorized lookup insert bytes_eq derive is_empty append reserve resolve apply
    valid terminal lookup_rule allows guard save payer_account merchant_account ◌-ℤ◌ ◌+ℤ◌
one_call = refl

one_send_example :
    (c : Counter) × ((process_authorized one_hash no_stamp setup sent_turn signed after_first.0).0
      ≡ record after_first.0 { counter = c })
one_send_example =
    one_send one_hash no_stamp setup setup sent_turn sent_turn signed world after_first.0
      after_first.1 refl refl (λ e. omega (arith, ap length e, one_call))

sent_once_held_example :
    (after_first.0.calls ≡ [])
    ⊎ ((res : Reservation) × (a : ℤ) × (e : Entry) × (b : Bool) × (signed.amount ≡ some a)
        × (after_first.0.calls ≡ call_of signed res ∷ [])
        × (append one_hash no_stamp world.journal
              (hold_entry (write signed (settle_request sent_turn)) a)
            ≡ ok (after_first.0.journal, e, b)))
sent_once_held_example = sent_once_held one_hash no_stamp setup sent_turn signed world refl

line_returned_example :
    let v = (ship_ordered one_hash no_stamp setup sent_turn (str "hot") signed world).0 in
    let a = line_of (str "hot") world.counter in
    ((v.calls ≡ []) × (line_of (str "hot") v.counter ≡ a))
    ⊎ ((v.calls
          ≡ call_of signed
              (record { account = str "hot"; value = a.next; ordered = true; fill = false })
            ∷ [])
        × (line_of (str "hot") v.counter ≡ closed_line sent_turn.answer a))
unfolding line_of lookup
line_returned_example =
    line_returned one_hash no_stamp setup sent_turn (str "hot") signed world
      (λ e. ground (arith, e)) refl refl

abbrev leased : Slot
leased = lease_slot 100 default_config.lease slot

abbrev leased_world : World
leased_world = record world {
  queue = record world.queue { jobs = insert job.id leased world.queue.jobs };
}

-- Before the answer another worker takes the job over, when its lease has run out.
take_over : World → World
take_over w = elim (Jobs.lease (200 + default_config.lease) default_config.lease w.queue) [
  | ok (q, some d) ↦ record w { queue = q }
  | _ ↦ w
]

abbrev late_turn : Turn
late_turn = record sent_turn { others = λ m w. elim m [ before_answer ↦ take_over w | _ ↦ w ] }

-- Then the receipt is stale.
taken_over :
    Jobs.current (delivery job.id leased) (take_over leased_world).queue ≡ err Jobs.stale_receipt
unfolding take_over Jobs.current Jobs.lease lookup insert bytes_eq lease_slot delivery decimal
taken_over = refl

-- A payment that was sent, nobody knows with what outcome, and whose replacement was not sent.
abbrev stuck : Intent
stuck = write signed (settle_request sent_turn)

abbrev row : Broadcast
row = record {
  intent_id = str "pi_1";
  account = str "hot";
  nonce = 0;
  ordered = true;
  fill = false;
  fee = new_fee 20 2;
  tx_hash = [];
  sent = unknown;
  at = 100;
}

abbrev second_row : Broadcast
second_row = record row { sent = not_sent; fill = true }

abbrev held : Journal.Journal
held =
    Journal.write one_hash no_stamp (record { entries = []; by_id = []; resolved = [] })
      (hold_entry stuck (pos 100))

abbrev stuck_world : World
stuck_world = record world {
  intents = record { m = insert stuck.id stuck []; by_ref = insert stuck.ref stuck.id [] };
  journal = held;
  broadcasts = insert stuck.id (row ∷ second_row ∷ []) [];
}

abbrev voided : Journal.Journal
voided = Journal.write one_hash no_stamp held (void_entry stuck)

abbrev given_up : World
given_up = (give_up_intent one_hash no_stamp sent_turn stuck stuck_world).0

stuck_there : lookup stuck.id stuck_world.intents.m ≡ some stuck
unfolding lookup insert bytes_eq write
stuck_there = refl

failed_on_last_row_example :
    (given_up.journal ≡ voided)
    × (lookup stuck.id given_up.intents.m ≡ some (write stuck (fail_request sent_turn)))
unfolding write lookup insert bytes_eq derive append Journal.write is_empty void_entry hold_id
    hold_entry
failed_on_last_row_example =
    failed_on_last_row one_hash no_stamp sent_turn stuck stuck_world (row ∷ []) second_row voided _
      true refl stuck_there refl (λ e. ground (arith, e)) refl refl refl

failed_only_unsent_example :
    (stuck.state ≡ settling)
    × (last_sent (last_broadcast stuck.id stuck_world.broadcasts) ≡ not_sent)
    × (void_answer stuck_world.journal
          (append one_hash no_stamp stuck_world.journal (void_entry stuck))
        ≡ ok given_up.journal)
    × (write stuck (fail_request sent_turn) ≡ write stuck (fail_request sent_turn))
unfolding write
failed_only_unsent_example =
    failed_only_unsent one_hash no_stamp sent_turn stuck (write stuck (fail_request sent_turn))
      stuck_world stuck_there (λ e. ground (arith, e)) failed_on_last_row_example.1 refl
