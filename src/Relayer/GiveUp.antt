-- ===== src/Relayer/GiveUp.antt =====
-- backend/internal/relayer/poison.go: what becomes of a payment whose job is given up, and of the job.
use stablecoin_settlement_en.Common.{
  ℕ, Bool, true, false, Option, none, some, [], ◌++◌, if◌then◌else◌, not, Bytes, str, Bytes-eq,
  Result, ok, err,
}
use stablecoin_settlement_en.Intent.State.{relayer, settling, failed, state_eq}
use stablecoin_settlement_en.Intent.Machine.{Intent, version_conflict, not_found}
use stablecoin_settlement_en.Intent.Machine as Machine
use stablecoin_settlement_en.Intent.Store.{get}
use stablecoin_settlement_en.Ledger.Entry.{Entry, void, no_such_hold, already_resolved}
use stablecoin_settlement_en.Ledger.Entry as Entries
use stablecoin_settlement_en.Ledger.Journal.{Journal, append, zero_hash}
use stablecoin_settlement_en.Queue.{Delivery}
use stablecoin_settlement_en.Txseq.{Sent, not_sent, unknown}
use stablecoin_settlement_en.Deadletter as Dlq
use stablecoin_settlement_en.Relayer.World.{
  Broadcast, last_broadcast, World, Turn, Report, report, retry, poison, at_failed, at_park,
  intent_missing, job_dropped, lost_race, gave_up_review, gave_up_failed, Error, from_intent,
  from_ledger, from_dead, state_text,
}
use stablecoin_settlement_en.Relayer.Ship.{advance, hold_id}
use stablecoin_settlement_en.Relayer.Rescue.{review_intent}

unfoldable pub void_id : Bytes → Bytes
void_id id = id ++ str "/void"

-- `voidEntry`.
unfoldable pub void_entry : Intent → Entry
unfolding void_id
void_entry it = record {
  id = void_id it.id;
  ref = it.ref;
  kind = void;
  holds = hold_id it.id;
  asset = record { chain = it.chain; token = it.token };
  legs = [];
  by = str "relayer";
  at = it.updated_at;
  tx_hash = [];
  memo = str "nothing was broadcast, releasing the hold";
  seq = 0;
  prev_hash = zero_hash;
  hash = zero_hash;
}

-- How the last broadcast of an intent was left.
unfoldable pub last_sent : Option (Broadcast × ℕ) → Sent
last_sent none = unknown
last_sent (some (b, n)) = b.sent

unfoldable pub was_not_sent : Sent → Bool
was_not_sent not_sent = true
was_not_sent _ = false

unfoldable pub reviewed_report :
    Result Machine.Error (Option Intent) → Result Error (Report × Bytes)
reviewed_report (err e) = err (from_intent e)
reviewed_report (ok none) = ok (report retry lost_race, [])
reviewed_report (ok (some x)) = ok (report poison gave_up_review, state_text x.state)

unfoldable pub fail_report : Result Machine.Error Intent → Result Error (Report × Bytes)
fail_report (err version_conflict) = ok (report retry lost_race, [])
fail_report (err e) = err (from_intent e)
fail_report (ok x) = ok (report poison gave_up_failed, state_text x.state)

-- The errors of the void that are passed over, with the journal as it was.
unfoldable pub void_answer :
    Journal → Result Entries.Error (Journal × Entry × Bool) → Result Entries.Error Journal
void_answer j (ok (j', e, b)) = ok j'
void_answer j (err no_such_hold) = ok j
void_answer j (err already_resolved) = ok j
void_answer j (err e) = err e

abbrev pub GivenUp : Type 0
GivenUp = World × Result Error (Report × Bytes)

module _ (sha256 : Bytes → Bytes) (stamp : ℕ → Bytes) where
  -- Something may be on the chain.
  unfoldable pub give_to_review : Turn → Intent → World → GivenUp
  unfolding review_intent reviewed_report
  give_to_review t it w =
      let (w', r) = review_intent sha256 t it (t.text gave_up_review) w in (w', reviewed_report r)

  -- Nothing was sent: the hold is released, and then the intent fails.
  unfoldable pub give_to_failed : Turn → Intent → World → GivenUp
  unfolding void_entry void_answer fail_report advance
  give_to_failed t it w =
      elim (void_answer w.journal (append sha256 stamp w.journal (void_entry it))) [
        | err e ↦ (w, err (from_ledger e))
        | ok j ↦
            let (w', r) =
              advance sha256 it
                (record {
                  to = failed;
                  by = relayer;
                  tx_hash = [];
                  reason = t.text gave_up_failed;
                  at = t.clock at_failed;
                })
                (record w { journal = j }) in
            (w', fail_report r)
      ]

  -- `giveUp` for an intent that was found.
  unfoldable pub give_up_intent : Turn → Intent → World → GivenUp
  unfolding give_to_review give_to_failed was_not_sent last_sent last_broadcast
  give_up_intent t it w =
      if not (state_eq it.state settling)
      then (w, ok (report poison job_dropped, state_text it.state))
      else if was_not_sent (last_sent (last_broadcast it.id w.broadcasts))
      then give_to_failed t it w
      else give_to_review t it w

  -- `giveUp`: the report, and the state that goes on the note.
  unfoldable pub give_up : Turn → Delivery → World → GivenUp
  unfolding give_up_intent get
  give_up t d w = elim (get w.intents d.job.intent_id) [
    | err not_found ↦ (w, ok (report poison intent_missing, str "-"))
    | err e ↦ (w, err (from_intent e))
    | ok it ↦ give_up_intent t it w
  ]

  -- The note that is parked.
  unfoldable pub note_of : Turn → Delivery → Report → Bytes → Dlq.Record
  note_of t d r state = record {
    job = d.job;
    attempts = d.attempt;
    reason = t.text r.note;
    intent_state = state;
    cycles = 0;
    status = Dlq.odd [];
    parked_at = 0;
    resolved_by = [];
    resolved_at = 0;
  }

  unfoldable pub park_note : Turn → Delivery → Report → Bytes → World → World × Result Error Report
  unfolding note_of
  park_note t d r state w = elim (Dlq.park (note_of t d r state) (t.clock at_park) w.dead) [
    | err e ↦ (w, err (from_dead e))
    | ok (s, b) ↦ (record w { dead = s }, ok r)
  ]

  -- Only a report of poison is parked.
  unfoldable pub park_poison : Turn → Delivery → GivenUp → World × Result Error Report
  unfolding park_note
  park_poison t d (w, err e) = (w, err e)
  park_poison t d (w, ok (r, state)) = elim r.outcome [
    | poison ↦ park_note t d r state w
    | _ ↦ (w, ok r)
  ]

  -- `poison`.
  unfoldable pub poison_job : Turn → Delivery → World → World × Result Error Report
  unfolding park_poison give_up
  poison_job t d w = park_poison t d (give_up t d w)
