-- ===== src/Relayer/Ship.antt =====
-- backend/internal/relayer/relayer.go: the way of an authorized intent through settling, the hold
-- and the sender to confirming. `it` is the intent as it was read, which may be stale by now.
use stablecoin_settlement_en.Common.{
  ℕ, Bool, true, false, Option, none, some, [], ◌∷◌, ◌++◌, if◌then◌else◌, not, Bytes, str, Bytes-eq,
  Result, ok, err,
}
use stablecoin_settlement_en.Common.Int.{ℤ, pos, ◌-ℤ◌}
use stablecoin_settlement_en.Intent.State.{relayer, settling, confirming}
use stablecoin_settlement_en.Intent.Machine.{Intent, Request, apply, version_conflict}
use stablecoin_settlement_en.Intent.Machine as Machine
use stablecoin_settlement_en.Intent.Store.{save}
use stablecoin_settlement_en.Ledger.Entry.{Entry, hold, payer_account, merchant_account}
use stablecoin_settlement_en.Ledger.Journal.{append, zero_hash}
use stablecoin_settlement_en.Txseq.{Reservation, Sent, sent, not_sent, unknown, reserve, resolve}
use stablecoin_settlement_en.Fee.{Fee}
use stablecoin_settlement_en.Relayer.World.{
  add_broadcast, CallKind, send, World, plain, ordered, replacing, hash, failure, at_settling,
  at_record, at_confirming, no_note, throttled, no_slot, lost_race, send_failed, Turn, sent_out,
  retry, Report, report, Error, from_intent, from_ledger, nil_amount, Setup,
}

-- `holdEntry`.
unfoldable pub hold_id : Bytes → Bytes
hold_id id = id ++ str "/hold"

unfoldable pub hold_entry : Intent → ℤ → Entry
unfolding hold_id
hold_entry it amount = record {
  id = hold_id it.id;
  ref = it.ref;
  kind = hold;
  holds = [];
  asset = record { chain = it.chain; token = it.token };
  legs =
      record { account = payer_account it.payer; amount = pos 0 -ℤ amount }
      ∷ record { account = merchant_account it.merchant; amount = amount }
      ∷ [];
  by = str "relayer";
  at = it.updated_at;
  tx_hash = [];
  memo = [];
  seq = 0;
  prev_hash = zero_hash;
  hash = zero_hash;
}

-- The reservation of a chain that numbers nothing.
abbrev pub no_reservation : Reservation
no_reservation = record { account = []; value = 0; ordered = false; fill = false }

-- `record`.
unfoldable pub record_call : Turn → Intent → Reservation → Fee → Bytes → Sent → World → World
record_call t it res fee tx_hash s w = record w {
  broadcasts =
      add_broadcast
        (record {
          intent_id = it.id;
          account = res.account;
          nonce = res.value;
          ordered = res.ordered;
          fill = res.fill;
          fee = fee;
          tx_hash = tx_hash;
          sent = s;
          at = t.clock at_record;
        })
        w.broadcasts;
}

-- The sender is called.
unfoldable pub call : CallKind → Intent → Reservation → Option Fee → World → World
call k it res fee w = record w {
  calls = w.calls ++ record { kind = k; intent_id = it.id; slot = res; fee = fee } ∷ [];
}

-- How a failed call leaves its number.
abbrev pub failed_sent : Bool → Sent
failed_sent never_left = if never_left then not_sent else unknown

-- The deferred `Resolve`, whose error is dropped.
unfoldable pub close_slot : Reservation → Sent → World → World
close_slot res s w = elim (resolve res s w.counter) [ err e ↦ w | ok c ↦ record w { counter = c } ]

abbrev pub Shipped : Type 0
Shipped = World × Sent × Result Error Report

unfoldable pub close_shipped : Reservation → Shipped → World × Result Error Report
unfolding close_slot
close_shipped res (w, s, r) = (close_slot res s w, r)

-- A lost swap is tried again, another error is passed on.
unfoldable pub lost_report : Machine.Error → Result Error Report
lost_report version_conflict = ok (report retry lost_race)
lost_report e = err (from_intent e)

unfoldable pub confirm_report : Bytes → Result Machine.Error Intent → Result Error Report
confirm_report h (err e) = err (from_intent e)
confirm_report h (ok x) =
    ok (record { outcome = sent_out; tx_hash = h; note = no_note; poison = false })

module _ (sha256 : Bytes → Bytes) where
  -- The write of `advance`, when `Apply` answered.
  unfoldable pub store_applied :
      Intent → World → Result Machine.Error (Intent × Bool) → World × Result Machine.Error Intent
  store_applied it w (err e) = (w, err e)
  store_applied it w (ok (x, false)) = (w, ok x)
  store_applied it w (ok (x, true)) = elim (save sha256 w.intents x it.version) [
    | err e ↦ (w, err e)
    | ok s ↦ (record w { intents = s }, ok x)
  ]

  -- `advance`.
  unfoldable pub advance : Intent → Request → World → World × Result Machine.Error Intent
  unfolding store_applied
  advance it req w = store_applied it w (apply it req)

  -- The transaction is on its way: the intent goes to confirming.
  unfoldable pub confirm_sent : Turn → Intent → Bytes → World → Shipped
  unfolding confirm_report advance
  confirm_sent t it h w =
      let (w', r) =
        advance it
          (record {
            to = confirming;
            by = relayer;
            tx_hash = h;
            reason = [];
            at = t.clock at_confirming;
          })
          w in
      (w', sent, confirm_report h r)

  -- The call of the sender, and what follows it.
  unfoldable pub send_out : Setup → Turn → Intent → Reservation → World → Shipped
  unfolding call record_call confirm_sent
  send_out u t it res w =
      let w' = call send it res none w in
      elim t.answer [
        | hash h ↦ confirm_sent t it h (record_call t it res u.fee.base h sent w')
        | failure never_left p ↦ (
          record_call t it res u.fee.base [] (failed_sent never_left) w',
          failed_sent never_left,
          ok (record { outcome = retry; tx_hash = []; note = send_failed; poison = p }),
        )
      ]

module _ (sha256 : Bytes → Bytes) (stamp : ℕ → Bytes) where
  -- The hold is written before the sender is called.
  unfoldable pub hold_and_send : Setup → Turn → Intent → Reservation → World → Shipped
  unfolding hold_entry send_out
  hold_and_send u t it res w = elim it.amount [
    | none ↦ (w, not_sent, err nil_amount)
    | some a ↦ elim (append sha256 stamp w.journal (hold_entry it a)) [
      | err e ↦ (w, not_sent, err (from_ledger e))
      | ok (j, e, b) ↦ send_out sha256 u t it res (record w { journal = j })
    ]
  ]

  -- The answer to the step into settling.
  unfoldable pub after_settling :
      Setup → Turn → Reservation → World × Result Machine.Error Intent → Shipped
  unfolding hold_and_send lost_report
  after_settling u t res (w, err e) = (w, not_sent, lost_report e)
  after_settling u t res (w, ok it) = hold_and_send u t it res w

  -- From the step into settling on, with a reservation.
  unfoldable pub ship : Setup → Turn → Intent → Reservation → World → Shipped
  unfolding advance after_settling
  ship u t it res w = after_settling u t res (
      advance sha256 it
        (record {
          to = settling;
          by = relayer;
          tx_hash = [];
          reason = [];
          at = t.clock at_settling;
        })
        w)

  -- With a number of the account's line, which is given back or spent in the end.
  unfoldable pub ship_ordered : Setup → Turn → Bytes → Intent → World → World × Result Error Report
  unfolding ship close_shipped
  ship_ordered u t account it w =
      let (c, r) = reserve account t.turn w.counter in
      let w' = record w { counter = c } in
      elim r [
        | err e ↦ (w', ok (report retry no_slot))
        | ok res ↦ close_shipped res (ship u t it res w')
      ]

  -- The case `StateAuthorized` of `process`.
  unfoldable pub process_authorized : Setup → Turn → Intent → World → World × Result Error Report
  unfolding ship_ordered
  process_authorized u t it w =
      if not t.granted then (w, ok (report retry throttled)) else elim u.sender [
        | plain ↦ let (w', s, r) = ship u t it no_reservation w in (w', r)
        | ordered account ↦ ship_ordered u t (account it) it w
        | replacing account ↦ ship_ordered u t (account it) it w
      ]
