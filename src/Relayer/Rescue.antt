-- ===== src/Relayer/Rescue.antt =====
-- backend/internal/relayer/replace.go: what is done about an intent that is stuck in settling.
-- An age is not below zero: a clock that is behind the intent's `UpdatedAt` counts as no time.
use stablecoin_settlement_en.Common.{
  ℕ, ◌-◌, Bool, true, false, Option, none, some, [], if◌then◌else◌, not, Bytes, Bytes-eq, Result,
  ok, err,
}
use stablecoin_settlement_en.Intent.State.{relayer, confirming, needs_review}
use stablecoin_settlement_en.Intent.Machine.{Intent, version_conflict}
use stablecoin_settlement_en.Intent.Machine as Machine
use stablecoin_settlement_en.Txseq.{
  Reservation, Sent, Counter, sent, unknown, no_gap, reserve, reserve_gap,
}
use stablecoin_settlement_en.Txseq as Txseq
use stablecoin_settlement_en.Fee.{Fee, Kind, Stuck, Plan, decide, wait, speed_up}
use stablecoin_settlement_en.Fee as Fees
use stablecoin_settlement_en.Relayer.World.{
  last_broadcast, Broadcast, CallKind, replace, cancel, World, replacing, hash, failure,
  at_confirming, at_rescue, at_review, throttled, no_slot, lost_race, send_failed, waiting,
  above_ceiling, outcome_unknown, nothing_to_clear, slot_cleared, replaced_at, Note, Turn, retry,
  review, replaced, cleared, Report, report, Error, from_intent, nil_amount, Setup,
}
use stablecoin_settlement_en.Relayer.Ship.{
  Shipped, advance, record_call, call, failed_sent, close_shipped, lost_report,
}

-- A stuck payment with no broadcast on record counts as sent once, outcome unknown.
unfoldable pub stuck_of : Setup → Turn → Intent → Option (Broadcast × ℕ) → Stuck
stuck_of u t it none = record {
  sent = unknown;
  fee = u.fee.base;
  tries = 1;
  age = t.clock at_rescue - it.updated_at;
  stuck_after = u.config.stuck_after;
}
stuck_of u t it (some (b, n)) = record {
  sent = b.sent;
  fee = b.fee;
  tries = n;
  age = t.clock at_rescue - it.updated_at;
  stuck_after = u.config.stuck_after;
}

-- Whether `reserveFor` takes a new number after its try at the gap.
unfoldable pub take_new : Fees.Kind → Result Txseq.Error Reservation → Bool
take_new speed_up (err no_gap) = true
take_new wait (err no_gap) = true
take_new Fees.review (err no_gap) = true
take_new _ r = false

-- `reserveFor`.
unfoldable pub reserve_for :
    Turn → Bytes → Fees.Kind → Counter → Counter × Result Txseq.Error Reservation
unfolding take_new
reserve_for t account k c =
    let (c', r) = reserve_gap account t.turn c in
    if take_new k r then reserve account t.turn_again c' else (c', r)

unfoldable pub call_kind : Fees.Kind → CallKind
call_kind Fees.cancel = cancel
call_kind _ = replace

unfoldable pub review_answer : Result Machine.Error Intent → Result Machine.Error (Option Intent)
review_answer (err version_conflict) = ok none
review_answer (err e) = err e
review_answer (ok it) = ok (some it)

unfoldable pub review_report : Note → Result Machine.Error (Option Intent) → Result Error Report
review_report n (err e) = err (from_intent e)
review_report n (ok none) = ok (report retry lost_race)
review_report n (ok (some x)) = ok (report review n)

unfoldable pub clear_report : Bytes → Result Machine.Error (Option Intent) → Result Error Report
clear_report h (err e) = err (from_intent e)
clear_report h (ok o) =
    ok (record { outcome = cleared; tx_hash = h; note = slot_cleared; poison = false })

unfoldable pub replace_report : Bytes → Result Machine.Error Intent → Result Error Report
unfolding lost_report
replace_report h (err e) = lost_report e
replace_report h (ok it) =
    ok (record { outcome = replaced; tx_hash = h; note = replaced_at; poison = false })

module _ (sha256 : Bytes → Bytes) where
  -- `reviewIntent`: whether the swap was lost, and the intent that was stored.
  unfoldable pub review_intent :
      Turn → Intent → Bytes → World → World × Result Machine.Error (Option Intent)
  unfolding review_answer advance
  review_intent t it reason w =
      let (w', r) =
        advance sha256 it
          (record {
            to = needs_review;
            by = relayer;
            tx_hash = [];
            reason = reason;
            at = t.clock at_review;
          })
          w in
      (w', review_answer r)

  -- `review`.
  unfoldable pub send_to_review : Turn → Intent → Note → World → World × Result Error Report
  unfolding review_intent review_report
  send_to_review t it n w = let (w', r) = review_intent t it (t.text n) w in (w', review_report n r)

  -- The no-op transaction is on its way; the payment's outcome is not known.
  unfoldable pub clear_sent : Turn → Intent → Bytes → World → Shipped
  unfolding review_intent clear_report
  clear_sent t it h w =
      let (w', r) = review_intent t it (t.text slot_cleared) w in (w', sent, clear_report h r)

  -- The replacement is on its way: the intent goes to confirming.
  unfoldable pub replace_sent : Turn → Intent → Bytes → World → Shipped
  unfolding replace_report advance
  replace_sent t it h w =
      let (w', r) =
        advance sha256 it
          (record {
            to = confirming;
            by = relayer;
            tx_hash = h;
            reason = [];
            at = t.clock at_confirming;
          })
          w in
      (w', sent, replace_report h r)

  -- The call of the sender with the planned fee, and what follows it.
  unfoldable pub send_again : Turn → Intent → Plan → Reservation → World → Shipped
  unfolding call record_call clear_sent replace_sent call_kind
  send_again t it p res w =
      let w' = call (call_kind p.kind) it res (some p.fee) w in
      elim t.answer [
        | failure never_left poison ↦ (
          record_call t it res p.fee [] (failed_sent never_left) w',
          failed_sent never_left,
          ok (record { outcome = retry; tx_hash = []; note = send_failed; poison = poison }),
        )
        | hash h ↦ elim p.kind [
          | Fees.cancel ↦ clear_sent t it h (record_call t it res p.fee h sent w')
          | _ ↦ replace_sent t it h (record_call t it res p.fee h sent w')
        ]
      ]

  -- Behind `reserveFor`.
  unfoldable pub with_slot :
      Turn → Intent → Plan → World → Result Txseq.Error Reservation → World × Result Error Report
  unfolding send_again close_shipped send_to_review
  with_slot t it p w (err no_gap) = send_to_review t it nothing_to_clear w
  with_slot t it p w (err e) = (w, ok (report retry no_slot))
  with_slot t it p w (ok res) = close_shipped res (send_again t it p res w)

  -- With a sender that can replace.
  unfoldable pub replace_stuck : Turn → Bytes → Intent → Plan → World → World × Result Error Report
  unfolding with_slot reserve_for
  replace_stuck t account it p w =
      if not t.granted
      then (w, ok (report retry throttled))
      else let (c, r) = reserve_for t account p.kind w.counter in
        with_slot t it p (record w { counter = c }) r

  unfoldable pub try_replace : Setup → Turn → Intent → Plan → World → World × Result Error Report
  unfolding replace_stuck send_to_review
  try_replace u t it p w = elim u.sender [
    | replacing account ↦ replace_stuck t (account it) it p w
    | _ ↦ send_to_review t it outcome_unknown w
  ]

  -- `switch plan.Kind` and what follows.
  unfoldable pub follow_plan :
      Setup → Turn → Intent → World → Result Fees.Error Plan → World × Result Error Report
  unfolding try_replace send_to_review
  follow_plan u t it w (err e) = (w, err nil_amount)
  follow_plan u t it w (ok p) = elim p.kind [
    | Fees.wait ↦ (w, ok (report retry waiting))
    | Fees.review ↦ send_to_review t it above_ceiling w
    | _ ↦ try_replace u t it p w
  ]

  -- `rescue`.
  unfoldable pub rescue : Setup → Turn → Intent → World → World × Result Error Report
  unfolding follow_plan stuck_of last_broadcast
  rescue u t it w =
      follow_plan u t it w (decide u.fee (stuck_of u t it (last_broadcast it.id w.broadcasts)))
