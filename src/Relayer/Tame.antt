-- ===== src/Relayer/Tame.antt =====
-- backend/internal/relayer: what the ways of a payment to the sender leave alone.
use stablecoin_settlement_en.Common.{
  ◌≡◌, refl, ap, ◌∙◌, ◌≢◌, inl, inr, Option, none, some, arith, Bool-cases, Bytes, Bytes-eq, Result,
  ok, err,
}
use stablecoin_settlement_en.Intent.Machine.{Intent, Request, not_found, version_conflict}
use stablecoin_settlement_en.Intent.Machine as Machine
use stablecoin_settlement_en.Txseq
use stablecoin_settlement_en.Txseq.{
  Reservation, Sent, Counter, reserve, reserve_gap, sent, not_sent, unknown, no_gap, gap_open,
  stale, busy, context_done,
}
use stablecoin_settlement_en.Fee as Fees
use stablecoin_settlement_en.Fee.{Plan, Kind, decide, wait, speed_up}
use stablecoin_settlement_en.Relayer.World.{
  World, Setup, Turn, Report, report, Error, Sender, plain, ordered, replacing, poison, retry, send,
  waiting, Note, nothing_to_clear, outcome_unknown, above_ceiling,
}
use stablecoin_settlement_en.Relayer.Ship.{
  Shipped, advance, confirm_sent, confirm_report, send_out, close_shipped, record_call, call,
  lost_report,
}
use stablecoin_settlement_en.Relayer.Rescue.{
  call_kind, review_intent, review_report, send_to_review, clear_sent, clear_report, replace_sent,
  replace_report, send_again, with_slot, reserve_for, replace_stuck, try_replace, follow_plan,
}
use stablecoin_settlement_en.Relayer.Worker.{report_of}
use stablecoin_settlement_en.Relayer.Steps.{advance_frame}
use stablecoin_settlement_en.Relayer.Ships.{Answer-cases}
use stablecoin_settlement_en.Relayer.Sends.{close_slot_frame}

-- Neither the queue nor the dead letters changed, and the report is not one of poison.
pub record Tame (w v : World) (r : Result Error Report) : Type 0 where
  pub same_queue : v.queue ≡ w.queue
  pub same_dead : v.dead ≡ w.dead
  pub proper : (report_of r).outcome ≢ poison

pub untouched : (w : World) (r : Result Error Report) → (report_of r).outcome ≢ poison → Tame w w r
untouched w r p = record { same_queue = refl; same_dead = refl; proper = p }

-- A turn behind another change that leaves the queue and the dead letters alone.
pub behind :
    (w v o : World) (r : Result Error Report)
    → v.queue ≡ w.queue
    → v.dead ≡ w.dead
    → Tame v o r
    → Tame w o r
behind w v o r q d g = record {
  same_queue = g.same_queue ∙ q;
  same_dead = g.same_dead ∙ d;
  proper = g.proper;
}

abbrev Proper : Result Error Report → Type 0
Proper r = (report_of r).outcome ≢ poison

pub lost_report-Proper : (e : Machine.Error) → Proper (lost_report e)
unfolding lost_report report_of
lost_report-Proper e = λ p. ground (arith, p)

confirm_report-Proper : (h : Bytes) (x : Result Machine.Error Intent) → Proper (confirm_report h x)
unfolding confirm_report report_of
confirm_report-Proper h (err e) = λ p. ground (arith, p)
confirm_report-Proper h (ok x) = λ p. ground (arith, p)

review_report-Proper :
    (n : Note) (x : Result Machine.Error (Option Intent)) → Proper (review_report n x)
unfolding review_report report_of
review_report-Proper n (err e) = λ p. ground (arith, p)
review_report-Proper n (ok none) = λ p. ground (arith, p)
review_report-Proper n (ok (some x)) = λ p. ground (arith, p)

clear_report-Proper :
    (h : Bytes) (x : Result Machine.Error (Option Intent)) → Proper (clear_report h x)
unfolding clear_report report_of
clear_report-Proper h (err e) = λ p. ground (arith, p)
clear_report-Proper h (ok x) = λ p. ground (arith, p)

replace_report-Proper : (h : Bytes) (x : Result Machine.Error Intent) → Proper (replace_report h x)
unfolding replace_report report_of
replace_report-Proper h (err e) = lost_report-Proper e
replace_report-Proper h (ok x) = λ p. ground (arith, p)

module _ (sha256 : Bytes → Bytes) where
  -- A step of the intent, whatever is reported of it.
  pub advance-Tame :
      (it : Intent) (req : Request) (w : World) (r : Result Error Report)
      → Proper r
      → Tame w (advance sha256 it req w).0 r
  advance-Tame it req w r p =
      let (s, f) = advance_frame sha256 it req w in
      record {
        same_queue = ap (λ (v : World). v.queue) f;
        same_dead = ap (λ (v : World). v.dead) f;
        proper = p;
      }

  send_to_review-Tame :
      (t : Turn) (it : Intent) (n : Note) (w : World)
      → Tame w (send_to_review sha256 t it n w).0 (send_to_review sha256 t it n w).1
  unfolding send_to_review review_intent
  send_to_review-Tame t it n w = advance-Tame it _ w _ (review_report-Proper n _)

  confirm_sent-Tame :
      (t : Turn) (it : Intent) (h : Bytes) (w : World)
      → Tame w (confirm_sent sha256 t it h w).0 (confirm_sent sha256 t it h w).2
  unfolding confirm_sent
  confirm_sent-Tame t it h w = advance-Tame it _ w _ (confirm_report-Proper h _)

  clear_sent-Tame :
      (t : Turn) (it : Intent) (h : Bytes) (w : World)
      → Tame w (clear_sent sha256 t it h w).0 (clear_sent sha256 t it h w).2
  unfolding clear_sent review_intent
  clear_sent-Tame t it h w = advance-Tame it _ w _ (clear_report-Proper h _)

  replace_sent-Tame :
      (t : Turn) (it : Intent) (h : Bytes) (w : World)
      → Tame w (replace_sent sha256 t it h w).0 (replace_sent sha256 t it h w).2
  unfolding replace_sent
  replace_sent-Tame t it h w = advance-Tame it _ w _ (replace_report-Proper h _)

  pub send_out-Tame :
      (u : Setup) (t : Turn) (it : Intent) (res : Reservation) (w : World)
      → Tame w (send_out sha256 u t it res w).0 (send_out sha256 u t it res w).2
  unfolding send_out record_call call report_of
  send_out-Tame u t it res w = elim (Answer-cases t.answer) [
    | inr (n, q, a) ↦
        rw (send_out, a)
          (record { same_queue = refl; same_dead = refl; proper = λ e. ground (arith, e) })
    | inl (h, a) ↦
        let s = record_call t it res u.fee.base h sent (call send it res none w) in
        rw (send_out, a) (behind w s _ _ refl refl (confirm_sent-Tame t it h s))
  ]

  send_again-Tame :
      (t : Turn) (it : Intent) (p : Plan) (res : Reservation) (w : World)
      → Tame w (send_again sha256 t it p res w).0 (send_again sha256 t it p res w).2
  unfolding send_again record_call call report_of
  send_again-Tame t it p res w = elim (Answer-cases t.answer) [
    | inr (n, q, a) ↦
        rw (send_again, a)
          (record { same_queue = refl; same_dead = refl; proper = λ e. ground (arith, e) })
    | inl (h, a) ↦
        let s = record_call t it res p.fee h sent (call (call_kind p.kind) it res (some p.fee) w) in
        rw (send_again, a) (behind w s _ _ refl refl (by_kind h s p.kind))
  ]
    where
      by_kind :
          (h : Bytes) (s : World) (k : Kind)
          → let q : Shipped = elim k [
            | Fees.cancel ↦ clear_sent sha256 t it h s
            | _ ↦ replace_sent sha256 t it h s
          ] in
            Tame s q.0 q.2
      by_kind h s Fees.cancel = clear_sent-Tame t it h s
      by_kind h s _ = replace_sent-Tame t it h s

  pub close_shipped-Tame :
      (w : World) (res : Reservation) (q : Shipped)
      → Tame w q.0 q.2
      → Tame w (close_shipped res q).0 (close_shipped res q).1
  unfolding close_shipped
  close_shipped-Tame w res (v, s, r) g =
      let (c, f) = close_slot_frame res s v in
      record {
        same_queue = ap (λ (o : World). o.queue) f ∙ g.same_queue;
        same_dead = ap (λ (o : World). o.dead) f ∙ g.same_dead;
        proper = g.proper;
      }

  with_slot-Tame :
      (t : Turn) (it : Intent) (p : Plan) (w : World) (r : Result Txseq.Error Reservation)
      → Tame w (with_slot sha256 t it p w r).0 (with_slot sha256 t it p w r).1
  unfolding with_slot report_of
  with_slot-Tame t it p w (err no_gap) = send_to_review-Tame t it nothing_to_clear w
  with_slot-Tame t it p w (err gap_open) = untouched w _ (λ e. ground (arith, e))
  with_slot-Tame t it p w (err stale) = untouched w _ (λ e. ground (arith, e))
  with_slot-Tame t it p w (err busy) = untouched w _ (λ e. ground (arith, e))
  with_slot-Tame t it p w (err context_done) = untouched w _ (λ e. ground (arith, e))
  with_slot-Tame t it p w (ok res) =
      close_shipped-Tame w res (send_again sha256 t it p res w) (send_again-Tame t it p res w)

  replace_stuck-Tame :
      (t : Turn) (account : Bytes) (it : Intent) (p : Plan) (w : World)
      → Tame w (replace_stuck sha256 t account it p w).0 (replace_stuck sha256 t account it p w).1
  unfolding replace_stuck report_of
  replace_stuck-Tame t account it p w = elim (Bool-cases t.granted) [
    | inr f ↦ rw (replace_stuck, f) (untouched w _ (λ e. ground (arith, e)))
    | inl f ↦
        let (c, r) = reserve_for t account p.kind w.counter in
        rw (replace_stuck, f)
          (behind w (record w { counter = c }) _ _ refl refl
            (with_slot-Tame t it p (record w { counter = c }) r))
  ]

  try_replace-Tame :
      (u : Setup) (t : Turn) (it : Intent) (p : Plan) (w : World)
      → Tame w (try_replace sha256 u t it p w).0 (try_replace sha256 u t it p w).1
  unfolding try_replace
  try_replace-Tame u t it p w = by_sender u.sender
    where
      by_sender :
          (n : Sender)
          → let q : World × Result Error Report = elim n [
            | replacing account ↦ replace_stuck sha256 t (account it) it p w
            | _ ↦ send_to_review sha256 t it outcome_unknown w
          ] in
            Tame w q.0 q.1
      by_sender plain = send_to_review-Tame t it outcome_unknown w
      by_sender (ordered a) = send_to_review-Tame t it outcome_unknown w
      by_sender (replacing a) = replace_stuck-Tame t (a it) it p w

  pub follow_plan-Tame :
      (u : Setup) (t : Turn) (it : Intent) (w : World) (r : Result Fees.Error Plan)
      → Tame w (follow_plan sha256 u t it w r).0 (follow_plan sha256 u t it w r).1
  unfolding follow_plan report_of
  follow_plan-Tame u t it w (err e) = untouched w _ (λ e. ground (arith, e))
  follow_plan-Tame u t it w (ok p) = by_kind p.kind
    where
      by_kind :
          (k : Kind)
          → let q : World × Result Error Report = elim k [
            | Fees.wait ↦ (w, ok (report retry waiting))
            | Fees.review ↦ send_to_review sha256 t it above_ceiling w
            | _ ↦ try_replace sha256 u t it p w
          ] in
            Tame w q.0 q.1
      by_kind Fees.wait = untouched w _ (λ e. ground (arith, e))
      by_kind Fees.review = send_to_review-Tame t it above_ceiling w
      by_kind _ = try_replace-Tame u t it p w
