-- ===== src/Relayer/Process.antt =====
-- backend/internal/relayer/relayer.go: what the process of a job leaves alone.
use stablecoin_settlement_en.Common.{
  ℕ, refl, ap, inl, inr, Bool, true, false, arith, if◌then◌else◌, not, Bytes, Bytes-eq, Result, ok,
  err, Result-cases,
}
use stablecoin_settlement_en.Intent.State.{State, created, authorized, settling}
use stablecoin_settlement_en.Intent.Machine.{Intent, Request, not_found, version_conflict}
use stablecoin_settlement_en.Intent.Machine as Machine
use stablecoin_settlement_en.Intent.Store.{get}
use stablecoin_settlement_en.Txseq.{Reservation, reserve}
use stablecoin_settlement_en.Queue.{Delivery}
use stablecoin_settlement_en.Relayer.World.{
  World, Setup, Turn, Report, report, Error, Sender, plain, ordered, replacing, retry, throttled,
  not_authorized, no_op, already, intent_missing, from_intent,
}
use stablecoin_settlement_en.Relayer.Ship.{
  advance, ship, ship_ordered, close_shipped, process_authorized, no_reservation,
}
use stablecoin_settlement_en.Relayer.Rescue.{rescue}
use stablecoin_settlement_en.Relayer.Worker.{report_of, process_intent, process}
use stablecoin_settlement_en.Relayer.Steps.{advance_frame}
use stablecoin_settlement_en.Relayer.Ships.{
  settle_request, ship-refused, ship-settled, hold_and_send-cases,
}
use stablecoin_settlement_en.Relayer.Sends.{ship_ordered-reserved, ship_ordered-unreserved}
use stablecoin_settlement_en.Relayer.Tame.{
  Tame, untouched, behind, lost_report-Proper, advance-Tame, send_out-Tame, close_shipped-Tame,
  follow_plan-Tame,
}

module _ (sha256 : Bytes → Bytes) (stamp : ℕ → Bytes) where
  ship-Tame :
      (u : Setup) (t : Turn) (it : Intent) (res : Reservation) (w : World)
      → Tame w (ship sha256 stamp u t it res w).0 (ship sha256 stamp u t it res w).2
  unfolding report_of
  ship-Tame u t it res w =
      let (s, f) = advance_frame sha256 it (settle_request t) w in
      let v = (advance sha256 it (settle_request t) w).0 in
      elim (Result-cases (advance sha256 it (settle_request t) w).1) [
        | inr (e, g) ↦
            rw (ship-refused sha256 stamp u t it res w v e (ap (λ r. (v, r)) g))
              (advance-Tame sha256 it (settle_request t) w _ (lost_report-Proper e))
        | inl (x, g) ↦
            behind w v _ _ (ap (λ (o : World). o.queue) f) (ap (λ (o : World). o.dead) f) (
              rw (ship-settled sha256 stamp u t it x res w v (ap (λ r. (v, r)) g))
                (elim (hold_and_send-cases sha256 stamp u t x res v) [
                  | inl (e, h) ↦ rw h (untouched v (err e) (λ p. ground (arith, p)))
                  | inr (a, j, e, b, m, k, h) ↦ rw h (
                      behind v (record v { journal = j }) _ _ refl refl
                        (send_out-Tame sha256 u t x res (record v { journal = j })))
                ]))
      ]

  ship_ordered-Tame :
      (u : Setup) (t : Turn) (account : Bytes) (it : Intent) (w : World)
      → Tame w
          (ship_ordered sha256 stamp u t account it w).0
          (ship_ordered sha256 stamp u t account it w).1
  unfolding report_of close_shipped
  ship_ordered-Tame u t account it w =
      let v = record w { counter = (reserve account t.turn w.counter).0 } in
      elim (Result-cases (reserve account t.turn w.counter).1) [
        | inr (e, f) ↦
            rw (ship_ordered-unreserved sha256 stamp u t account it w e f)
              (behind w v v _ refl refl (untouched v _ (λ e. ground (arith, e))))
        | inl (res, f) ↦ rw (ship_ordered-reserved sha256 stamp u t account it w res f) (
            behind w v _ _ refl refl (
              close_shipped-Tame sha256 v res (ship sha256 stamp u t it res v)
                (ship-Tame u t it res v)))
      ]

  process_authorized-Tame :
      (u : Setup) (t : Turn) (it : Intent) (w : World)
      → Tame w
          (process_authorized sha256 stamp u t it w).0
          (process_authorized sha256 stamp u t it w).1
  unfolding process_authorized report_of
  process_authorized-Tame u t it w = by_grant t.granted u.sender
    where
      by_grant :
          (b : Bool) (n : Sender)
          → let q : World × Result Error Report =
              if not b then (w, ok (report retry throttled)) else elim n [
                | plain ↦ let (w', s, r) = ship sha256 stamp u t it no_reservation w in (w', r)
                | ordered account ↦ ship_ordered sha256 stamp u t (account it) it w
                | replacing account ↦ ship_ordered sha256 stamp u t (account it) it w
              ] in
            Tame w q.0 q.1
      by_grant false n = untouched w _ (λ e. ground (arith, e))
      by_grant true plain = ship-Tame u t it no_reservation w
      by_grant true (ordered account) = ship_ordered-Tame u t (account it) it w
      by_grant true (replacing account) = ship_ordered-Tame u t (account it) it w

  process_intent-Tame :
      (u : Setup) (t : Turn) (it : Intent) (w : World)
      → Tame w (process_intent sha256 stamp u t it w).0 (process_intent sha256 stamp u t it w).1
  unfolding process_intent rescue report_of
  process_intent-Tame u t it w = by_state it.state
    where
      by_state :
          (s : State)
          → let q : World × Result Error Report = elim s [
            | created ↦ (w, ok (report retry not_authorized))
            | authorized ↦ process_authorized sha256 stamp u t it w
            | settling ↦ rescue sha256 u t it w
            | _ ↦ (w, ok (report no_op already))
          ] in
            Tame w q.0 q.1
      by_state created = untouched w _ (λ e. ground (arith, e))
      by_state authorized = process_authorized-Tame u t it w
      by_state settling = follow_plan-Tame sha256 u t it w _
      by_state _ = untouched w _ (λ e. ground (arith, e))

  -- The process of a job touches neither the queue nor the dead letters.
  pub process-Tame :
      (u : Setup) (t : Turn) (d : Delivery) (w : World)
      → Tame w (process sha256 stamp u t d w).0 (process sha256 stamp u t d w).1
  unfolding process report_of
  process-Tame u t d w = by_intent (get w.intents d.job.intent_id)
    where
      by_intent :
          (r : Result Machine.Error Intent)
          → let q : World × Result Error Report = elim r [
            | err not_found ↦ (w, ok (report no_op intent_missing))
            | err e ↦ (w, err (from_intent e))
            | ok it ↦ process_intent sha256 stamp u t it w
          ] in
            Tame w q.0 q.1
      by_intent (ok it) = process_intent-Tame u t it w
      by_intent (err not_found) = untouched w _ (λ e. ground (arith, e))
      by_intent (err _) = untouched w _ (λ e. ground (arith, e))
