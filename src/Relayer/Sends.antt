-- ===== src/Relayer/Sends.antt =====
-- backend/internal/relayer/relayer.go: a payment is sent once, and its hold is in the ledger first.
use stablecoin_settlement_en.Common.{
  ℕ, ◌≡◌, refl, sym, ap, ◌∙◌, ◌≢◌, ◌⊎◌, inl, inr, Bool, true, false, some, [], ◌∷◌, ◌++◌, arith,
  if◌then◌else◌, not, Bytes, Bytes-eq, Result, ok, err, Result-cases,
}
use stablecoin_settlement_en.Common.Int.{ℤ}
use stablecoin_settlement_en.Intent.State.{authorized, settling}
use stablecoin_settlement_en.Intent.Machine.{Intent, write}
use stablecoin_settlement_en.Ledger.Entry.{Entry}
use stablecoin_settlement_en.Ledger.Journal.{append}
use stablecoin_settlement_en.Txseq
use stablecoin_settlement_en.Txseq.{
  Reservation, Sent, sent, not_sent, unknown, Counter, resolve, reserve,
}
use stablecoin_settlement_en.Relayer.World.{
  World, Setup, Turn, Report, Error, report, retry, no_slot, throttled, Sender, plain, ordered,
  replacing,
}
use stablecoin_settlement_en.Relayer.Ship.{
  Shipped, hold_entry, ship, ship_ordered, close_slot, close_shipped, process_authorized,
  no_reservation,
}
use stablecoin_settlement_en.Relayer.Steps.{Moved, advance_stale}
use stablecoin_settlement_en.Relayer.Ships.{
  settle_request, call_of, Onward, Onward-Moved, Called, ship-cases, ship-refused,
}

-- The deferred `Resolve` changes the counter only.
pub close_slot_frame :
    (res : Reservation) (s : Sent) (w : World)
    → (c : Counter) × (close_slot res s w ≡ record w { counter = c })
unfolding close_slot
close_slot_frame res s w = elim (Result-cases (resolve res s w.counter)) [
  | inr (e, f) ↦ (w.counter, simp (close_slot, f))
  | inl (c, f) ↦ (c, simp (close_slot, f))
]

module _ (sha256 : Bytes → Bytes) (stamp : ℕ → Bytes) where
  -- The sender was called for the intent, once: the log says so, the intent has gone on, and the
  -- journal has accepted the hold of the intent in settling.
  pub record Sending (it : Intent) (t : Turn) (w v : World) : Type 0 where
    pub slot : Reservation
    pub logged : v.calls ≡ w.calls ++ call_of it slot ∷ []
    pub onward : Onward it v
    pub amount : ℤ
    pub asked : it.amount ≡ some amount
    pub entry : Entry
    pub applied : Bool
    pub held :
        append sha256 stamp w.journal (hold_entry (write it (settle_request t)) amount)
        ≡ ok (v.journal, entry, applied)

  sending :
      (it : Intent) (t : Turn) (res : Reservation) (w v : World) (s : Sent) (c d : Counter)
      → Called sha256 stamp it t res (record w { counter = c }) v s
      → Sending it t w (record v { counter = d })
  sending it t res w v s c d k = record {
    slot = res;
    logged = k.logged;
    onward = k.onward;
    amount = k.amount;
    asked = k.asked;
    entry = k.entry;
    applied = k.applied;
    held = k.held;
  }

  -- What a worker that got a number does with it, and with the slot in the end.
  pub ship_ordered-reserved :
      (u : Setup) (t : Turn) (account : Bytes) (it : Intent) (w : World) (res : Reservation)
      → (reserve account t.turn w.counter).1 ≡ ok res
      → let q =
          ship sha256 stamp u t it res
            (record w { counter = (reserve account t.turn w.counter).0 }) in
        ship_ordered sha256 stamp u t account it w ≡ (close_slot res q.1 q.0, q.2)
  unfolding ship_ordered close_shipped
  ship_ordered-reserved u t account it w res f = simp (ship_ordered, f)

  pub ship_ordered-unreserved :
      (u : Setup) (t : Turn) (account : Bytes) (it : Intent) (w : World) (e : Txseq.Error)
      → (reserve account t.turn w.counter).1 ≡ err e
      → ship_ordered sha256 stamp u t account it w
        ≡ (record w { counter = (reserve account t.turn w.counter).0 }, ok (report retry no_slot))
  unfolding ship_ordered
  ship_ordered-unreserved u t account it w e f = simp (ship_ordered, f)

  ship_ordered-cases :
      (u : Setup) (t : Turn) (account : Bytes) (it : Intent) (w : World)
      → it.state ≢ settling
      → ((ship_ordered sha256 stamp u t account it w).0.calls ≡ w.calls)
        ⊎ Sending it t w (ship_ordered sha256 stamp u t account it w).0
  ship_ordered-cases u t account it w moves =
      let c = (reserve account t.turn w.counter).0 in
      elim (Result-cases (reserve account t.turn w.counter).1) [
        | inr (e, f) ↦ inl (
            ap (λ (p : World × Result Error Report). p.0.calls)
              (ship_ordered-unreserved u t account it w e f))
        | inl (res, f) ↦
            let q = ship sha256 stamp u t it res (record w { counter = c }) in
            let (d, frame) = close_slot_frame res q.1 q.0 in
            let ends : (ship_ordered sha256 stamp u t account it w).0 ≡ record q.0 { counter = d } =
              ap (λ (p : World × Result Error Report). p.0)
                (ship_ordered-reserved u t account it w res f)
              ∙ frame in
            elim (ship-cases sha256 stamp u t it res (record w { counter = c }) moves) [
              | inl (v, r, g, calls, counter) ↦
                  inl (ap (λ (o : World). o.calls) ends ∙ ap (λ (p : Shipped). p.0.calls) g ∙ calls)
              | inr k ↦ inr (rw ends (sending it t res w q.0 q.1 c d k))
            ]
      ]

  plain-cases :
      (u : Setup) (t : Turn) (it : Intent) (w : World)
      → it.state ≢ settling
      → ((ship sha256 stamp u t it no_reservation w).0.calls ≡ w.calls)
        ⊎ Sending it t w (ship sha256 stamp u t it no_reservation w).0
  plain-cases u t it w moves =
      let q = ship sha256 stamp u t it no_reservation w in
      elim (ship-cases sha256 stamp u t it no_reservation w moves) [
        | inl (v, r, g, calls, counter) ↦ inl (ap (λ (p : Shipped). p.0.calls) g ∙ calls)
        | inr k ↦ inr (sending it t no_reservation w q.0 q.1 w.counter q.0.counter k)
      ]

  process_authorized-cases :
      (u : Setup) (t : Turn) (it : Intent) (w : World)
      → it.state ≢ settling
      → ((process_authorized sha256 stamp u t it w).0.calls ≡ w.calls)
        ⊎ Sending it t w (process_authorized sha256 stamp u t it w).0
  unfolding process_authorized
  process_authorized-cases u t it w moves = by_grant t.granted u.sender
    where
      by_grant :
          (b : Bool) (n : Sender)
          → let q : World × Result Error Report =
              if not b then (w, ok (report retry throttled)) else elim n [
                | plain ↦ let (w', s, r) = ship sha256 stamp u t it no_reservation w in (w', r)
                | ordered account ↦ ship_ordered sha256 stamp u t (account it) it w
                | replacing account ↦ ship_ordered sha256 stamp u t (account it) it w
              ] in
            (q.0.calls ≡ w.calls) ⊎ Sending it t w q.0
      by_grant false n = inl refl
      by_grant true plain = plain-cases u t it w moves
      by_grant true (ordered account) = ship_ordered-cases u t (account it) it w moves
      by_grant true (replacing account) = ship_ordered-cases u t (account it) it w moves

  stale_ships_nothing :
      (u : Setup) (t : Turn) (it : Intent) (res : Reservation) (w : World)
      → Moved it w.intents
      → it.state ≢ settling
      → (ship sha256 stamp u t it res w).0 ≡ w
  stale_ships_nothing u t it res w m moves =
      let (e, f) = advance_stale sha256 it (settle_request t) w m moves in
      ap (λ (q : Shipped). q.0) (ship-refused sha256 stamp u t it res w w e f)

  stale_ordered :
      (u : Setup) (t : Turn) (account : Bytes) (it : Intent) (w : World)
      → Moved it w.intents
      → it.state ≢ settling
      → (c : Counter) × ((ship_ordered sha256 stamp u t account it w).0 ≡ record w { counter = c })
  stale_ordered u t account it w m moves =
      let c = (reserve account t.turn w.counter).0 in
      elim (Result-cases (reserve account t.turn w.counter).1) [
        | inr (e, f) ↦ (
          c,
          ap (λ (p : World × Result Error Report). p.0)
              (ship_ordered-unreserved u t account it w e f),
        )
        | inl (res, f) ↦
            let q = ship sha256 stamp u t it res (record w { counter = c }) in
            let (d, frame) = close_slot_frame res q.1 q.0 in
            let still = stale_ships_nothing u t it res (record w { counter = c }) m moves in
            (
              d,
              ap (λ (p : World × Result Error Report). p.0)
                    (ship_ordered-reserved u t account it w res f)
                  ∙ frame
                  ∙ ap (λ (o : World). record o { counter = d }) still,
            )
      ]

  -- A worker on an intent that has moved since it was read changes nothing but the counter.
  pub stale_worker :
      (u : Setup) (t : Turn) (it : Intent) (w : World)
      → Moved it w.intents
      → it.state ≢ settling
      → (c : Counter) × ((process_authorized sha256 stamp u t it w).0 ≡ record w { counter = c })
  unfolding process_authorized
  stale_worker u t it w m moves = by_grant t.granted u.sender
    where
      by_grant :
          (b : Bool) (n : Sender)
          → let q : World × Result Error Report =
              if not b then (w, ok (report retry throttled)) else elim n [
                | plain ↦ let (w', s, r) = ship sha256 stamp u t it no_reservation w in (w', r)
                | ordered account ↦ ship_ordered sha256 stamp u t (account it) it w
                | replacing account ↦ ship_ordered sha256 stamp u t (account it) it w
              ] in
            (c : Counter) × (q.0 ≡ record w { counter = c })
      by_grant false n = (w.counter, refl)
      by_grant true plain = (w.counter, stale_ships_nothing u t it no_reservation w m moves)
      by_grant true (ordered account) = stale_ordered u t (account it) it w m moves
      by_grant true (replacing account) = stale_ordered u t (account it) it w m moves

  -- Of two workers that have read one authorized intent, once the first has called the sender, the
  -- second changes nothing but the counter: it calls nobody, and writes neither entry nor intent.
  pub one_send :
      (u u' : Setup) (t t' : Turn) (it : Intent) (w v : World) (r : Result Error Report)
      → it.state ≡ authorized
      → process_authorized sha256 stamp u t it w ≡ (v, r)
      → v.calls ≢ w.calls
      → (c : Counter) × ((process_authorized sha256 stamp u' t' it v).0 ≡ record v { counter = c })
  one_send u u' t t' it w v r is ran called_it =
      let moves : it.state ≢ settling = λ e. ground (arith, e, is) in
      let ends : (process_authorized sha256 stamp u t it w).0 ≡ v =
        ap (λ (p : World × Result Error Report). p.0) ran in
      elim (process_authorized-cases u t it w moves) [
        | inl same ↦ absurd (called_it (sym (ap (λ (o : World). o.calls) ends) ∙ same))
        | inr s ↦
            stale_worker u' t' it v
              (rw ends at (Onward-Moved it (process_authorized sha256 stamp u t it w).0 s.onward))
              moves
      ]

  -- When the sender is called for an authorized intent, it is called once, and the hold of the
  -- intent in settling is in the ledger.
  pub sent_once_held :
      (u : Setup) (t : Turn) (it : Intent) (w : World)
      → it.state ≡ authorized
      → let v = (process_authorized sha256 stamp u t it w).0 in
        (v.calls ≡ w.calls)
        ⊎ ((res : Reservation) × (a : ℤ) × (e : Entry) × (b : Bool) × (it.amount ≡ some a)
            × (v.calls ≡ w.calls ++ call_of it res ∷ [])
            × (append sha256 stamp w.journal (hold_entry (write it (settle_request t)) a)
                ≡ ok (v.journal, e, b)))
  sent_once_held u t it w is =
      elim (process_authorized-cases u t it w (λ e. ground (arith, e, is))) [
        | inl same ↦ inl same
        | inr s ↦ inr (s.slot, s.amount, s.entry, s.applied, s.asked, s.logged, s.held)
      ]
