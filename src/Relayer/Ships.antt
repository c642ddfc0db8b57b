-- ===== src/Relayer/Ships.antt =====
-- backend/internal/relayer/relayer.go: what comes of the way from settling to the sender.
use stablecoin_settlement_en.Common.{
  ℕ, ◌+◌, ◌%◌, ◌≡◌, refl, sym, ap, ◌∙◌, ◌≢◌, ◌⊎◌, inl, inr, Bool, none, some, [], ◌∷◌, ◌++◌, arith,
  u64, Option-cases, Bytes, Bytes-eq, lookup, Result, ok, err, Result-cases,
}
use stablecoin_settlement_en.Common.Int.{ℤ}
use stablecoin_settlement_en.Intent.State.{relayer, settling, confirming}
use stablecoin_settlement_en.Intent.Machine.{Intent, Request, write, version_conflict}
use stablecoin_settlement_en.Intent.Machine as Machine
use stablecoin_settlement_en.Intent.Apply.{write-state}
use stablecoin_settlement_en.Intent.Store.{Store}
use stablecoin_settlement_en.Intent.Race.{write-id, write-version}
use stablecoin_settlement_en.Ledger.Entry.{Entry}
use stablecoin_settlement_en.Ledger.Journal.{Journal, append}
use stablecoin_settlement_en.Txseq.{Reservation, Sent, sent, not_sent}
use stablecoin_settlement_en.Relayer.World.{
  World, Call, send, Setup, Turn, Report, Error, nil_amount, from_ledger, Answer, hash, failure,
  at_settling, at_confirming,
}
use stablecoin_settlement_en.Relayer.Ship.{
  failed_sent, lost_report, hold_entry, advance, call, record_call, confirm_sent, send_out,
  hold_and_send, after_settling, ship,
}
use stablecoin_settlement_en.Relayer.Steps.{
  Moved, advance_frame, advance-Moved, advance_saved, advance_onward,
}

abbrev pub settle_request : Turn → Request
settle_request t = record {
  to = settling;
  by = relayer;
  tx_hash = [];
  reason = [];
  at = t.clock at_settling;
}

abbrev confirm_request : Turn → Bytes → Request
confirm_request t h = record {
  to = confirming;
  by = relayer;
  tx_hash = h;
  reason = [];
  at = t.clock at_confirming;
}

abbrev pub call_of : Intent → Reservation → Call
call_of it res = record { kind = send; intent_id = it.id; slot = res; fee = none }

pub Answer-cases :
    (a : Answer) → ((h : Bytes) × (a ≡ hash h)) ⊎ ((n : Bool) × (p : Bool) × (a ≡ failure n p))
Answer-cases (hash h) = inl (h, refl)
Answer-cases (failure n p) = inr (n, p, refl)

-- How the sender's answer leaves the number that it was called with.
abbrev pub answer_sent : Answer → Sent
answer_sent (hash h) = sent
answer_sent (failure never_left p) = failed_sent never_left

write-amount : (it : Intent) (req : Request) → (write it req).amount ≡ it.amount
unfolding write
write-amount it req = refl

-- What `send_out` leaves of a world: the call is logged, and of the rest only broadcasts and
-- intents may have changed.
pub record SentOut (x : Intent) (res : Reservation) (w v : World) : Type 0 where
  pub logged : v.calls ≡ w.calls ++ call_of x res ∷ []
  pub same_journal : v.journal ≡ w.journal
  pub same_counter : v.counter ≡ w.counter

-- The stored intent has gone on from the one that was read, by one step or two.
abbrev pub Onward : Intent → World → Type 0
Onward it v =
    (y : Intent) × (lookup it.id v.intents.m ≡ some y)
    × ((y.version ≡ (it.version + 1) % u64) ⊎ (y.version ≡ ((it.version + 1) % u64 + 1) % u64))

pub Onward-Moved : (it : Intent) (v : World) → Onward it v → Moved it v.intents
Onward-Moved it v (y, f, inl a) = (y, f, omega arith)
Onward-Moved it v (y, f, inr a) = (y, f, omega arith)

module _ (sha256 : Bytes → Bytes) where
  send_out-SentOut :
      (u : Setup) (t : Turn) (x : Intent) (res : Reservation) (w : World)
      → SentOut x res w (send_out sha256 u t x res w).0
  unfolding send_out confirm_sent record_call call
  send_out-SentOut u t x res w = elim (Answer-cases t.answer) [
    | inr (n, p, a) ↦
        rw (send_out, a) (record { logged = refl; same_journal = refl; same_counter = refl })
    | inl (h, a) ↦
        let sent_world = record_call t x res u.fee.base h sent (call send x res none w) in
        let (s, f) = advance_frame sha256 x (confirm_request t h) sent_world in
        rw (send_out, a)
          (record {
            logged = ap (λ (v : World). v.calls) f;
            same_journal = ap (λ (v : World). v.journal) f;
            same_counter = ap (λ (v : World). v.counter) f;
          })
  ]

  send_out-number :
      (u : Setup) (t : Turn) (x : Intent) (res : Reservation) (w : World)
      → (send_out sha256 u t x res w).1 ≡ answer_sent t.answer
  unfolding send_out confirm_sent
  send_out-number u t x res w = elim (Answer-cases t.answer) [
    | inr (n, p, a) ↦ rw (send_out, a)
    | inl (h, a) ↦ rw (send_out, a)
  ]

  send_out_onward :
      (u : Setup) (t : Turn) (x : Intent) (res : Reservation) (w : World)
      → lookup x.id w.intents.m ≡ some x
      → x.state ≡ settling
      → (y : Intent) × (lookup x.id (send_out sha256 u t x res w).0.intents.m ≡ some y)
        × ((y.version ≡ x.version) ⊎ (y.version ≡ (x.version + 1) % u64))
  unfolding send_out confirm_sent record_call call
  send_out_onward u t x res w there is = elim (Answer-cases t.answer) [
    | inr (n, p, a) ↦ (x, rw (send_out, a) there, inl refl)
    | inl (h, a) ↦
        let sent_world = record_call t x res u.fee.base h sent (call send x res none w) in
        let (y, f, step) =
          advance_onward sha256 x (confirm_request t h) sent_world there (λ e. ground (arith, e)) in
        (
          y,
          rw (send_out, a) f,
          elim step [
            | inl e ↦ inl (ap (λ (i : Intent). i.version) e)
            | inr e ↦ inr (ap (λ (i : Intent). i.version) e ∙ write-version x (confirm_request t h))
          ],
        )
  ]

module _ (sha256 : Bytes → Bytes) (stamp : ℕ → Bytes) where
  pub hold_and_send-cases :
      (u : Setup) (t : Turn) (x : Intent) (res : Reservation) (w : World)
      → ((f : Error) × (hold_and_send sha256 stamp u t x res w ≡ (w, not_sent, err f)))
        ⊎ ((a : ℤ) × (j : Journal) × (e : Entry) × (b : Bool) × (x.amount ≡ some a)
            × (append sha256 stamp w.journal (hold_entry x a) ≡ ok (j, e, b))
            × (hold_and_send sha256 stamp u t x res w
                ≡ send_out sha256 u t x res (record w { journal = j })))
  unfolding hold_and_send
  hold_and_send-cases u t x res w = elim (Option-cases x.amount) [
    | inl gone ↦ inl (nil_amount, simp (hold_and_send, gone))
    | inr (a, f) ↦ elim (Result-cases (append sha256 stamp w.journal (hold_entry x a))) [
      | inr (e, g) ↦ inl (from_ledger e, simp (hold_and_send, f, g))
      | inl ((j, e, b), g) ↦ inr (a, j, e, b, f, g, simp (hold_and_send, f, g))
    ]
  ]

  -- A world in which the sender was called for the intent, once, with the hold in the ledger.
  pub record Called (it : Intent) (t : Turn) (res : Reservation) (w v : World) (s : Sent)
      : Type 0 where
    pub number : s ≡ answer_sent t.answer
    pub logged : v.calls ≡ w.calls ++ call_of it res ∷ []
    pub same_counter : v.counter ≡ w.counter
    pub onward : Onward it v
    pub amount : ℤ
    pub asked : it.amount ≡ some amount
    pub entry : Entry
    pub applied : Bool
    pub held :
        append sha256 stamp w.journal (hold_entry (write it (settle_request t)) amount)
        ≡ ok (v.journal, entry, applied)

  send_out-Called :
      (t : Turn) (it x : Intent) (res : Reservation) (w v : World) (s : Store)
      → v ≡ record w { intents = s }
      → x ≡ write it (settle_request t)
      → lookup it.id v.intents.m ≡ some x
      → (u : Setup) (a : ℤ) (j : Journal) (e : Entry) (b : Bool) → x.amount ≡ some a
      → append sha256 stamp v.journal (hold_entry x a) ≡ ok (j, e, b)
      → Called it t res w
          (send_out sha256 u t x res (record v { journal = j })).0
          (send_out sha256 u t x res (record v { journal = j })).1
  send_out-Called t it x res w v s frame made there u a j e b m g =
      let id : x.id ≡ it.id = ap (λ (i : Intent). i.id) made ∙ write-id it (settle_request t) in
      let out = send_out-SentOut sha256 u t x res (record v { journal = j }) in
      let (y, f, step) =
        send_out_onward sha256 u t x res (record v { journal = j })
          (ap (λ i. lookup i v.intents.m) id ∙ there)
          (ap (λ (i : Intent). i.state) made ∙ write-state it (settle_request t)) in
      let version : x.version ≡ (it.version + 1) % u64 =
        ap (λ (i : Intent). i.version) made ∙ write-version it (settle_request t) in
      record {
        logged =
            out.logged
            ∙ ap (λ (o : World). o.calls ++ call_of x res ∷ []) frame
            ∙ ap
                (λ i. w.calls ++ record { kind = send; intent_id = i; slot = res; fee = none } ∷ [])
                id;
        same_counter = out.same_counter ∙ ap (λ (o : World). o.counter) frame;
        onward = (
          y,
          ap (λ i. lookup i (send_out sha256 u t x res (record v { journal = j })).0.intents.m)
                (sym id)
              ∙ f,
          elim step [
            | inl p ↦ inl (p ∙ version)
            | inr p ↦ inr (p ∙ ap (λ n. (n + 1) % u64) version)
          ],
        );
        amount = a;
        asked =
            sym (write-amount it (settle_request t)) ∙ sym (ap (λ (i : Intent). i.amount) made) ∙ m;
        number = send_out-number sha256 u t x res (record v { journal = j });
        entry = e;
        applied = b;
        held =
            ap (λ (o : Journal). append sha256 stamp o (hold_entry (write it (settle_request t)) a))
              (sym (ap (λ (o : World). o.journal) frame))
            ∙ ap (λ i. append sha256 stamp v.journal (hold_entry i a)) (sym made)
            ∙ g
            ∙ ap (λ (o : Journal). ok (o, e, b)) (sym out.same_journal);
      }

  pub ship-settled :
      (u : Setup) (t : Turn) (it x : Intent) (res : Reservation) (w v : World)
      → advance sha256 it (settle_request t) w ≡ (v, ok x)
      → ship sha256 stamp u t it res w ≡ hold_and_send sha256 stamp u t x res v
  unfolding ship after_settling
  ship-settled u t it x res w v f = rw (ship, f)

  pub ship-refused :
      (u : Setup) (t : Turn) (it : Intent) (res : Reservation) (w v : World) (e : Machine.Error)
      → advance sha256 it (settle_request t) w ≡ (v, err e)
      → ship sha256 stamp u t it res w ≡ (v, not_sent, lost_report e)
  unfolding ship after_settling
  ship-refused u t it res w v e f = rw (ship, f)

  pub ship-cases :
      (u : Setup) (t : Turn) (it : Intent) (res : Reservation) (w : World)
      → it.state ≢ settling
      → ((v : World) × (r : Result Error Report) × (ship sha256 stamp u t it res w
            ≡ (v, not_sent, r))
          × (v.calls ≡ w.calls)
          × (v.counter ≡ w.counter))
        ⊎ Called it t res w (ship sha256 stamp u t it res w).0 (ship sha256 stamp u t it res w).1
  ship-cases u t it res w moves =
      let (s, frame) = advance_frame sha256 it (settle_request t) w in
      let v = (advance sha256 it (settle_request t) w).0 in
      elim (Result-cases (advance sha256 it (settle_request t) w).1) [
        | inr (e, f) ↦ inl (
          v,
          lost_report e,
          ship-refused u t it res w v e (ap (λ r. (v, r)) f),
          ap (λ (o : World). o.calls) frame,
          ap (λ (o : World). o.counter) frame,
        )
        | inl (x, f) ↦
            let went : advance sha256 it (settle_request t) w ≡ (v, ok x) = ap (λ r. (v, r)) f in
            let on = ship-settled u t it x res w v went in
            let (made, saved) = advance_saved sha256 it x (settle_request t) w v went moves in
            let (there, _) = advance-Moved sha256 it x (settle_request t) w v went moves in
            elim (hold_and_send-cases u t x res v) [
              | inl (r, g) ↦ inl (
                v,
                err r,
                on ∙ g,
                ap (λ (o : World). o.calls) frame,
                ap (λ (o : World). o.counter) frame,
              )
              | inr (a, j, e, b, m, g, h) ↦
                  inr
                    (rw (on ∙ h) (send_out-Called t it x res w v s frame made there u a j e b m g))
            ]
      ]
