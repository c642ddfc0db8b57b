-- ===== src/Relayer/Failing.antt =====
-- backend/internal/relayer/poison.go: when a payment that is given up fails.
use stablecoin_settlement_en.Common.{
  ℕ, ◌≡◌, refl, sym, ap, ◌∙◌, ◌≢◌, inl, inr, Bool, true, false, none, some, List, [], ◌∷◌, ◌++◌,
  arith, ==_iff, Bool-cases, Bytes, bytes_eq_iff, Bytes-eq, Dict, lookup, insert, lookup-insert, ok,
  err, Result-cases,
}
use stablecoin_settlement_en.Paymentref.{derive}
use stablecoin_settlement_en.Intent.State.{
  relayer, settling, failed, needs_review, state_eq, state_eq_iff,
}
use stablecoin_settlement_en.Intent.Machine.{Intent, Request, apply, write}
use stablecoin_settlement_en.Intent.Create.{terms}
use stablecoin_settlement_en.Intent.Store.{Store, save, swap_allowed}
use stablecoin_settlement_en.Intent.Legal as Legal
use stablecoin_settlement_en.Intent.Apply.{apply-Legal_iff, write-state}
use stablecoin_settlement_en.Intent.Race.{write-id, write-ref, write-terms}
use stablecoin_settlement_en.Ledger.Entry as Entries
use stablecoin_settlement_en.Ledger.Entry.{Entry}
use stablecoin_settlement_en.Ledger.Journal.{Journal, append}
use stablecoin_settlement_en.Txseq.{Sent, sent, not_sent, unknown}
use stablecoin_settlement_en.Relayer.World.{
  World, Turn, Broadcast, last_row, last_broadcast, gave_up_failed, gave_up_review, at_failed,
  at_review,
}
use stablecoin_settlement_en.Relayer.Ship.{advance, store_applied}
use stablecoin_settlement_en.Relayer.Rescue.{review_intent}
use stablecoin_settlement_en.Relayer.GiveUp.{
  give_up_intent, give_to_review, give_to_failed, void_answer, void_entry, was_not_sent, last_sent,
}
use stablecoin_settlement_en.Relayer.Steps.{advance_frame, advance_onward}

abbrev pub fail_request : Turn → Request
fail_request t = record {
  to = failed;
  by = relayer;
  tx_hash = [];
  reason = t.text gave_up_failed;
  at = t.clock at_failed;
}

some-injective : {a b : Intent} → some a ≡ some b → a ≡ b
some-injective {a} {b} h = ap (λ o. elim o [ none ↦ a | some x ↦ x ]) h

abbrev doubt_request : Turn → Request
doubt_request t = record {
  to = needs_review;
  by = relayer;
  tx_hash = [];
  reason = t.text gave_up_review;
  at = t.clock at_review;
}

was_not_sent_iff : (s : Sent) → was_not_sent s ≡ true → s ≡ not_sent
unfolding was_not_sent
was_not_sent_iff sent h = absurd (ground (arith, h))
was_not_sent_iff not_sent h = refl
was_not_sent_iff unknown h = absurd (ground (arith, h))

last_row-snoc : (rows : List Broadcast) (b : Broadcast) → last_row (rows ++ b ∷ []) ≡ some b
unfolding last_row
last_row-snoc [] b = refl
last_row-snoc (a ∷ []) b = refl
last_row-snoc (a ∷ c ∷ rows) b = last_row-snoc (c ∷ rows) b

last_sent-snoc :
    (id : Bytes) (m : Dict Bytes (List Broadcast)) (rows : List Broadcast) (b : Broadcast)
    → lookup id m ≡ some (rows ++ b ∷ [])
    → last_sent (last_broadcast id m) ≡ b.sent
unfolding last_sent last_broadcast
last_sent-snoc id m rows b h = rw (last_broadcast, h, last_row-snoc rows b)

module _ (sha256 : Bytes → Bytes) where
  save-own :
      (s : Store) (x cur : Intent) (n : ℕ)
      → lookup x.id s.m ≡ some cur
      → cur.version ≡ n
      → x.ref ≡ derive sha256 (terms x)
      → save sha256 s x n
        ≡ ok (record { m = insert x.id x s.m; by_ref = insert x.ref x.id s.by_ref })
  unfolding save swap_allowed
  save-own s x cur n f v r =
      ground (arith, ==_iff cur.version n, bytes_eq_iff x.ref (derive sha256 (terms x)))

  -- The step of a settling intent to failed goes through.
  advance-failed :
      (t : Turn) (it : Intent) (w : World)
      → it.state ≡ settling
      → lookup it.id w.intents.m ≡ some it
      → it.ref ≡ derive sha256 (terms it)
      → t.text gave_up_failed ≢ []
      → lookup it.id (advance sha256 it (fail_request t) w).0.intents.m
        ≡ some (write it (fail_request t))
  unfolding advance store_applied
  advance-failed t it w is there own why =
      let req = fail_request t in
      let x = write it req in
      let legal : Legal.Legal it.state failed relayer [] (t.text gave_up_failed) =
        rw is (Legal.give_up why) in
      let guarded : Legal.Guarded it req = record {
        in_time = λ c. absurd (ground (arith, c, is));
        same_hash = λ e. absurd (ground (arith, e));
      } in
      let applied : apply it req ≡ ok (x, true) = (apply-Legal_iff it req).1 (legal, guarded) in
      let stored : lookup x.id w.intents.m ≡ some it =
        ap (λ i. lookup i w.intents.m) (write-id it req) ∙ there in
      let saved =
        save-own w.intents x it it.version stored refl
          (write-ref it req ∙ own ∙ ap (derive sha256) (sym (write-terms it req))) in
      rw (advance, applied, store_applied, saved)
        (ground
          (arith, lookup-insert x.id it.id x w.intents.m, bytes_eq_iff x.id it.id, write-id it req))

module _ (sha256 : Bytes → Bytes) (stamp : ℕ → Bytes) where
  void_answer-ok : (j q : Journal) (e : Entry) (b : Bool) → void_answer j (ok (q, e, b)) ≡ ok q
  unfolding void_answer
  void_answer-ok j q e b = refl

  give_up_intent-failed :
      (t : Turn) (it : Intent) (w : World) (j : Journal)
      → it.state ≡ settling
      → last_sent (last_broadcast it.id w.broadcasts) ≡ not_sent
      → void_answer w.journal (append sha256 stamp w.journal (void_entry it)) ≡ ok j
      → (give_up_intent sha256 stamp t it w).0
        ≡ (advance sha256 it (fail_request t) (record w { journal = j })).0
  unfolding give_up_intent give_to_failed was_not_sent
  give_up_intent-failed t it w j is unsent f =
      rw (give_up_intent, (state_eq_iff it.state settling).1 is, unsent, give_to_failed, f) refl

  give_up_intent-void_refused :
      (t : Turn) (it : Intent) (w : World) (e : Entries.Error)
      → it.state ≡ settling
      → last_sent (last_broadcast it.id w.broadcasts) ≡ not_sent
      → void_answer w.journal (append sha256 stamp w.journal (void_entry it)) ≡ err e
      → (give_up_intent sha256 stamp t it w).0 ≡ w
  unfolding give_up_intent give_to_failed was_not_sent
  give_up_intent-void_refused t it w e is unsent f =
      rw (give_up_intent, (state_eq_iff it.state settling).1 is, unsent, give_to_failed, f) refl

  give_up_intent-reviewed :
      (t : Turn) (it : Intent) (w : World)
      → it.state ≡ settling
      → was_not_sent (last_sent (last_broadcast it.id w.broadcasts)) ≡ false
      → (give_up_intent sha256 stamp t it w).0 ≡ (advance sha256 it (doubt_request t) w).0
  unfolding give_up_intent give_to_review review_intent
  give_up_intent-reviewed t it w is maybe =
      rw (give_up_intent, (state_eq_iff it.state settling).1 is, maybe) refl

  give_up_intent-dropped :
      (t : Turn) (it : Intent) (w : World)
      → state_eq it.state settling ≡ false
      → (give_up_intent sha256 stamp t it w).0 ≡ w
  unfolding give_up_intent
  give_up_intent-dropped t it w wrong = rw (give_up_intent, wrong) refl

  -- A payment that is given up fails on its last broadcast alone: whatever the rows before say, one
  -- that was not sent at the end voids the hold, and the stored intent goes to failed.
  pub failed_on_last_row :
      (t : Turn) (it : Intent) (w : World) (rows : List Broadcast) (b : Broadcast) (j : Journal)
      (e : Entry) (applied : Bool)
      → it.state ≡ settling
      → lookup it.id w.intents.m ≡ some it
      → it.ref ≡ derive sha256 (terms it)
      → t.text gave_up_failed ≢ []
      → lookup it.id w.broadcasts ≡ some (rows ++ b ∷ [])
      → b.sent ≡ not_sent
      → append sha256 stamp w.journal (void_entry it) ≡ ok (j, e, applied)
      → let v = (give_up_intent sha256 stamp t it w).0 in
        (v.journal ≡ j) × (lookup it.id v.intents.m ≡ some (write it (fail_request t)))
  failed_on_last_row t it w rows b j e applied is there own why row unsent held =
      let ends =
        give_up_intent-failed t it w j is (last_sent-snoc it.id w.broadcasts rows b row ∙ unsent)
          (rw held (void_answer-ok w.journal j e applied)) in
      let (s, frame) = advance_frame sha256 it (fail_request t) (record w { journal = j }) in
      (
        ap (λ (o : World). o.journal) (ends ∙ frame),
        ap (λ (o : World). lookup it.id o.intents.m) ends
            ∙ advance-failed sha256 t it (record w { journal = j }) is there own why,
      )

  -- Giving up a payment makes it fail only if it was settling, its last broadcast is known not to
  -- have been sent, and the void of its hold was accepted, or there was no open hold.
  pub failed_only_unsent :
      (t : Turn) (it y : Intent) (w : World)
      → lookup it.id w.intents.m ≡ some it
      → it.state ≢ failed
      → lookup it.id (give_up_intent sha256 stamp t it w).0.intents.m ≡ some y
      → y.state ≡ failed
      → (it.state ≡ settling)
        × (last_sent (last_broadcast it.id w.broadcasts) ≡ not_sent)
        × (void_answer w.journal (append sha256 stamp w.journal (void_entry it))
            ≡ ok (give_up_intent sha256 stamp t it w).0.journal)
        × (y ≡ write it (fail_request t))
  failed_only_unsent t it y w there alive f dead =
      let same : (give_up_intent sha256 stamp t it w).0 ≡ w → ⊥ = λ p. alive (
        ap (λ (i : Intent). i.state)
          (some-injective (sym there ∙ sym (ap (λ (o : World). lookup it.id o.intents.m) p) ∙ f))
        ∙ dead) in
      elim (Bool-cases (state_eq it.state settling)) [
        | inr wrong ↦ absurd (same (give_up_intent-dropped t it w wrong))
        | inl right ↦
            let is = (state_eq_iff it.state settling).0 right in
            elim (Bool-cases (was_not_sent (last_sent (last_broadcast it.id w.broadcasts)))) [
              | inr maybe ↦
                  let (x, g, step) =
                    advance_onward sha256 it (doubt_request t) w there
                      (λ e. ground (arith, e, is)) in
                  let z : y ≡ x = some-injective (
                    sym f
                    ∙ ap (λ (o : World). lookup it.id o.intents.m)
                        (give_up_intent-reviewed t it w is maybe)
                    ∙ g) in
                  absurd (elim step [
                    | inl e ↦ alive (ap (λ (i : Intent). i.state) (sym (z ∙ e)) ∙ dead)
                    | inr e ↦
                        let doubted =
                          ap (λ (i : Intent). i.state) (z ∙ e) ∙ write-state it (doubt_request t) in
                        ground (arith, doubted, dead)
                  ])
              | inl clear ↦
                  let unsent =
                    was_not_sent_iff (last_sent (last_broadcast it.id w.broadcasts)) clear in
                  elim (Result-cases
                    (void_answer w.journal (append sha256 stamp w.journal (void_entry it)))) [
                      | inr (e, h) ↦
                          absurd (same (give_up_intent-void_refused t it w e is unsent h))
                      | inl (j, h) ↦
                          let ends = give_up_intent-failed t it w j is unsent h in
                          let (s, frame) =
                            advance_frame sha256 it (fail_request t) (record w { journal = j }) in
                          let (x, g, step) =
                            advance_onward sha256 it (fail_request t) (record w { journal = j })
                              there (λ e. ground (arith, e, is)) in
                          let z : y ≡ x =
                            some-injective
                              (sym f ∙ ap (λ (o : World). lookup it.id o.intents.m) ends ∙ g) in
                          (
                            is,
                            unsent,
                            h ∙ ap ok (sym (ap (λ (o : World). o.journal) (ends ∙ frame))),
                            elim step [
                              | inl e ↦
                                  absurd (alive (ap (λ (i : Intent). i.state) (sym (z ∙ e)) ∙ dead))
                              | inr e ↦ z ∙ e
                            ],
                          )
                    ]
            ]
      ]
