-- ===== src/Listener/Checks.antt =====
-- backend/internal/listener/listener.go: when a payment is settled, and what the books then hold.
use stablecoin_settlement_en.Common.{
  ℕ, ◌-◌, ◌≤◌, ◌≡◌, refl, sym, ap, ◌∙◌, ◌≢◌, ◌⊎◌, inl, inr, Bool, true, false, Option, none, some,
  [], arith, if◌then◌else◌, not, Bool-cases, Option-cases, Bytes, bytes_eq_iff, Bytes-eq, lookup,
  lookup-insert, ok, err, Result-cases,
}
use stablecoin_settlement_en.Common.Int.{ℤ, eq_ℤ, eq_ℤ→eq}
use stablecoin_settlement_en.Intent.State.{
  confirming, settling, settled, needs_review, listener, state_eq, state_eq_iff,
}
use stablecoin_settlement_en.Intent.Machine.{Intent, Request, apply, write}
use stablecoin_settlement_en.Intent.Store.{get, write_back, save}
use stablecoin_settlement_en.Intent.Apply.{apply-step, apply_unchanged, write-state}
use stablecoin_settlement_en.Intent.Race.{write-id, save-inv}
use stablecoin_settlement_en.Ledger.Entry.{Entry}
use stablecoin_settlement_en.Ledger.Journal.{append}
use stablecoin_settlement_en.Finality.{Policy, Kind, pending, final, failed, lost, judge}
use stablecoin_settlement_en.Finality.Verdicts.{
  Irreversible, judge-Irreversible_iff, judge-lost_iff,
}
use stablecoin_settlement_en.Listener
use stablecoin_settlement_en.Listener.{
  nil_amount, Sighting, Outcome, settle, Error, Report, Books, Words, protocol, post_entry, report,
  Setup, Checked, push, to_review, to_settling, to_settled, paid, ruled, check_intent, check,
}

module _ (sha256 : Bytes → Bytes) where
  -- `push` leaves the journal, and the stored intent as it was or after the step.
  push-frame :
      (it : Intent) (out : Outcome) (req : Request) (b : Books)
      → (push sha256 it out req b).0.journal ≡ b.journal
  unfolding push
  push-frame it out req b = elim (Result-cases (apply it req)) [
    | inr (e, f) ↦ rw (push, f)
    | inl (r, f) ↦ elim (Result-cases (write_back sha256 b.intents it.version r)) [
      | inr (e, g) ↦ rw (push, f, g)
      | inl ((s, x, c), g) ↦ rw (push, f, g)
    ]
  ]

  push-onward :
      (it : Intent) (out : Outcome) (req : Request) (b : Books)
      → lookup it.id b.intents.m ≡ some it
      → it.state ≢ req.to
      → (y : Intent) × (lookup it.id (push sha256 it out req b).0.intents.m ≡ some y)
        × ((y ≡ it) ⊎ (y ≡ write it req))
  unfolding push write_back
  push-onward it out req b there moves = elim (Result-cases (apply it req)) [
    | inr (e, f) ↦ (it, rw (push, f) there, inl refl)
    | inl ((x, false), f) ↦ absurd (moves (apply_unchanged it x req f).1)
    | inl ((x, true), f) ↦ elim (Result-cases (save sha256 b.intents x it.version)) [
      | inr (e, g) ↦ (it, rw (push, f, write_back, g) there, inl refl)
      | inl (s, g) ↦
          let made = (apply-step it x req f).2 in
          let same : x.id ≡ it.id = ap (λ (i : Intent). i.id) made ∙ write-id it req in
          let (_, _, m, _) = save-inv sha256 b.intents s x it.version g in
          (
            x,
            rw (push, f, write_back, g)
                (ground
                  (arith, m, lookup-insert x.id it.id x b.intents.m, bytes_eq_iff x.id it.id)),
            inr made,
          )
    ]
  ]

-- What the listener went by: the rule of the chain, and what it saw.
pub record Watched (u : Setup) (watcher : Intent → Option Sighting) (it : Intent) : Type 0 where
  pub policy : Policy
  pub seen : Sighting
  pub confirms : it.state ≡ confirming
  pub rule : lookup (protocol it.chain) u.policies ≡ some policy
  pub saw : watcher it ≡ some seen

-- The money that was received is not the money that was asked for.
abbrev pub Differs : Option ℤ → Option ℤ → Type 0
Differs none asked = Unit {0}
Differs (some a) asked = (b : ℤ) × (asked ≡ some b) × (eq_ℤ a b ≡ false)

-- Where a check may leave an intent, and why.
pub data Verdict (sha256 : Bytes → Bytes) (stamp : ℕ → Bytes) (u : Setup)
    (watcher : Intent → Option Sighting) (it : Intent) (b v : Books) (y : Intent) : Type 0 where
  same : y ≡ it → Verdict sha256 stamp u watcher it b v y
  gone :
      y.state ≡ settling
      → v.journal ≡ b.journal
      → (w : Watched u watcher it) → w.seen.observed.included ≡ false
      → w.policy.lost_after ≤ u.now - it.updated_at
      → Verdict sha256 stamp u watcher it b v y
  doubted :
      y.state ≡ needs_review
      → v.journal ≡ b.journal
      → (w : Watched u watcher it) → Irreversible w.policy w.seen.observed
      → (w.seen.observed.succeeded ≡ false) ⊎ Differs w.seen.received it.amount
      → Verdict sha256 stamp u watcher it b v y
  vouched :
      y.state ≡ settled
      → (w : Watched u watcher it) → Irreversible w.policy w.seen.observed
      → w.seen.observed.succeeded ≡ true
      → (a : ℤ) → w.seen.received ≡ some a
      → it.amount ≡ some a
      → (e : Entry) (applied : Bool)
      → append sha256 stamp b.journal (post_entry it a) ≡ ok (v.journal, e, applied)
      → Verdict sha256 stamp u watcher it b v y

module _ (sha256 : Bytes → Bytes) (stamp : ℕ → Bytes) where
  abbrev Ruled : Setup → (Intent → Option Sighting) → Intent → Books → Books → Type 0
  Ruled u watcher it b v =
      (y : Intent) × (lookup it.id v.intents.m ≡ some y) × Verdict sha256 stamp u watcher it b v y

  to_review-Ruled :
      (u : Setup) (watcher : Intent → Option Sighting) (why : Words) (it : Intent) (b : Books)
      (w : Watched u watcher it)
      → lookup it.id b.intents.m ≡ some it
      → Irreversible w.policy w.seen.observed
      → (w.seen.observed.succeeded ≡ false) ⊎ Differs w.seen.received it.amount
      → Ruled u watcher it b (to_review sha256 u why it b).0
  unfolding to_review
  to_review-Ruled u watcher why it b w there i d =
      let req : Request = record {
        to = needs_review;
        by = listener;
        tx_hash = [];
        reason = u.text why;
        at = u.now;
      } in
      let (y, f, step) =
        push-onward sha256 it Listener.review req b there (λ e. ground (arith, e, w.confirms)) in
      (
        y,
        f,
        elim step [
          | inl e ↦ same e
          | inr e ↦
              doubted (ap (λ (x : Intent). x.state) e ∙ write-state it req)
                (push-frame sha256 it Listener.review req b) w i d
        ],
      )

  to_settled-Ruled :
      (u : Setup) (watcher : Intent → Option Sighting) (it : Intent) (a : ℤ) (b : Books)
      (w : Watched u watcher it)
      → lookup it.id b.intents.m ≡ some it
      → Irreversible w.policy w.seen.observed
      → w.seen.observed.succeeded ≡ true
      → w.seen.received ≡ some a
      → it.amount ≡ some a
      → Ruled u watcher it b (to_settled sha256 stamp u it a b).0
  unfolding to_settled
  to_settled-Ruled u watcher it a b w there i s r m =
      elim (Result-cases (append sha256 stamp b.journal (post_entry it a))) [
        | inr (e, f) ↦ (it, rw (to_settled, f) there, same refl)
        | inl ((j, e, applied), f) ↦
            let req : Request = record {
              to = settled;
              by = listener;
              tx_hash = it.tx_hash;
              reason = [];
              at = u.now;
            } in
            let (y, g, step) =
              push-onward sha256 it settle req (record b { journal = j }) there
                (λ e. ground (arith, e, w.confirms)) in
            rw (to_settled, f)
              (
                y,
                g,
                elim step [
                  | inl e ↦ same e
                  | inr e' ↦
                      vouched (ap (λ (x : Intent). x.state) e' ∙ write-state it req) w i s a r m e
                        applied
                        (f
                          ∙ ap (λ k. ok (k, e, applied))
                              (sym (push-frame sha256 it settle req (record b { journal = j }))))
                ],
              )
      ]

  paid-Ruled :
      (u : Setup) (watcher : Intent → Option Sighting) (it : Intent) (b : Books)
      (w : Watched u watcher it)
      → lookup it.id b.intents.m ≡ some it
      → Irreversible w.policy w.seen.observed
      → w.seen.observed.succeeded ≡ true
      → (o : Option ℤ) → w.seen.received ≡ o
      → Ruled u watcher it b (paid sha256 stamp u it o b).0
  unfolding paid
  paid-Ruled u watcher it b w there i s none r =
      to_review-Ruled u watcher Listener.no_transfer it b w there i (inr (rw r tt))
  paid-Ruled u watcher it b w there i s (some a) r = by_amount it.amount refl
    where
      by_amount :
          (m : Option ℤ)
          → it.amount ≡ m
          → let q : Checked = elim m [
            | none ↦ (b, err nil_amount)
            | some c ↦
                if not (eq_ℤ a c)
                then to_review sha256 u Listener.other_amount it b
                else to_settled sha256 stamp u it a b
          ] in
            Ruled u watcher it b q.0
      by_amount none e = (it, there, same refl)
      by_amount (some c) e = elim (Bool-cases (eq_ℤ a c)) [
        | inr d ↦
            rw d (
              to_review-Ruled u watcher Listener.other_amount it b w there i (inr (rw r (c, e, d))))
        | inl d ↦
            rw d
              (to_settled-Ruled u watcher it a b w there i s r (e ∙ ap some (sym (eq_ℤ→eq a c d))))
      ]

  to_settling-Ruled :
      (u : Setup) (watcher : Intent → Option Sighting) (it : Intent) (b : Books)
      (w : Watched u watcher it)
      → lookup it.id b.intents.m ≡ some it
      → w.seen.observed.included ≡ false
      → w.policy.lost_after ≤ u.now - it.updated_at
      → Ruled u watcher it b (to_settling sha256 u it b).0
  unfolding to_settling
  to_settling-Ruled u watcher it b w there out late =
      let req : Request = record {
        to = settling;
        by = listener;
        tx_hash = [];
        reason = u.text Listener.not_on_chain;
        at = u.now;
      } in
      let (y, f, step) =
        push-onward sha256 it Listener.hand_back req b there (λ e. ground (arith, e, w.confirms)) in
      (
        y,
        f,
        elim step [
          | inl e ↦ same e
          | inr e ↦
              gone (ap (λ (x : Intent). x.state) e ∙ write-state it req)
                (push-frame sha256 it Listener.hand_back req b) w out late
        ],
      )

  ruled-Ruled :
      (u : Setup) (watcher : Intent → Option Sighting) (it : Intent) (b : Books)
      (w : Watched u watcher it)
      → lookup it.id b.intents.m ≡ some it
      → (k : Kind) → judge w.policy w.seen.observed (u.now - it.updated_at) ≡ k
      → Ruled u watcher it b (ruled sha256 stamp u it w.seen k b).0
  unfolding ruled
  ruled-Ruled u watcher it b w there pending j = (it, there, same refl)
  ruled-Ruled u watcher it b w there lost j =
      let (out, _, late) = (judge-lost_iff w.policy w.seen.observed (u.now - it.updated_at)).0 j in
      to_settling-Ruled u watcher it b w there out late
  ruled-Ruled u watcher it b w there failed j =
      let (i, s) =
        (judge-Irreversible_iff w.policy w.seen.observed (u.now - it.updated_at)).1.0 j in
      to_review-Ruled u watcher Listener.reverted it b w there i (inl s)
  ruled-Ruled u watcher it b w there final j =
      let (i, s) =
        (judge-Irreversible_iff w.policy w.seen.observed (u.now - it.updated_at)).0.0 j in
      paid-Ruled u watcher it b w there i s w.seen.received refl

  check_intent-Ruled :
      (u : Setup) (watcher : Intent → Option Sighting) (it : Intent) (b : Books)
      → lookup it.id b.intents.m ≡ some it
      → Ruled u watcher it b (check_intent sha256 stamp u watcher it b).0
  unfolding check_intent
  check_intent-Ruled u watcher it b there = elim (Bool-cases (state_eq it.state confirming)) [
    | inr f ↦ (it, rw (check_intent, f) there, same refl)
    | inl f ↦ elim (Option-cases (lookup (protocol it.chain) u.policies)) [
      | inl g ↦ (it, rw (check_intent, f, g) there, same refl)
      | inr (p, g) ↦ elim (Option-cases (watcher it)) [
        | inl h ↦ (it, rw (check_intent, f, g, h) there, same refl)
        | inr (seen, h) ↦
            rw (check_intent, f, g, h)
              (ruled-Ruled u watcher it b
                (record {
                  policy = p;
                  seen = seen;
                  confirms = (state_eq_iff it.state confirming).0 f;
                  rule = g;
                  saw = h;
                })
                there (judge p seen.observed (u.now - it.updated_at)) refl)
      ]
    ]
  ]

  -- A check leaves a payment as it was, or moves it out of confirming with a reason: back to settling
  -- when the transaction has been missing for as long as the rule says; to review when it is
  -- irreversible, and it failed or did not bring the amount; and to settled when it is irreversible,
  -- was executed and brought the amount, and then the journal has accepted the post.
  pub check-Verdict :
      (u : Setup) (watcher : Intent → Option Sighting) (id : Bytes) (it : Intent) (b : Books)
      → lookup id b.intents.m ≡ some it
      → it.id ≡ id
      → (y : Intent) × (lookup id (check sha256 stamp u watcher id b).0.intents.m ≡ some y)
        × Verdict sha256 stamp u watcher it b (check sha256 stamp u watcher id b).0 y
  unfolding check get
  check-Verdict u watcher id it b there own =
      let here = ap (λ i. lookup i b.intents.m) own ∙ there in
      let (y, f, z) = check_intent-Ruled u watcher it b here in
      rw (check, there)
        (
          y,
          ap (λ i. lookup i (check_intent sha256 stamp u watcher it b).0.intents.m) (sym own) ∙ f,
          z,
        )
