-- ===== src/Intent/Apply.antt =====
-- `Apply` of backend/internal/intent/machine.go: exactly when it changes an intent, and to what.
use stablecoin_settlement_en.Common.{
  ◌≡◌, refl, sym, ◌≢◌, ◌↔◌, Bool, true, false, [], arith, bytes_eq_iff, Bytes-eq, is_empty_iff, ok,
}
use stablecoin_settlement_en.Intent.State.{
  created, authorized, settled, state_eq, state_eq_iff, terminal, valid,
}
use stablecoin_settlement_en.Intent.Machine.{
  Intent, Request, guard, write, apply_rule, apply_live, apply,
}
use stablecoin_settlement_en.Intent.Legal.{
  Legal, Guarded, permitted, permitted-Legal, Legal-permitted, Legal-entry,
}

guard-Guarded : (it : Intent) (req : Request) → guard it req ≡ ok tt → Guarded it req
unfolding guard
guard-Guarded it req h = record {
  in_time = λ (s : it.state ≡ created) (t : req.to ≡ authorized) (e : it.expires_at ≢ 0).
      ground (arith, state_eq_iff it.state created, state_eq_iff req.to authorized);
  same_hash = λ (t : req.to ≡ settled) (e : it.tx_hash ≢ []). ground (
    arith,
    state_eq_iff req.to authorized,
    state_eq_iff req.to settled,
    is_empty_iff it.tx_hash,
    bytes_eq_iff it.tx_hash req.tx_hash,
  );
}

Guarded-guard : (it : Intent) (req : Request) → Guarded it req → guard it req ≡ ok tt
unfolding guard
Guarded-guard it req g = ground (
  arith,
  g.in_time,
  g.same_hash,
  state_eq_iff it.state created,
  state_eq_iff req.to authorized,
  state_eq_iff req.to settled,
  is_empty_iff it.tx_hash,
  bytes_eq_iff it.tx_hash req.tx_hash,
)

-- A change passed every test on the way.
apply_changed :
    (it x : Intent) (req : Request)
    → apply it req ≡ ok (x, true)
    → (permitted it.state req.to req.by req.tx_hash req.reason ≡ true)
      × (guard it req ≡ ok tt)
      × (x ≡ write it req)
unfolding apply apply_live apply_rule permitted
apply_changed it x req h = ground arith

apply_changes :
    (it : Intent) (req : Request)
    → valid req.to ≡ true
    → state_eq it.state req.to ≡ false
    → terminal it.state ≡ false
    → permitted it.state req.to req.by req.tx_hash req.reason ≡ true
    → guard it req ≡ ok tt
    → apply it req ≡ ok (write it req, true)
unfolding apply apply_live apply_rule permitted
apply_changes it req v e t p g = ground arith

pub apply_unchanged :
    (it x : Intent) (req : Request) → apply it req ≡ ok (x, false) → (x ≡ it) × (it.state ≡ req.to)
unfolding apply apply_live apply_rule
apply_unchanged it x req h = ground (arith, state_eq_iff it.state req.to)

-- A request changes the intent exactly when the diagram has the step for that actor with that
-- evidence and the guards hold; the change is then `write`.
pub apply-Legal_iff :
    (it : Intent) (req : Request)
    → (apply it req ≡ ok (write it req, true))
      ↔ (Legal it.state req.to req.by req.tx_hash req.reason × Guarded it req)
apply-Legal_iff it req = (
  λ h.
      let (p, g, _) = apply_changed it (write it req) req h in
      (permitted-Legal it.state req.to req.by req.tx_hash req.reason p, guard-Guarded it req g),
  λ h.
      let (v, e, t) = Legal-entry h.0 in
      apply_changes it req v e t (Legal-permitted req.tx_hash req.reason h.0)
        (Guarded-guard it req h.1),
)

-- Every change is the one step: no request writes anything else.
pub apply-step :
    (it x : Intent) (req : Request)
    → apply it req ≡ ok (x, true)
    → Legal it.state req.to req.by req.tx_hash req.reason × Guarded it req × (x ≡ write it req)
apply-step it x req h =
    let (p, g, e) = apply_changed it x req h in
    (permitted-Legal it.state req.to req.by req.tx_hash req.reason p, guard-Guarded it req g, e)

pub write-state : (it : Intent) (req : Request) → (write it req).state ≡ req.to
unfolding write
write-state it req = refl

-- Redelivery: the same request a second time is accepted and changes nothing.
pub apply_twice :
    (it x : Intent) (req : Request) → apply it req ≡ ok (x, true) → apply x req ≡ ok (x, false)
unfolding apply
apply_twice it x req h =
    let (l, _, e) = apply-step it x req h in
    ground (arith, Legal-entry l, write-state it req, state_eq_iff x.state req.to)

-- A terminal intent is never changed, by any request.
pub terminal_absorbs :
    (it x : Intent) (req : Request) (b : Bool)
    → terminal it.state ≡ true
    → apply it req ≡ ok (x, b)
    → (x ≡ it) × (b ≡ false) × (req.to ≡ it.state)
terminal_absorbs it x req true t h =
    let (l, _, _) = apply-step it x req h in absurd (clash (Legal-entry l).2)
  where
    clash : terminal it.state ≡ false → ⊥
    clash e = cc
terminal_absorbs it x req false t h = let (e, s) = apply_unchanged it x req h in (e, refl, sym s)
