-- ===== src/Intent/Legal.antt =====
-- The transition diagram of README.md as a relation, and the machine of backend/internal/intent
-- against it.
use stablecoin_settlement_en.Common.{
  ◌≤◌, ◌≡◌, refl, ◌≢◌, Bool, true, false, ◌&&◌, Option, none, some, [], ◌∷◌, arith, not, Bytes,
  Bytes-eq, is_empty,
}
use stablecoin_settlement_en.Intent.State.{
  State, Actor, Rule, created, authorized, settling, confirming, settled, failed, canceled,
  needs_review, api, relayer, listener, operator, system, state_eq, terminal, valid, lookup_rule,
  allows,
}
use stablecoin_settlement_en.Intent.Machine.{Intent, Request}

-- Who may make which step, and the evidence that it takes.
pub data Legal : State → State → Actor → Bytes → Bytes → Type 0 where
  authorize : {tx why : Bytes} → Legal created authorized api tx why
  cancel_api : {tx why : Bytes} → why ≢ [] → Legal created canceled api tx why
  cancel_operator : {tx why : Bytes} → why ≢ [] → Legal created canceled operator tx why
  cancel_system : {tx why : Bytes} → why ≢ [] → Legal created canceled system tx why
  settle : {tx why : Bytes} → Legal authorized settling relayer tx why
  withdraw_api : {tx why : Bytes} → why ≢ [] → Legal authorized canceled api tx why
  withdraw_operator : {tx why : Bytes} → why ≢ [] → Legal authorized canceled operator tx why
  include_relayer : {tx why : Bytes} → tx ≢ [] → Legal settling confirming relayer tx why
  include_listener : {tx why : Bytes} → tx ≢ [] → Legal settling confirming listener tx why
  give_up : {tx why : Bytes} → why ≢ [] → Legal settling failed relayer tx why
  doubt : {tx why : Bytes} → why ≢ [] → Legal settling needs_review relayer tx why
  finalize : {tx why : Bytes} → tx ≢ [] → Legal confirming settled listener tx why
  reorg : {tx why : Bytes} → why ≢ [] → Legal confirming settling listener tx why
  mismatch : {tx why : Bytes} → why ≢ [] → Legal confirming needs_review listener tx why
  judge_paid : {tx why : Bytes} → tx ≢ [] → why ≢ [] → Legal needs_review settled operator tx why
  judge_unpaid : {tx why : Bytes} → why ≢ [] → Legal needs_review failed operator tx why

-- The table's answer to a request, with the checks of `Apply` on the rule that it finds.
abbrev pub permitted_by : Actor → Bytes → Bytes → Option Rule → Bool
permitted_by a tx why none = false
permitted_by a tx why (some r) =
    allows r a && not (r.needs_tx_hash && is_empty tx) && not (r.needs_reason && is_empty why)

unfoldable pub permitted : State → State → Actor → Bytes → Bytes → Bool
permitted s t a tx why = permitted_by a tx why (lookup_rule s t)

pub nonempty : (a : Bytes) → not (is_empty a) ≡ true → a ≢ []
unfolding is_empty
nonempty [] h = cc
nonempty (x ∷ xs) h = λ e. cc

pub is_empty-ne : (a : Bytes) → a ≢ [] → is_empty a ≡ false
unfolding is_empty
is_empty-ne [] h = absurd (h refl)
is_empty-ne (x ∷ xs) h = refl

pub permitted-Legal :
    (s t : State) (a : Actor) (tx why : Bytes) → permitted s t a tx why ≡ true → Legal s t a tx why
unfolding permitted lookup_rule allows
permitted-Legal created authorized api tx why h = authorize
permitted-Legal created canceled api tx why h = cancel_api (nonempty why h)
permitted-Legal created canceled operator tx why h = cancel_operator (nonempty why h)
permitted-Legal created canceled system tx why h = cancel_system (nonempty why h)
permitted-Legal authorized settling relayer tx why h = settle
permitted-Legal authorized canceled api tx why h = withdraw_api (nonempty why h)
permitted-Legal authorized canceled operator tx why h = withdraw_operator (nonempty why h)
permitted-Legal settling confirming relayer tx why h = include_relayer (nonempty tx (ground arith))
permitted-Legal settling confirming listener tx why h =
    include_listener (nonempty tx (ground arith))
permitted-Legal settling failed relayer tx why h = give_up (nonempty why h)
permitted-Legal settling needs_review relayer tx why h = doubt (nonempty why h)
permitted-Legal confirming settled listener tx why h = finalize (nonempty tx (ground arith))
permitted-Legal confirming settling listener tx why h = reorg (nonempty why h)
permitted-Legal confirming needs_review listener tx why h = mismatch (nonempty why h)
permitted-Legal needs_review settled operator tx why h =
    judge_paid (nonempty tx (ground arith)) (nonempty why (ground arith))
permitted-Legal needs_review failed operator tx why h = judge_unpaid (nonempty why h)
permitted-Legal _ _ _ tx why h = cc

pub Legal-permitted :
    {s t : State} {a : Actor} (tx why : Bytes) → Legal s t a tx why → permitted s t a tx why ≡ true
unfolding permitted lookup_rule allows
Legal-permitted tx why authorize = refl
Legal-permitted tx why (cancel_api h) = rw (is_empty-ne why h)
Legal-permitted tx why (cancel_operator h) = rw (is_empty-ne why h)
Legal-permitted tx why (cancel_system h) = rw (is_empty-ne why h)
Legal-permitted tx why settle = refl
Legal-permitted tx why (withdraw_api h) = rw (is_empty-ne why h)
Legal-permitted tx why (withdraw_operator h) = rw (is_empty-ne why h)
Legal-permitted tx why (include_relayer h) = rw (is_empty-ne tx h)
Legal-permitted tx why (include_listener h) = rw (is_empty-ne tx h)
Legal-permitted tx why (give_up h) = rw (is_empty-ne why h)
Legal-permitted tx why (doubt h) = rw (is_empty-ne why h)
Legal-permitted tx why (finalize h) = rw (is_empty-ne tx h)
Legal-permitted tx why (reorg h) = rw (is_empty-ne why h)
Legal-permitted tx why (mismatch h) = rw (is_empty-ne why h)
Legal-permitted tx why (judge_paid h k) = rw (is_empty-ne tx h, is_empty-ne why k)
Legal-permitted tx why (judge_unpaid h) = rw (is_empty-ne why h)

pub Legal-entry :
    {s t : State} {a : Actor} {tx why : Bytes}
    → Legal s t a tx why
    → (valid t ≡ true) × (state_eq s t ≡ false) × (terminal s ≡ false)
unfolding valid state_eq terminal
Legal-entry authorize = (refl, refl, refl)
Legal-entry (cancel_api h) = (refl, refl, refl)
Legal-entry (cancel_operator h) = (refl, refl, refl)
Legal-entry (cancel_system h) = (refl, refl, refl)
Legal-entry settle = (refl, refl, refl)
Legal-entry (withdraw_api h) = (refl, refl, refl)
Legal-entry (withdraw_operator h) = (refl, refl, refl)
Legal-entry (include_relayer h) = (refl, refl, refl)
Legal-entry (include_listener h) = (refl, refl, refl)
Legal-entry (give_up h) = (refl, refl, refl)
Legal-entry (doubt h) = (refl, refl, refl)
Legal-entry (finalize h) = (refl, refl, refl)
Legal-entry (reorg h) = (refl, refl, refl)
Legal-entry (mismatch h) = (refl, refl, refl)
Legal-entry (judge_paid h k) = (refl, refl, refl)
Legal-entry (judge_unpaid h) = (refl, refl, refl)

-- What single transitions ask for besides: a signature in time, and the hash on record.
pub record Guarded (it : Intent) (req : Request) : Type 0 where
  pub in_time :
      it.state ≡ created → req.to ≡ authorized → it.expires_at ≢ 0 → req.at ≤ it.expires_at
  pub same_hash : req.to ≡ settled → it.tx_hash ≢ [] → it.tx_hash ≡ req.tx_hash
