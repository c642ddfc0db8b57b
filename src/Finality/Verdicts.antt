-- ===== src/Finality/Verdicts.antt =====
-- backend/internal/finality: what each verdict says of the chain.
use stablecoin_settlement_en.Common.{
  ℕ, ◌+◌, ◌≤◌, ◌<◌, ◌≡◌, ◌∙◌, ◌↔◌, true, false, arith, u64, Bytes-eq,
}
use stablecoin_settlement_en.Finality.{Observation, Policy, final, failed, lost, depth, judge}

-- What has to hold of the chain before the result of a transaction counts.
pub record Irreversible (p : Policy) (o : Observation) : Type 0 where
  pub is_in : o.included ≡ true
  pub deep : p.confirmations ≤ depth o
  pub marked : p.require_marker ≡ true → o.final ≡ true

-- A verdict on the payment is given exactly for a transaction that is irreversible by the policy,
-- and it is then the one of its execution.
pub judge-Irreversible_iff :
    (p : Policy) (o : Observation) (age : ℕ)
    → ((judge p o age ≡ final) ↔ (Irreversible p o × (o.succeeded ≡ true)))
      × ((judge p o age ≡ failed) ↔ (Irreversible p o × (o.succeeded ≡ false)))
unfolding judge
judge-Irreversible_iff p o age = (
  (
    λ h. (
      record { is_in = ground arith; deep = ground arith; marked = λ m. ground arith },
      ground arith,
    ),
    λ (w, s). ground (arith, w.is_in, w.deep, w.marked),
  ),
  (
    λ h. (
      record { is_in = ground arith; deep = ground arith; marked = λ m. ground arith },
      ground arith,
    ),
    λ (w, s). ground (arith, w.is_in, w.deep, w.marked),
  ),
)

-- Lost is said exactly of a transaction in no block for the policy's time.
pub judge-lost_iff :
    (p : Policy) (o : Observation) (age : ℕ)
    → (judge p o age ≡ lost) ↔ ((o.included ≡ false) × (0 < p.lost_after) × (p.lost_after ≤ age))
unfolding judge
judge-lost_iff p o age =
    (λ h. (ground arith, ground arith, ground arith), λ (a, b, c). ground arith)

-- The same transaction in the same block, seen later on a chain that has grown.
pub record Grown (o n : Observation) : Type 0 where
  pub included : n.included ≡ o.included
  pub height : n.height ≡ o.height
  pub head : o.head ≤ n.head
  pub final : o.final ≡ true → n.final ≡ true
  pub succeeded : n.succeeded ≡ o.succeeded

depth-Grown : (o n : Observation) → Grown o n → n.head + 1 < u64 → depth o ≤ depth n
unfolding depth
depth-Grown o n g b = ground (arith, g.included, g.height, g.head)

-- A verdict of final or failed stays as it was for every later observation of the same transaction
-- in the same block on a chain that has grown, while heights stay below 2^64 - 1.
pub judge_stable :
    (p : Policy) (o n : Observation) (age later : ℕ)
    → Grown o n
    → n.head + 1 < u64
    → (judge p o age ≡ final → judge p n later ≡ final)
      × (judge p o age ≡ failed → judge p n later ≡ failed)
judge_stable p o n age later g b =
    let (f, x) = judge-Irreversible_iff p o age in
    let (f', x') = judge-Irreversible_iff p n later in
    let grown : Irreversible p o → Irreversible p n = λ w. record {
      is_in = g.included ∙ w.is_in;
      deep = omega (arith, w.deep, depth-Grown o n g b);
      marked = λ m. g.final (w.marked m);
    } in
    (
      λ h. f'.1 (grown (f.0 h).0, g.succeeded ∙ (f.0 h).1),
      λ h. x'.1 (grown (x.0 h).0, g.succeeded ∙ (x.0 h).1),
    )
