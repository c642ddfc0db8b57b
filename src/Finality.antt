-- ===== src/Finality.antt =====
-- backend/internal/finality/finality.go: whether what the chain says of a transaction counts.
-- The texts of the reasons are left out, and with them the policy's marker name.
use stablecoin_settlement_en.Common.{
  ℕ, ◌+◌, ◌-◌, ◌*◌, ◌%◌, ◌^◌, Bool, true, ◌&&◌, ◌||◌, [], ◌∷◌, u64, ltb, leb, if◌then◌else◌, not,
  Bytes, str, Dict,
}
pub mod Verdicts

-- Heights are uint64 values.
pub record Observation : Type 0 where
  pub included : Bool
  pub height : ℕ
  pub head : ℕ
  pub final : Bool
  pub succeeded : Bool

-- `Depth`.
unfoldable pub depth : Observation → ℕ
depth o = if not o.included || ltb o.head o.height then 0 else (o.head - o.height + 1) % u64

pub record Policy : Type 0 where
  pub require_marker : Bool
  pub confirmations : ℕ
  pub lost_after : ℕ

abbrev minutes : ℕ → ℕ
minutes n = n * 60 * 10 ^ 9

-- `Defaults`.
abbrev pub defaults : Dict Bytes Policy
defaults =
    (str "evm", record { require_marker = true; confirmations = 0; lost_after = minutes 5 })
    ∷ (str "solana", record { require_marker = true; confirmations = 0; lost_after = minutes 2 })
    ∷ (str "ton", record { require_marker = true; confirmations = 0; lost_after = minutes 2 })
    ∷ (str "sui", record { require_marker = true; confirmations = 0; lost_after = minutes 2 })
    ∷ []

pub data Kind : Type 0 where
  pending final failed lost : Kind

-- `Judge`.
unfoldable pub judge : Policy → Observation → ℕ → Kind
unfolding depth
judge p o age =
    if not o.included
    then if ltb 0 p.lost_after && leb p.lost_after age then lost else pending
    else if ltb 0 p.confirmations && ltb (depth o) p.confirmations
    then pending
    else if p.require_marker && not o.final
    then pending
    else if not o.succeeded
    then failed
    else final
