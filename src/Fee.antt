-- ===== src/Fee.antt =====
-- backend/internal/txfee: what to do about a payment that is stuck, and at what price.
-- Fees are in wei, a missing `*big.Int` is `none`; the texts of the reasons are left out.
use stablecoin_settlement_en.Common.{
  ℕ, ◌+◌, ◌*◌, ◌/◌, ◌%◌, ◌^◌, Bool, true, false, ◌||◌, Option, none, some, u64, ltb, leb, ◌==◌,
  if◌then◌else◌, Result, ok, err, ◌>>=◌, ◌>>◌, refuse_if,
}
use stablecoin_settlement_en.Txseq.{Sent, sent, not_sent, unknown}
pub mod Plans

pub record Fee : Type 0 where
  pub cap : Option ℕ
  pub tip : Option ℕ

-- `Sign() == 0`, of a value that is there.
unfoldable pub no_amount : Option ℕ → Bool
no_amount none = true
no_amount (some v) = v == 0

-- `Fee.Zero`.
unfoldable pub zero_fee : Fee → Bool
unfolding no_amount
zero_fee f = no_amount f.cap || no_amount f.tip

pub record Policy : Type 0 where
  pub base : Fee
  pub bump_percent : ℕ
  pub max_cap : Option ℕ
  pub max_tries : ℕ

-- `NewFee`, from gwei.
abbrev pub new_fee : ℕ → ℕ → Fee
new_fee cap tip = record { cap = some (cap * 10 ^ 9); tip = some (tip * 10 ^ 9) }

-- `DefaultPolicy`.
abbrev pub default_policy : Policy
default_policy = record {
  base = new_fee 30 2;
  bump_percent = 10;
  max_cap = some (45 * 10 ^ 9);
  max_tries = 3;
}

pub data Error : Type 0 where
  ceiling nil_amount : Error

-- `bump`: the quotient, and one more when there is a remainder. `100 + pct` wraps as a uint64.
unfoldable pub bump : ℕ → ℕ → ℕ
bump v pct = let n = v * ((100 + pct) % u64) in if n % 100 == 0 then n / 100 else n / 100 + 1

-- `big.Int` methods panic on a nil pointer, which only a policy without a base brings here.
unfoldable pub amount : Option ℕ → Result Error ℕ
amount none = err nil_amount
amount (some v) = ok v

unfoldable pub over : Option ℕ → ℕ → Bool
over none cap = false
over (some m) cap = ltb m cap

-- `Policy.Bump`.
unfoldable pub bump_fee : Policy → Fee → Result Error Fee
unfolding zero_fee bump amount over
bump_fee p f = do
  let g = if zero_fee f then p.base else f
  cap ← amount g.cap
  tip ← amount g.tip
  refuse_if (over p.max_cap (bump cap p.bump_percent)) ceiling
  ok (record { cap = some (bump cap p.bump_percent); tip = some (bump tip p.bump_percent) })

pub data Kind : Type 0 where
  wait speed_up cancel review : Kind

pub record Stuck : Type 0 where
  pub sent : Sent
  pub fee : Fee
  pub tries : ℕ
  pub age : ℕ
  pub stuck_after : ℕ

pub record Plan : Type 0 where
  pub kind : Kind
  pub fee : Fee

abbrev pub no_fee : Fee
no_fee = record { cap = none; tip = none }

-- The fee of the next broadcast: only one that may be in a mempool has to be outbid.
unfoldable pub next_fee : Policy → Stuck → Result Error Fee
unfolding bump_fee
next_fee p s = elim s.sent [ not_sent ↦ ok p.base | _ ↦ bump_fee p s.fee ]

-- `Policy.Decide`, but for the panic of `bump_fee`.
unfoldable pub decide : Policy → Stuck → Result Error Plan
unfolding next_fee
decide p s =
    if ltb s.age s.stuck_after
    then ok (record { kind = wait; fee = no_fee })
    else elim (next_fee p s) [
      | err ceiling ↦ ok (record { kind = review; fee = no_fee })
      | err nil_amount ↦ err nil_amount
      | ok fee ↦
          ok (record { kind = (if leb p.max_tries s.tries then cancel else speed_up); fee = fee })
    ]
