-- ===== src/Tests/Bulks.antt =====
-- Tests of backend/internal/bulk: three payouts that fit two to a transaction.
use stablecoin_settlement_en.Common.{
  ℕ, ◌≡◌, refl, false, some, List, [], ◌∷◌, arith, length, replicate, All, str, Bytes-eq,
}
use stablecoin_settlement_en.Common.Int.{pos}
use stablecoin_settlement_en.Bulk.{
  Payout, Batch, Usage, Rule, Limits, Plan, pack, pack_greedy, creations, max_items,
}
use stablecoin_settlement_en.Bulk.Joins.{joined, Numbered, opened, pack-joined}
use stablecoin_settlement_en.Bulk.Caps.{WithinCaps, pack_greedy-WithinCaps}

abbrev pay : ℕ → Payout
pay n = record {
  ref = n ∷ replicate 31 0;
  merchant = str "0xM";
  amount = some (pos n);
  new_token_account = false;
}

abbrev run : List Payout
run = pay 1 ∷ pay 2 ∷ pay 3 ∷ []

abbrev gas : Rule
gas = record { unit = str "gas"; cap = 150000; base = 37310; item = 53220; per_level = 0 }

abbrev limits : Limits
limits = record {
  chain = str "evm";
  rules = gas ∷ [];
  align = 0;
  prepare_rules = [];
  new_account_rent = 0;
  rent_unit = str "wei";
}

abbrev use_of : ℕ → Usage
use_of n = record { unit = str "gas"; used = n; cap = 150000 }

abbrev two_batches : List Batch
two_batches =
    record {
      index = 1;
      items = pay 1 ∷ pay 2 ∷ [];
      used = use_of 143750 ∷ [];
      prep = false;
      new_accounts = 0;
    }
    ∷ record {
      index = 2;
      items = pay 3 ∷ [];
      used = use_of 90530 ∷ [];
      prep = false;
      new_accounts = 0;
    }
    ∷ []

abbrev plan : Plan
plan = record {
  chain = str "evm";
  payouts = 3;
  prepare = [];
  batches = two_batches;
  levels = 0;
  proof_hashes = 0;
  new_accounts = 0;
  rent = 0;
  rent_unit = str "wei";
}

-- `MaxItems` agrees.
two_fit : max_items limits ≡ 2
unfolding max_items
two_fit = refl

pack-joined_example :
    (joined two_batches ≡ run)
    × Numbered 1 two_batches
    × (joined [] ≡ opened limits run)
    × Unit {0}
    × (plan.payouts ≡ length run)
    × (plan.new_accounts ≡ length (creations run))
unfolding pack pack_greedy
pack-joined_example = pack-joined run limits plan refl

pack_greedy-WithinCaps_example : All WithinCaps two_batches
unfolding pack_greedy
pack_greedy-WithinCaps_example =
    pack_greedy-WithinCaps run limits two_batches ((omega arith, omega arith, omega arith), tt) refl
      refl
