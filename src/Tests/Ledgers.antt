-- ===== src/Tests/Ledgers.antt =====
-- Tests of backend/internal/ledger: a hold of 100 that is posted as 99 and a fee of 1.
use stablecoin_settlement_en.Common.{
  ℕ, ◌≡◌, refl, ◌↔◌, true, false, List, [], ◌∷◌, arith, length, replicate, Bytes, str, bytes_eq,
  Bytes-eq, is_empty, lookup, insert, ok, err,
}
use stablecoin_settlement_en.Common.Int.{ℤ, pos, negsuc, ◌+ℤ◌, ◌-ℤ◌}
use stablecoin_settlement_en.Ledger.Entry.{
  Asset, Leg, Entry, hold, post, validate, validate_legs, chain_broken,
}
use stablecoin_settlement_en.Ledger.Legs.{Balanced, validate_legs-Balanced_iff}
use stablecoin_settlement_en.Ledger.Journal.{Journal, empty, append, verify, write, seal, zero_hash}
use stablecoin_settlement_en.Ledger.Chain.{append-verify, append-verify_broken}
use stablecoin_settlement_en.Ledger.Bookkeeping.{Indexed, append-Indexed, resolutions}
use stablecoin_settlement_en.Ledger.Balances.{balance, balances, key_eq}
use stablecoin_settlement_en.Ledger.Conservation.{Built, start, appended, balances_zero_sum}
use stablecoin_settlement_en.Ledger.Sheets.{sheet_sum}

-- A hash and a clock face for the tests.
abbrev short_hash : Bytes → Bytes
short_hash b = replicate 32 (length b)

abbrev tick : ℕ → Bytes
tick n = n ∷ []

abbrev usdc : Asset
usdc = record { chain = str "evm:1"; token = str "0xT" }

abbrev leg : Bytes → ℤ → Leg
leg a n = record { account = a; amount = n }

abbrev hold_legs_100 : List Leg
hold_legs_100 = leg (str "payer:P") (negsuc 99) ∷ leg (str "merchant:M") (pos 100) ∷ []

abbrev hold_entry : Entry
hold_entry = record {
  id = str "pi_1/hold";
  ref = 7 ∷ replicate 31 0;
  kind = hold;
  holds = [];
  asset = usdc;
  legs = hold_legs_100;
  by = str "relayer";
  at = 5;
  tx_hash = [];
  memo = [];
  seq = 0;
  prev_hash = zero_hash;
  hash = zero_hash;
}

abbrev post_entry : Entry
post_entry = record hold_entry {
  id = str "pi_1/post";
  kind = post;
  holds = str "pi_1/hold";
  legs =
      leg (str "payer:P") (negsuc 99)
      ∷ leg (str "merchant:M") (pos 99)
      ∷ leg (str "fee:T") (pos 1)
      ∷ [];
  by = str "listener";
}

abbrev held : Journal
held = write short_hash tick empty hold_entry

abbrev posted : Journal
posted = write short_hash tick held post_entry

held_runs :
    append short_hash tick empty hold_entry ≡ ok (held, seal short_hash tick [] hold_entry, true)
unfolding append write lookup insert empty is_empty bytes_eq ◌+ℤ◌
held_runs = refl

posted_runs :
    append short_hash tick held post_entry
    ≡ ok (posted, seal short_hash tick held.entries post_entry, true)
unfolding append write lookup insert empty is_empty bytes_eq ◌+ℤ◌
posted_runs = refl

posted_Built : Built short_hash tick posted
posted_Built =
    appended held posted post_entry _ true (appended empty held hold_entry _ true start held_runs)
      posted_runs

posted_balance :
    balance posted (str "merchant:M") usdc ≡ record { pending = pos 0; posted = pos 99 }
unfolding balance write lookup insert empty bytes_eq ◌+ℤ◌ ◌-ℤ◌ key_eq
posted_balance = refl

validate_legs-Balanced_iff_example : (validate_legs hold_legs_100 ≡ ok tt) ↔ Balanced hold_legs_100
validate_legs-Balanced_iff_example = validate_legs-Balanced_iff hold_legs_100

empty-Indexed : Indexed empty
unfolding empty lookup resolutions
empty-Indexed = record {
  finds = λ id i h. absurd (ground arith);
  found = λ i e h. absurd (ground arith);
  once = λ h. omega arith;
  open_holds = λ h e. refl;
}

held-Indexed : Indexed held
held-Indexed = append-Indexed short_hash tick empty held hold_entry _ true empty-Indexed held_runs

append-Indexed_example : Indexed posted
append-Indexed_example =
    append-Indexed short_hash tick held posted post_entry
      (seal short_hash tick held.entries post_entry) true held-Indexed posted_runs

balances_zero_sum_example : sheet_sum false usdc (balances posted.entries) ≡ pos 0
balances_zero_sum_example = balances_zero_sum short_hash tick usdc false posted_Built

held_verifies : verify short_hash tick held ≡ ok tt
held_verifies =
    append-verify short_hash tick empty held hold_entry _ true (unfold verify empty in refl)
      (λ _. refl) held_runs

append-verify_example : verify short_hash tick posted ≡ ok tt
unfolding write empty
append-verify_example =
    append-verify short_hash tick held posted post_entry
      (seal short_hash tick held.entries post_entry) true held_verifies (λ h. absurd (ground arith))
      posted_runs

-- A hold that comes with a `PrevHash` of its own.
abbrev stray : Entry
stray = record hold_entry { prev_hash = replicate 32 1 }

append-verify_broken_example :
    (k : Journal) × (stored : Entry) × (append short_hash tick empty stray ≡ ok (k, stored, true))
    × (verify short_hash tick k ≡ err chain_broken)
unfolding validate is_empty bytes_eq ◌+ℤ◌
append-verify_broken_example =
    append-verify_broken short_hash tick stray refl refl (λ h. ground arith)
