-- ===== src/Tests/Listeners.antt =====
-- Tests of backend/internal/listener: one payment that is seen on the chain.
use stablecoin_settlement_en.Common.{
  ℕ, ◌≡◌, refl, true, Option, none, some, [], ◌∷◌, replicate, Bytes, str, bytes_eq, Bytes-eq,
  is_empty, lookup, insert,
}
use stablecoin_settlement_en.Common.Int.{pos, ◌-ℤ◌, ◌+ℤ◌}
use stablecoin_settlement_en.Intent.State.{
  confirming, settled, state_eq, valid, terminal, lookup_rule, allows,
}
use stablecoin_settlement_en.Intent.Machine.{Intent, apply, guard}
use stablecoin_settlement_en.Finality.{defaults, judge}
use stablecoin_settlement_en.Paymentref.{derive}
use stablecoin_settlement_en.Ledger.Entry.{payer_account, merchant_account}
use stablecoin_settlement_en.Listener.{Sighting, Setup, Books, check}
use stablecoin_settlement_en.Listener.Checks.{Verdict, check-Verdict}
use stablecoin_settlement_en.Relayer.Ship.{hold_entry}
use stablecoin_settlement_en.Ledger.Journal as Journal

abbrev one_hash : Bytes → Bytes
one_hash b = 7 ∷ replicate 31 0

abbrev no_stamp : ℕ → Bytes
no_stamp n = []

abbrev included : Intent
included = record {
  id = str "pi_1";
  ref = 7 ∷ replicate 31 0;
  chain = str "evm:1";
  token = str "0xT";
  payer = str "0xP";
  merchant = str "0xM";
  amount = some (pos 100);
  state = confirming;
  version = 4;
  tx_hash = str "0xaa";
  created_at = 10;
  updated_at = 20;
  expires_at = 0;
  history = [];
}

abbrev books : Books
books = record {
  intents = record {
    m = insert included.id included [];
    by_ref = insert included.ref included.id [];
  };
  journal =
      Journal.write one_hash no_stamp (record { entries = []; by_id = []; resolved = [] })
        (hold_entry included (pos 100));
}

abbrev rules : Setup
rules = record { policies = defaults; now = 100; text = λ w. str "reason" }

-- The whole amount came, in a block that is final.
abbrev all_came : Intent → Option Sighting
all_came it = some (record {
  observed = record { included = true; height = 5; head = 9; final = true; succeeded = true };
  received = some (pos 100);
})

there : lookup (str "pi_1") books.intents.m ≡ some included
unfolding lookup insert bytes_eq
there = refl

check-Verdict_example :
    (y : Intent) × (lookup
        (str "pi_1")
        (check one_hash no_stamp rules all_came (str "pi_1") books).0.intents.m
      ≡ some y)
    × Verdict one_hash no_stamp rules all_came included books
        (check one_hash no_stamp rules all_came (str "pi_1") books).0
        y
check-Verdict_example =
    check-Verdict one_hash no_stamp rules all_came (str "pi_1") included books there refl

-- The payment is settled, and the post is in the books.
settles :
    elim (lookup
      (str "pi_1")
      (check one_hash no_stamp rules all_came (str "pi_1") books).0.intents.m) [
        | none ↦ confirming
        | some y ↦ y.state
      ]
    ≡ settled
unfolding check lookup insert bytes_eq state_eq judge Journal.append is_empty payer_account ◌-ℤ◌
    merchant_account ◌+ℤ◌ hold_entry apply valid terminal lookup_rule allows guard derive
settles = refl
