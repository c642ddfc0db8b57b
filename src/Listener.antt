-- ===== src/Listener.antt =====
-- backend/internal/listener: a payment in confirming is settled, handed back or put to review.
-- The watcher, which reads the chain, is a parameter; the texts that fmt builds are left to `Words`.
use stablecoin_settlement_en.Common.{
  ℕ, ◌-◌, Option, none, some, [], ◌∷◌, ◌++◌, ◌==◌, if◌then◌else◌, not, Bytes, str, Bytes-eq, Dict,
  lookup, Result, ok, err,
}
use stablecoin_settlement_en.Common.Int.{ℤ, pos, ◌-ℤ◌, eq_ℤ}
use stablecoin_settlement_en.Intent.State.{
  State, confirming, settling, settled, needs_review, listener, state_eq,
}
use stablecoin_settlement_en.Intent.Machine.{Intent, Request, apply}
use stablecoin_settlement_en.Intent.Machine as Machine
use stablecoin_settlement_en.Intent.Store as Store
use stablecoin_settlement_en.Intent.Store.{get, write_back}
use stablecoin_settlement_en.Ledger.Entry.{Entry, post, payer_account, merchant_account}
use stablecoin_settlement_en.Ledger.Entry as Entry
use stablecoin_settlement_en.Ledger.Journal.{Journal, append, zero_hash}
use stablecoin_settlement_en.Finality.{
  Observation, Policy, Kind, pending, final, failed, lost, judge,
}
pub mod Checks

-- `received` is what the merchant got in a transfer with the intent's ref, if there was one.
pub record Sighting : Type 0 where
  pub observed : Observation
  pub received : Option ℤ

pub data Outcome : Type 0 where
  wait settle hand_back review no_op : Outcome

-- `nil_amount` is a panic, on an intent without an amount.
pub data Error : Type 0 where
  from_intent : Machine.Error → Error
  from_ledger : Entry.Error → Error
  from_watcher no_policy nil_amount : Error

pub record Report : Type 0 where
  pub intent_id : Bytes
  pub tx_hash : Bytes
  pub outcome : Option Outcome

-- The stores that a listener writes.
pub record Books : Type 0 where
  pub intents : Store.Store
  pub journal : Journal

-- The reasons that the code builds.
pub data Words : Type 0 where
  not_on_chain reverted no_transfer other_amount : Words

-- `Protocol`: what stands before the first colon.
unfoldable pub protocol : Bytes → Bytes
protocol [] = []
protocol (c ∷ cs) = let rest = protocol cs in if c == 58 then [] else c ∷ rest

-- `postEntry`.
unfoldable pub post_entry : Intent → ℤ → Entry
post_entry it received = record {
  id = it.id ++ str "/post";
  ref = it.ref;
  kind = post;
  holds = it.id ++ str "/hold";
  asset = record { chain = it.chain; token = it.token };
  legs =
      record { account = payer_account it.payer; amount = pos 0 -ℤ received }
      ∷ record { account = merchant_account it.merchant; amount = received }
      ∷ [];
  by = str "listener";
  at = it.updated_at;
  tx_hash = it.tx_hash;
  memo = [];
  seq = 0;
  prev_hash = zero_hash;
  hash = zero_hash;
}

abbrev pub report : Intent → Option Outcome → Report
report it o = record { intent_id = it.id; tx_hash = it.tx_hash; outcome = o }

-- What `Check` reads besides the books: the rules of the chains, the clock, and the texts.
pub record Setup : Type 0 where
  pub policies : Dict Bytes Policy
  pub now : ℕ
  pub text : Words → Bytes

abbrev pub Checked : Type 0
Checked = Books × Result Error Report

module _ (sha256 : Bytes → Bytes) where
  -- `push`.
  unfoldable pub push : Intent → Outcome → Request → Books → Checked
  unfolding write_back
  push it out req b = elim (apply it req) [
    | err e ↦ (b, err (from_intent e))
    | ok r ↦ elim (write_back sha256 b.intents it.version r) [
      | err e ↦ (b, err (from_intent e))
      | ok (s, x, changed) ↦ (record b { intents = s }, ok (report it (some out)))
    ]
  ]

  unfoldable pub to_review : Setup → Words → Intent → Books → Checked
  unfolding push
  to_review u why it b =
      push it review
        (record { to = needs_review; by = listener; tx_hash = []; reason = u.text why; at = u.now })
        b

  unfoldable pub to_settling : Setup → Intent → Books → Checked
  unfolding push
  to_settling u it b =
      push it hand_back
        (record {
          to = settling;
          by = listener;
          tx_hash = [];
          reason = u.text not_on_chain;
          at = u.now;
        })
        b

module _ (sha256 : Bytes → Bytes) (stamp : ℕ → Bytes) where
  -- The post is written first, and then the intent is settled.
  unfoldable pub to_settled : Setup → Intent → ℤ → Books → Checked
  unfolding post_entry push
  to_settled u it received b = elim (append sha256 stamp b.journal (post_entry it received)) [
    | err e ↦ (b, err (from_ledger e))
    | ok (j, e, applied) ↦
        push sha256 it settle
          (record { to = settled; by = listener; tx_hash = it.tx_hash; reason = []; at = u.now })
          (record b { journal = j })
  ]

  -- The second question, of a transaction that is final and was executed: did the money move?
  unfoldable pub paid : Setup → Intent → Option ℤ → Books → Checked
  unfolding to_settled to_review
  paid u it none b = to_review sha256 u no_transfer it b
  paid u it (some received) b = elim it.amount [
    | none ↦ (b, err nil_amount)
    | some amount ↦
        if not (eq_ℤ received amount)
        then to_review sha256 u other_amount it b
        else to_settled u it received b
  ]

  -- `switch v.Kind`, and what follows it.
  unfoldable pub ruled : Setup → Intent → Sighting → Kind → Books → Checked
  unfolding paid to_settling to_review
  ruled u it seen k b = elim k [
    | pending ↦ (b, ok (report it (some wait)))
    | lost ↦ to_settling sha256 u it b
    | failed ↦ to_review sha256 u reverted it b
    | final ↦ paid u it seen.received b
  ]

  -- `Check` of an intent that was read.
  unfoldable pub check_intent : Setup → (Intent → Option Sighting) → Intent → Books → Checked
  unfolding ruled protocol
  check_intent u watcher it b =
      if not (state_eq it.state confirming)
      then (b, ok (report it (some no_op)))
      else elim (lookup (protocol it.chain) u.policies) [
        | none ↦ (b, err no_policy)
        | some p ↦ elim (watcher it) [
          | none ↦ (b, err from_watcher)
          | some seen ↦ ruled u it seen (judge p seen.observed (u.now - it.updated_at)) b
        ]
      ]

  -- `Check`.
  unfoldable pub check : Setup → (Intent → Option Sighting) → Bytes → Books → Checked
  unfolding check_intent get
  check u watcher id b = elim (get b.intents id) [
    | err e ↦ (b, err (from_intent e))
    | ok it ↦ check_intent u watcher it b
  ]
