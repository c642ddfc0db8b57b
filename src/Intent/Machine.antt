-- ===== src/Intent/Machine.antt =====
-- backend/internal/intent/machine.go and the intent's record of intent.go: one guarded transition.
-- Times are nanoseconds since Go's zero time, so 0 is `IsZero` and `After` is `<`.
use stablecoin_settlement_en.Common.{
  ℕ, ◌+◌, ◌%◌, Bool, true, false, ◌&&◌, Option, none, some, List, [], ◌∷◌, ◌++◌, u64, ltb, ◌==◌,
  if◌then◌else◌, not, Bytes, ◌=?◌, Bytes-eq, is_empty, Result, ok, err, ◌>>=◌, ◌>>◌, refuse_if,
}
use stablecoin_settlement_en.Common.Int.{ℤ}
use stablecoin_settlement_en.Intent.State.{
  State, Actor, Rule, created, authorized, settling, confirming, settled, state_eq, terminal, valid,
  lookup_rule, allows,
}

pub record Transition : Type 0 where
  pub from : State
  pub to : State
  pub by : Actor
  pub at : ℕ
  pub tx_hash : Bytes
  pub reason : Bytes

-- `amount` is a `*big.Int`, which may be nil.
pub record Intent : Type 0 where
  pub id : Bytes
  pub ref : Bytes
  pub chain : Bytes
  pub token : Bytes
  pub payer : Bytes
  pub merchant : Bytes
  pub amount : Option ℤ
  pub state : State
  pub version : ℕ
  pub tx_hash : Bytes
  pub created_at : ℕ
  pub updated_at : ℕ
  pub expires_at : ℕ
  pub history : List Transition

pub record Request : Type 0 where
  pub to : State
  pub by : Actor
  pub tx_hash : Bytes
  pub reason : Bytes
  pub at : ℕ

pub data Error : Type 0 where
  is_terminal illegal_transition forbidden_actor missing_evidence evidence_mismatch expired
        unknown_state not_found version_conflict ref_mismatch invalid_spec :
      Error

-- The conditions of single transitions, outside the table.
unfoldable pub guard : Intent → Request → Result Error (Unit {0})
unfolding state_eq
guard it req =
    if state_eq it.state created && state_eq req.to authorized
    then refuse_if (not (it.expires_at == 0) && ltb it.expires_at req.at) expired
    else if state_eq req.to settled
    then refuse_if (not (is_empty it.tx_hash) && not (it.tx_hash =? req.tx_hash)) evidence_mismatch
    else ok tt

-- The `switch req.To` that moves the transaction hash.
unfoldable pub next_tx_hash : State → Bytes → Bytes → Bytes
next_tx_hash confirming old given = given
next_tx_hash settling old given = []
next_tx_hash settled old given = given
next_tx_hash _ old given = old

-- The fields that an accepted request changes.
unfoldable pub write : Intent → Request → Intent
unfolding next_tx_hash
write it req = record it {
  history =
      it.history
      ++ record {
        from = it.state;
        to = req.to;
        by = req.by;
        at = req.at;
        tx_hash = req.tx_hash;
        reason = req.reason;
      }
        ∷ [];
  state = req.to;
  version = (it.version + 1) % u64;
  updated_at = req.at;
  tx_hash = next_tx_hash req.to it.tx_hash req.tx_hash;
}

-- The checks on a rule that was found, and the write.
unfoldable pub apply_rule : Intent → Request → Rule → Result Error (Intent × Bool)
unfolding write
apply_rule it req r = do
  refuse_if (not (allows r req.by)) forbidden_actor
  refuse_if (r.needs_tx_hash && is_empty req.tx_hash) missing_evidence
  refuse_if (r.needs_reason && is_empty req.reason) missing_evidence
  guard it req
  ok (write it req, true)

abbrev or_err {ℓ} : {A : Type ℓ} → Option A → Error → Result Error A
or_err none e = err e
or_err (some a) e = ok a

-- The part of `Apply` behind the replay check.
unfoldable pub apply_live : Intent → Request → Result Error (Intent × Bool)
unfolding apply_rule
apply_live it req = do
  refuse_if (terminal it.state) is_terminal
  r ← or_err (lookup_rule it.state req.to) illegal_transition
  apply_rule it req r

-- `Apply` changes the intent in place: here it returns the intent, and whether it changed.
unfoldable pub apply : Intent → Request → Result Error (Intent × Bool)
unfolding apply_live
apply it req = do
  refuse_if (not (valid req.to)) unknown_state
  if state_eq it.state req.to then ok (it, false) else apply_live it req
