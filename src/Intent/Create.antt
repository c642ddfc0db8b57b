-- ===== src/Intent/Create.antt =====
-- backend/internal/intent/intent.go: how an intent comes to be.
use stablecoin_settlement_en.Common.{
  ℕ, Bool, true, ◌&&◌, ◌||◌, Option, none, some, [], ltb, ◌==◌, not, Bytes, Bytes-eq, is_empty,
  Result, ok, ◌>>◌, refuse_if,
}
use stablecoin_settlement_en.Common.Int.{ℤ, is_pos_ℤ}
use stablecoin_settlement_en.Common.Encode.{signed_decimal}
use stablecoin_settlement_en.Paymentref.{Terms, derive}
use stablecoin_settlement_en.Intent.State.{created}
use stablecoin_settlement_en.Intent.Machine.{Intent, Error, invalid_spec}

pub record Spec : Type 0 where
  pub id : Bytes
  pub chain : Bytes
  pub token : Bytes
  pub payer : Bytes
  pub merchant : Bytes
  pub amount : Option ℤ
  pub expires_at : ℕ

abbrev pub amount_text : Option ℤ → Bytes
amount_text none = []
amount_text (some a) = signed_decimal a

-- `Terms`.
unfoldable pub terms : Intent → Terms
terms it = record {
  intent_id = it.id;
  chain = it.chain;
  token = it.token;
  payer = it.payer;
  merchant = it.merchant;
  amount = amount_text it.amount;
}

-- `Amount == nil || Amount.Sign() <= 0`.
abbrev pub not_positive : Option ℤ → Bool
not_positive none = true
not_positive (some a) = not (is_pos_ℤ a)

unref : Spec → ℕ → Intent
unref spec now = record {
  id = spec.id;
  ref = [];
  chain = spec.chain;
  token = spec.token;
  payer = spec.payer;
  merchant = spec.merchant;
  amount = spec.amount;
  state = created;
  version = 1;
  tx_hash = [];
  created_at = now;
  updated_at = now;
  expires_at = spec.expires_at;
  history = [];
}

-- The ref is filled in last, from the intent's own terms.
unfoldable pub with_ref : (Bytes → Bytes) → Intent → Intent
with_ref sha256 it = record it { ref = derive sha256 (terms it) }

unfoldable pub new : (Bytes → Bytes) → Spec → ℕ → Result Error Intent
unfolding with_ref unref
new sha256 spec now = do
  refuse_if (is_empty spec.id) invalid_spec
  refuse_if
      (is_empty spec.chain || is_empty spec.token || is_empty spec.payer || is_empty spec.merchant)
      invalid_spec
  refuse_if (not_positive spec.amount) invalid_spec
  refuse_if (not (spec.expires_at == 0) && not (ltb now spec.expires_at)) invalid_spec
  ok (with_ref sha256 (unref spec now))
