-- ===== src/Paymentref.antt =====
-- backend/internal/paymentref/ref.go: the commitment to a payment's terms, and its text form.
-- A `Ref` is 32 bytes; SHA-256 is a parameter.
use stablecoin_settlement_en.Common.{
  ℕ, Bool, List, [], ◌∷◌, ◌++◌, replicate, Bytes, str, ◌=?◌, Bytes-eq,
}
use stablecoin_settlement_en.Common.Encode.{put, put-injective, IsShort}
pub mod Hex
pub mod Binding

abbrev pub Ref : Type 0
Ref = Bytes

-- `Size`.
abbrev pub size : ℕ
size = 32

abbrev pub domain_v1 : Bytes
domain_v1 = str "stablecoin-settlement-engine/payment-ref/v1"

pub record Terms : Type 0 where
  pub intent_id : Bytes
  pub chain : Bytes
  pub token : Bytes
  pub payer : Bytes
  pub merchant : Bytes
  pub amount : Bytes

-- The loop of `Preimage`.
unfoldable pub put_all : List Bytes → Bytes
put_all [] = []
put_all (f ∷ fs) = put f ++ put_all fs

abbrev pub fields : Terms → List Bytes
fields t = domain_v1 ∷ t.intent_id ∷ t.chain ∷ t.token ∷ t.payer ∷ t.merchant ∷ t.amount ∷ []

unfoldable pub preimage : Terms → Bytes
preimage t = put_all (fields t)

unfoldable pub derive : (Bytes → Bytes) → Terms → Ref
derive sha256 t = sha256 (preimage t)

-- `IsZero`: the zero value of the array.
unfoldable pub is_zero : Ref → Bool
is_zero r = r =? replicate size 0
