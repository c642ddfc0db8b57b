-- ===== src/Ledger/Entry.antt =====
-- backend/internal/ledger/ledger.go: an entry of the journal, and what makes one valid by itself.
-- A nil amount is refused with the error of a zero amount, so `amount` is a plain integer. Times
-- are nanoseconds since Go's zero time.
use stablecoin_settlement_en.Common.{
  ℕ, Bool, true, false, ◌&&◌, ◌||◌, List, [], ◌∷◌, ◌++◌, ltb, ◌==◌, if◌then◌else◌, not, length,
  Bytes, str, ◌=?◌, Bytes-eq, is_empty, Result, ok, err, ◌>>=◌, ◌>>◌, refuse_if,
}
use stablecoin_settlement_en.Common.Int.{ℤ, pos, ◌+ℤ◌, is_zero_ℤ, eq_ℤ}
use stablecoin_settlement_en.Paymentref.{Ref, is_zero}

pub record Asset : Type 0 where
  pub chain : Bytes
  pub token : Bytes

-- `Account` is `kind:owner`.
abbrev pub Account : Type 0
Account = Bytes

unfoldable pub payer_account : Bytes → Account
payer_account addr = str "payer:" ++ addr

unfoldable pub merchant_account : Bytes → Account
merchant_account addr = str "merchant:" ++ addr

unfoldable pub fee_account : Bytes → Account
fee_account token = str "fee:" ++ token

pub record Leg : Type 0 where
  pub account : Account
  pub amount : ℤ

pub data Kind : Type 0 where
  hold post void : Kind
  unknown : Bytes → Kind

pub record Entry : Type 0 where
  pub id : Bytes
  pub ref : Ref
  pub kind : Kind
  pub holds : Bytes
  pub asset : Asset
  pub legs : List Leg
  pub by : Bytes
  pub at : ℕ
  pub tx_hash : Bytes
  pub memo : Bytes
  pub seq : ℕ
  pub prev_hash : Bytes
  pub hash : Bytes

pub data Error : Type 0 where
  invalid_entry unbalanced conflict no_such_hold already_resolved not_found chain_broken
        out_of_range :
      Error

-- The map `seen` of `validateLegs`.
unfoldable pub seen_in : Account → List Account → Bool
seen_in a [] = false
seen_in a (b ∷ bs) = if b =? a then true else seen_in a bs

-- The loop of `validateLegs`: the sum of the legs, if none is refused.
unfoldable pub sum_legs : List Leg → List Account → ℤ → Result Error ℤ
unfolding seen_in
sum_legs [] seen sum = ok sum
sum_legs (l ∷ ls) seen sum = do
  refuse_if (is_empty l.account) invalid_entry
  refuse_if (is_zero_ℤ l.amount) invalid_entry
  refuse_if (seen_in l.account seen) invalid_entry
  sum_legs ls (l.account ∷ seen) (sum +ℤ l.amount)

unfoldable pub validate_legs : List Leg → Result Error (Unit {0})
unfolding sum_legs
validate_legs legs = do
  refuse_if (ltb (length legs) 2) invalid_entry
  sum ← sum_legs legs [] (pos 0)
  refuse_if (not (is_zero_ℤ sum)) unbalanced

-- The `switch e.Kind` of `Validate`.
unfoldable pub validate_kind : Kind → Bytes → List Leg → Result Error (Unit {0})
unfolding validate_legs
validate_kind hold holds legs = refuse_if (not (is_empty holds)) invalid_entry >> validate_legs legs
validate_kind post holds legs = refuse_if (is_empty holds) invalid_entry >> validate_legs legs
validate_kind void holds legs =
    refuse_if (is_empty holds) invalid_entry >> refuse_if (not (length legs == 0)) invalid_entry
validate_kind (unknown k) holds legs = err invalid_entry

unfoldable pub validate : Entry → Result Error (Unit {0})
unfolding validate_kind is_zero
validate e = do
  refuse_if (is_empty e.id) invalid_entry
  refuse_if (is_zero e.ref) invalid_entry
  refuse_if (is_empty e.asset.chain || is_empty e.asset.token) invalid_entry
  refuse_if (is_empty e.by) invalid_entry
  refuse_if (e.at == 0) invalid_entry
  validate_kind e.kind e.holds e.legs

unfoldable pub kind_eq : Kind → Kind → Bool
kind_eq hold hold = true
kind_eq post post = true
kind_eq void void = true
kind_eq (unknown a) (unknown b) = a =? b
kind_eq _ _ = false

unfoldable pub asset_eq : Asset → Asset → Bool
asset_eq a b = (a.chain =? b.chain) && (a.token =? b.token)

-- The loop of `Same`, after the lengths were compared.
unfoldable pub same_legs : List Leg → List Leg → Bool
same_legs [] [] = true
same_legs [] (m ∷ ms) = false
same_legs (l ∷ ls) [] = false
same_legs (l ∷ ls) (m ∷ ms) = (l.account =? m.account) && eq_ℤ l.amount m.amount && same_legs ls ms

-- `Same`: the fields that the caller fills.
unfoldable pub same : Entry → Entry → Bool
unfolding kind_eq asset_eq same_legs
same e o =
    (e.id =? o.id)
    && (e.ref =? o.ref)
    && kind_eq e.kind o.kind
    && (e.holds =? o.holds)
    && asset_eq e.asset o.asset
    && (e.by =? o.by)
    && (e.at == o.at)
    && (e.tx_hash =? o.tx_hash)
    && (e.memo =? o.memo)
    && (length e.legs == length o.legs)
    && same_legs e.legs o.legs
