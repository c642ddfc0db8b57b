-- ===== src/Ledger/Legs.antt =====
-- backend/internal/ledger/ledger.go: what `validateLegs` and `Validate` accept.
use stablecoin_settlement_en.Common.{
  ◌≤◌, ◌≡◌, refl, sym, ap, ◌∙◌, ◌≢◌, ◌↔◌, ◌⊎◌, inl, inr, true, false, List, [], ◌∷◌, arith, length,
  All, Bytes, Bytes-eq, is_empty_iff, Result, ok, err,
}
use stablecoin_settlement_en.Common.Int.{
  ℤ, pos, negsuc, ◌+ℤ◌, is_zero_ℤ, +ℤ-zero, zero-+ℤ, +ℤ_assoc,
}
use stablecoin_settlement_en.Ledger.Entry.{
  Account, Leg, Kind, Entry, Error, hold, post, void, unknown, seen_in, sum_legs, validate_legs,
  validate_kind, validate,
}

-- The sum of the legs.
abbrev pub total : List Leg → ℤ
total [] = pos 0
total (l ∷ ls) = l.amount +ℤ total ls

-- No account of the legs stands among those before it.
abbrev pub Fresh : List Account → List Leg → Type 0
Fresh seen [] = Unit {0}
Fresh seen (l ∷ ls) = (seen_in l.account seen ≡ false) × Fresh (l.account ∷ seen) ls

abbrev pub IsLeg : Leg → Type 0
IsLeg l = (l.account ≢ []) × (l.amount ≢ pos 0)

-- Double entry: two legs or more, none empty, no account twice, and the sum is zero.
pub record Balanced (legs : List Leg) : Type 0 where
  pub enough : 2 ≤ length legs
  pub full : All IsLeg legs
  pub distinct : Fresh [] legs
  pub zero_sum : total legs ≡ pos 0

is_zero_ℤ_iff : (a : ℤ) → (is_zero_ℤ a ≡ true) ↔ (a ≡ pos 0)
is_zero_ℤ_iff (pos n) = (λ h. ground arith, λ h. ground arith)
is_zero_ℤ_iff (negsuc n) = (λ h. absurd (ground arith), λ h. absurd (ground arith))

ok_value : (a b : ℤ) → ◌≡◌ {A = Result Error ℤ} (ok a) (ok b) → a ≡ b
ok_value a b h = cc

sum_legs_step :
    (l : Leg) (ls : List Leg) (seen : List Account) (sum t : ℤ)
    → sum_legs (l ∷ ls) seen sum ≡ ok t
    → IsLeg l
      × (seen_in l.account seen ≡ false)
      × (sum_legs ls (l.account ∷ seen) (sum +ℤ l.amount) ≡ ok t)
unfolding sum_legs
sum_legs_step l ls seen sum t h = (
  (λ e. ground (arith, is_empty_iff l.account), λ e. ground (arith, is_zero_ℤ_iff l.amount)),
  ground arith,
  ground arith,
)

sum_legs_nil : (seen : List Account) (sum t : ℤ) → sum_legs [] seen sum ≡ ok t → sum ≡ t
unfolding sum_legs
sum_legs_nil seen sum t h = ok_value sum t h

sum_legs_ok :
    (ls : List Leg) (seen : List Account) (sum t : ℤ)
    → sum_legs ls seen sum ≡ ok t
    → All IsLeg ls × Fresh seen ls × (t ≡ sum +ℤ total ls)
sum_legs_ok [] seen sum t h = (tt, tt, sym (sum_legs_nil seen sum t h) ∙ sym (+ℤ-zero sum))
sum_legs_ok (l ∷ ls) seen sum t h =
    let (leg, new, rest) = sum_legs_step l ls seen sum t h in
    let (a, f, e) = sum_legs_ok ls (l.account ∷ seen) (sum +ℤ l.amount) t rest in
    ((leg, a), (new, f), e ∙ +ℤ_assoc sum l.amount (total ls))

sum_legs_complete :
    (ls : List Leg) (seen : List Account) (sum : ℤ)
    → All IsLeg ls
    → Fresh seen ls
    → sum_legs ls seen sum ≡ ok (sum +ℤ total ls)
unfolding sum_legs
sum_legs_complete [] seen sum a f = ap ok (sym (+ℤ-zero sum))
sum_legs_complete (l ∷ ls) seen sum a f =
    let rest = sum_legs_complete ls (l.account ∷ seen) (sum +ℤ l.amount) a.1 f.1 in
    ground (
      arith,
      is_empty_iff l.account,
      is_zero_ℤ_iff l.amount,
      a.0.0,
      a.0.1,
      +ℤ_assoc sum l.amount (total ls),
    )

validate_legs_ok :
    (legs : List Leg)
    → validate_legs legs ≡ ok tt
    → (t : ℤ) × (sum_legs legs [] (pos 0) ≡ ok t) × (t ≡ pos 0)
unfolding validate_legs
validate_legs_ok legs h = go (sum_legs legs [] (pos 0)) refl
  where
    go :
        (r : Result Error ℤ)
        → sum_legs legs [] (pos 0) ≡ r
        → (t : ℤ) × (sum_legs legs [] (pos 0) ≡ ok t) × (t ≡ pos 0)
    go (ok t) e = (t, e, ground (arith, is_zero_ℤ_iff t))
    go (err x) e = absurd (ground arith)

-- `validateLegs` accepts exactly the balanced entries.
pub validate_legs-Balanced_iff : (legs : List Leg) → (validate_legs legs ≡ ok tt) ↔ Balanced legs
unfolding validate_legs
validate_legs-Balanced_iff legs = (accepted, complete)
  where
    accepted : validate_legs legs ≡ ok tt → Balanced legs
    accepted h =
        let (t, e, z) = validate_legs_ok legs h in
        let (a, f, s) = sum_legs_ok legs [] (pos 0) t e in
        record {
          enough = ground arith;
          full = a;
          distinct = f;
          zero_sum = sym (zero-+ℤ (total legs)) ∙ sym s ∙ z;
        }

    complete : Balanced legs → validate_legs legs ≡ ok tt
    complete b = ground (
      arith,
      b.enough,
      b.zero_sum,
      sum_legs_complete legs [] (pos 0) b.full b.distinct,
      zero-+ℤ (total legs),
    )

length-zero {ℓ} : {A : Type ℓ} (xs : List A) → length xs ≡ 0 → xs ≡ []
length-zero [] h = refl
length-zero (x ∷ xs) h = absurd (omega arith)

validate_kind-zero_sum :
    (k : Kind) (holds : Bytes) (legs : List Leg)
    → validate_kind k holds legs ≡ ok tt
    → total legs ≡ pos 0
unfolding validate_kind
validate_kind-zero_sum hold holds legs h =
    ((validate_legs-Balanced_iff legs).0 (ground arith)).zero_sum
validate_kind-zero_sum post holds legs h =
    ((validate_legs-Balanced_iff legs).0 (ground arith)).zero_sum
validate_kind-zero_sum void holds legs h = ap total (length-zero legs (ground arith))
validate_kind-zero_sum (unknown k) holds legs h = absurd (ground arith)

kind_cases :
    (k : Kind) (holds : Bytes) (legs : List Leg)
    → validate_kind k holds legs ≡ ok tt
    → ((k ≡ hold) × (holds ≡ []))
      ⊎ ((k ≡ post) × (holds ≢ []))
      ⊎ ((k ≡ void) × (holds ≢ []) × (legs ≡ []))
unfolding validate_kind
kind_cases hold holds legs h = inl (refl, ground (arith, is_empty_iff holds))
kind_cases post holds legs h = inr (inl (refl, λ e. ground (arith, is_empty_iff holds)))
kind_cases void holds legs h =
    inr (inr (refl, λ e. ground (arith, is_empty_iff holds), length-zero legs (ground arith)))
kind_cases (unknown k) holds legs h = absurd (ground arith)

-- Of an entry that `Validate` passes, the legs sum to zero; a void has none.
pub validate-zero_sum : (e : Entry) → validate e ≡ ok tt → total e.legs ≡ pos 0
unfolding validate
validate-zero_sum e h = validate_kind-zero_sum e.kind e.holds e.legs (ground arith)

-- What a valid entry is: its kind is one of the three, and only a hold names no other hold.
pub validate-kind :
    (e : Entry)
    → validate e ≡ ok tt
    → ((e.kind ≡ hold) × (e.holds ≡ []))
      ⊎ ((e.kind ≡ post) × (e.holds ≢ []))
      ⊎ ((e.kind ≡ void) × (e.holds ≢ []) × (e.legs ≡ []))
unfolding validate
validate-kind e h = kind_cases e.kind e.holds e.legs (ground arith)
