-- ===== src/Common/Encode.antt =====
-- Go's encodings that the hashed preimages are made of: `binary.AppendUvarint`, a length-prefixed
-- field, and `big.Int.String`; each can be read back from what it wrote.
use Prim.Native.Nat.{ℕ, zero, suc, ◌+◌, ◌-◌, ◌*◌, ◌/◌, ◌%◌, ◌^◌, ◌≤◌, ◌<◌}
use mathlib.Core.Path.{◌≡◌, refl, sym, ap, ◌∙◌}
use mathlib.Core.Logic.{inl, inr}
use mathlib.Core.List.{List, [], ◌∷◌, ◌++◌, append_assoc}
use native.Mathlib.Omega.{arith}
use native.Mathlib.Nat.{pow-suc}
use stablecoin_settlement_en.Common.Tests.{ltb, if◌then◌else◌, Bool-cases}
use stablecoin_settlement_en.Common.Lists.{length, All}
use stablecoin_settlement_en.Common.Text.{Bytes}
use stablecoin_settlement_en.Common.Int.{ℤ, pos, negsuc}

-- Seven bits to a byte, the lowest first; a set high bit says that more follow. Ten bytes hold
-- every uint64.
uvarint_loop : ℕ → ℕ → Bytes
uvarint_loop zero n = []
uvarint_loop (suc f) n =
    let rest = uvarint_loop f (n / 128) in if ltb n 128 then n ∷ [] else (n % 128 + 128) ∷ rest

unfoldable pub uvarint : ℕ → Bytes
unfolding uvarint_loop
uvarint n = uvarint_loop 10 n

uvarint_loop-injective :
    (f m n : ℕ) (xs ys : Bytes)
    → m < 128 ^ f
    → n < 128 ^ f
    → uvarint_loop f m ++ xs ≡ uvarint_loop f n ++ ys
    → (m ≡ n) × (xs ≡ ys)
unfolding uvarint_loop
uvarint_loop-injective zero m n xs ys p q h = (omega arith, h)
uvarint_loop-injective (suc f) m n xs ys p q h =
    let p' : m / 128 < 128 ^ f = omega (arith, pow-suc 128 f) in
    let q' : n / 128 < 128 ^ f = omega (arith, pow-suc 128 f) in
    ground (arith, uvarint_loop-injective f (m / 128) (n / 128) xs ys p' q')

pub uvarint-injective :
    (m n : ℕ) (xs ys : Bytes)
    → m < 2 ^ 64
    → n < 2 ^ 64
    → uvarint m ++ xs ≡ uvarint n ++ ys
    → (m ≡ n) × (xs ≡ ys)
unfolding uvarint
uvarint-injective m n xs ys p q h =
    uvarint_loop-injective 10 m n xs ys (omega arith) (omega arith) h

-- A length and then the bytes.
unfoldable pub put : Bytes → Bytes
put s = uvarint (length s) ++ s

-- What fits in memory: Go's `len` is an int.
abbrev pub IsShort : Bytes → Type 0
IsShort s = length s < 2 ^ 63

pub append_split {ℓ} :
    {A : Type ℓ} (s t xs ys : List A)
    → length s ≡ length t
    → s ++ xs ≡ t ++ ys
    → (s ≡ t) × (xs ≡ ys)
append_split [] [] xs ys l h = (refl, h)
append_split [] (b ∷ t) xs ys l h = absurd (omega arith)
append_split (a ∷ s) [] xs ys l h = absurd (omega arith)
append_split (a ∷ s) (b ∷ t) xs ys l h = ground (arith, append_split s t xs ys)

pub put-injective :
    (s t xs ys : Bytes) → IsShort s → IsShort t → put s ++ xs ≡ put t ++ ys → (s ≡ t) × (xs ≡ ys)
unfolding put
put-injective s t xs ys p q h =
    let (l, r) =
      uvarint-injective (length s) (length t) (s ++ xs) (t ++ ys) (omega arith) (omega arith)
        (rw (append_assoc, append_assoc) at h) in
    append_split s t xs ys l r

-- Decimal digits; the fuel n + 1 is more than there are digits.
decimal_loop : ℕ → ℕ → Bytes → Bytes
decimal_loop zero n acc = acc
decimal_loop (suc f) n acc =
    let rest = decimal_loop f (n / 10) ((n % 10 + b'0') ∷ acc) in
    if ltb n 10 then (n + b'0') ∷ acc else rest

unfoldable pub decimal : ℕ → Bytes
unfolding decimal_loop
decimal n = decimal_loop (n + 1) n []

value_of : ℕ → Bytes → ℕ
value_of a [] = a
value_of a (c ∷ cs) = value_of (a * 10 + (c - b'0')) cs

value_of-decimal_loop :
    (f n : ℕ) (acc : Bytes) → n < f → value_of 0 (decimal_loop f n acc) ≡ value_of n acc
unfolding decimal_loop value_of
value_of-decimal_loop zero n acc h = elim h [ ]
value_of-decimal_loop (suc f) n acc h = elim (Bool-cases (ltb n 10)) [
  | inl small ↦ rw small (ap (λ a. value_of a acc) (omega arith))
  | inr large ↦ rw large (
      value_of-decimal_loop f (n / 10) ((n % 10 + b'0') ∷ acc) (ground arith)
      ∙ ap (λ a. value_of a acc) (omega arith))
]

decimal_digits :
    (f n : ℕ) (acc : Bytes) → All (λ c. b'0' ≤ c) acc → All (λ c. b'0' ≤ c) (decimal_loop f n acc)
unfolding decimal_loop
decimal_digits zero n acc h = h
decimal_digits (suc f) n acc h = elim (Bool-cases (ltb n 10)) [
  | inl small ↦ rw small (omega arith, h)
  | inr large ↦ rw large (decimal_digits f (n / 10) ((n % 10 + b'0') ∷ acc) (omega arith, h))
]

-- `big.Int.String`.
unfoldable pub signed_decimal : ℤ → Bytes
signed_decimal (pos n) = decimal n
signed_decimal (negsuc n) = b'-' ∷ decimal (suc n)

pub decimal-injective : (m n : ℕ) → decimal m ≡ decimal n → m ≡ n
unfolding decimal value_of
decimal-injective m n h =
    sym (value_of-decimal_loop (m + 1) m [] (omega arith))
    ∙ ap (value_of 0) h
    ∙ value_of-decimal_loop (n + 1) n [] (omega arith)

no_sign : (n : ℕ) (cs : Bytes) → decimal n ≡ b'-' ∷ cs → ⊥
unfolding decimal
no_sign n cs h = let d = decimal_digits (n + 1) n [] tt in omega (arith, (rw h at d).0)

pub signed_decimal-injective : (a b : ℤ) → signed_decimal a ≡ signed_decimal b → a ≡ b
unfolding signed_decimal
signed_decimal-injective (pos m) (pos n) h = ap pos (decimal-injective m n h)
signed_decimal-injective (pos m) (negsuc n) h = absurd (no_sign m _ h)
signed_decimal-injective (negsuc m) (pos n) h = absurd (no_sign n _ (sym h))
signed_decimal-injective (negsuc m) (negsuc n) h =
    ap negsuc (omega (arith, decimal-injective (suc m) (suc n) (ground arith)))
