-- ===== src/Paymentref/Hex.antt =====
-- backend/internal/paymentref/ref.go: `String` and `Parse`, over encoding/hex.
use stablecoin_settlement_en.Common.{
  ℕ, ◌+◌, ◌-◌, ◌*◌, ◌/◌, ◌%◌, ◌<◌, ◌≡◌, refl, ap, Bool, true, false, ◌&&◌, ◌||◌, Option, none, some,
  [], ◌∷◌, ◌++◌, arith, ltb, leb, ◌==◌, if◌then◌else◌, not, ==_iff, length, drop, All, Bytes, str,
  Bytes-eq, Result, ok, err,
}
use stablecoin_settlement_en.Paymentref.{Ref, size}

hex_digit : ℕ → ℕ
hex_digit n = if ltb n 10 then n + b'0' else n - 10 + b'a'

-- `hex.EncodeToString`.
hex_encode : Bytes → Bytes
unfolding hex_digit
hex_encode [] = []
hex_encode (b ∷ bs) = hex_digit (b / 16) ∷ hex_digit (b % 16) ∷ hex_encode bs

-- Both cases of the letters are read.
from_hex : ℕ → Option ℕ
from_hex c =
    if leb b'0' c && leb c b'9'
    then some (c - b'0')
    else if leb b'a' c && leb c b'f'
    then some (c - b'a' + 10)
    else if leb b'A' c && leb c b'F'
    then some (c - b'A' + 10)
    else none

pair_up : Option ℕ → Option ℕ → Option Bytes → Option Bytes
pair_up (some h) (some l) (some r) = some ((h * 16 + l) ∷ r)
pair_up _ _ _ = none

-- `hex.Decode`: an odd length and a byte that is no digit are errors.
hex_decode : Bytes → Option Bytes
unfolding from_hex pair_up
hex_decode [] = some []
hex_decode (h ∷ []) = none
hex_decode (h ∷ l ∷ r) = pair_up (from_hex h) (from_hex l) (hex_decode r)

pub data Error : Type 0 where
  invalid_ref : Error

unfoldable pub to_string : Ref → Bytes
unfolding hex_encode
to_string r = str "0x" ++ hex_encode r

starts_with_0x : Bytes → Bool
starts_with_0x (a ∷ b ∷ s) = a == b'0' && b == b'x'
starts_with_0x s = false

abbrev decoded : Option Bytes → Result Error Ref
decoded none = err invalid_ref
decoded (some r) = ok r

unfoldable pub parse : Bytes → Result Error Ref
unfolding hex_decode starts_with_0x
parse s =
    if not (length s == 2 + 2 * size) || not (starts_with_0x s)
    then err invalid_ref
    else decoded (hex_decode (drop 2 s))

from_hex-hex_digit : (n : ℕ) → n < 16 → from_hex (hex_digit n) ≡ some n
unfolding from_hex hex_digit
from_hex-hex_digit n h = ground arith

hex_decode-hex_encode : (r : Bytes) → All (λ b. b < 256) r → hex_decode (hex_encode r) ≡ some r
unfolding hex_decode hex_encode
hex_decode-hex_encode [] h = refl
hex_decode-hex_encode (b ∷ bs) h =
    let high : b / 16 < 16 = omega arith in
    let low : b % 16 < 16 = omega arith in
    let whole : b / 16 * 16 + b % 16 ≡ b = omega arith in
    rw
      (
        from_hex-hex_digit (b / 16) high,
        from_hex-hex_digit (b % 16) low,
        hex_decode-hex_encode bs h.1,
      )
      (ap (λ x. some (x ∷ bs)) whole)

length-hex_encode : (r : Bytes) → length (hex_encode r) ≡ 2 * length r
unfolding hex_encode
length-hex_encode [] = refl
length-hex_encode (b ∷ bs) = omega (arith, length-hex_encode bs)

parse_of :
    (s r : Bytes)
    → length s ≡ 66
    → starts_with_0x s ≡ true
    → hex_decode (drop 2 s) ≡ some r
    → parse s ≡ ok r
unfolding parse
parse_of s r l p d = ground arith

-- A ref survives being printed and parsed.
pub parse-to_string :
    (r : Ref) → length r ≡ size → All (λ b. b < 256) r → parse (to_string r) ≡ ok r
unfolding to_string starts_with_0x
parse-to_string r l h =
    parse_of (to_string r) r (omega (arith, length-hex_encode r)) refl (hex_decode-hex_encode r h)

pair_up-some :
    (h l : Option ℕ) (o : Option Bytes) (r : Bytes)
    → pair_up h l o ≡ some r
    → (a : ℕ) × (b : ℕ) × (t : Bytes) × (h ≡ some a)
      × (l ≡ some b)
      × (o ≡ some t)
      × (r ≡ (a * 16 + b) ∷ t)
unfolding pair_up
pair_up-some (some h) (some l) (some t) r e = (h, l, t, refl, refl, refl, ground arith)
pair_up-some (some h) (some l) none r e = absurd (ground arith)
pair_up-some (some h) none o r e = absurd (ground arith)
pair_up-some none l o r e = absurd (ground arith)

from_hex-lt : (c n : ℕ) → from_hex c ≡ some n → n < 16
unfolding from_hex
from_hex-lt c n h = ground arith

hex_decode_sound :
    (s r : Bytes) → hex_decode s ≡ some r → (length s ≡ 2 * length r) × All (λ b. b < 256) r
unfolding hex_decode
hex_decode_sound [] [] h = (refl, tt)
hex_decode_sound [] (x ∷ r) h = absurd (ground arith)
hex_decode_sound (a ∷ []) r h = absurd (ground arith)
hex_decode_sound (a ∷ b ∷ s) r h =
    let (m, n, t, p, q, d, e) = pair_up-some (from_hex a) (from_hex b) (hex_decode s) r h in
    let (l, bytes) = hex_decode_sound s t d in
    rw e (omega arith, (omega (arith, from_hex-lt a m p, from_hex-lt b n q), bytes))

gate :
    (b c : Bool) (o : Option Bytes) (r : Bytes)
    → (if not b || not c then err invalid_ref else decoded o) ≡ ok r
    → (b ≡ true) × (o ≡ some r)
gate true true (some x) r h = (refl, ground arith)
gate true true none r h = absurd (ground arith)
gate true false o r h = absurd (ground arith)
gate false c o r h = absurd (ground arith)

parse_inv : (s r : Bytes) → parse s ≡ ok r → (length s ≡ 66) × (hex_decode (drop 2 s) ≡ some r)
unfolding parse
parse_inv s r h =
    let (l, d) = gate (length s == 66) (starts_with_0x s) (hex_decode (drop 2 s)) r h in
    ((==_iff (length s) 66).0 l, d)

length-drop_two : (s : Bytes) → length s ≡ 66 → length (drop 2 s) ≡ 64
length-drop_two [] h = absurd (omega arith)
length-drop_two (a ∷ []) h = absurd (omega arith)
length-drop_two (a ∷ b ∷ s) h = omega arith

-- What parses is a ref: 32 bytes, whatever the text was.
pub parse_sound : (s r : Bytes) → parse s ≡ ok r → (length r ≡ size) × All (λ b. b < 256) r
parse_sound s r h =
    let (l, d) = parse_inv s r h in
    let (m, bytes) = hex_decode_sound (drop 2 s) r d in (omega (arith, length-drop_two s l), bytes)
