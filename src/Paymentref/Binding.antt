-- ===== src/Paymentref/Binding.antt =====
-- backend/internal/paymentref/ref.go: what a ref commits to.
use stablecoin_settlement_en.Common.{
  ◌≡◌, refl, ◌≢◌, List, [], ◌∷◌, arith, length, All, Bytes, Bytes-eq,
}
use stablecoin_settlement_en.Common.Encode.{put-injective, IsShort}
use stablecoin_settlement_en.Paymentref.{Terms, put_all, fields, preimage, derive}

put_all-injective :
    (fs gs : List Bytes)
    → All IsShort fs
    → All IsShort gs
    → length fs ≡ length gs
    → put_all fs ≡ put_all gs
    → fs ≡ gs
unfolding put_all
put_all-injective [] [] p q l h = refl
put_all-injective [] (g ∷ gs) p q l h = absurd (omega arith)
put_all-injective (f ∷ fs) [] p q l h = absurd (omega arith)
put_all-injective (f ∷ fs) (g ∷ gs) p q l h =
    let (e, r) = put-injective f g (put_all fs) (put_all gs) p.0 q.0 h in
    ground (arith, put_all-injective fs gs p.1 q.1)

-- Every field is as long as Go's `len` can say.
pub record InMemory (t : Terms) : Type 0 where
  pub fits : All IsShort (fields t)

-- Different terms have different preimages: no two splittings of the same bytes into fields meet.
pub preimage-injective : (t u : Terms) → InMemory t → InMemory u → preimage t ≡ preimage u → t ≡ u
unfolding preimage
preimage-injective t u p q h =
    ground (arith, put_all-injective (fields t) (fields u) p.fits q.fits refl h)

-- Two byte strings with one hash.
abbrev pub Collision : (Bytes → Bytes) → Type 0
Collision sha256 = (a : Bytes) × (b : Bytes) × (a ≢ b) × (sha256 a ≡ sha256 b)

-- Whoever shows two different payments with one ref shows a collision of the hash.
pub derive-binding :
    (sha256 : Bytes → Bytes) (t u : Terms)
    → InMemory t
    → InMemory u
    → t ≢ u
    → derive sha256 t ≡ derive sha256 u
    → Collision sha256
unfolding derive
derive-binding sha256 t u p q n h =
    (preimage t, preimage u, λ e. n (preimage-injective t u p q e), h)
