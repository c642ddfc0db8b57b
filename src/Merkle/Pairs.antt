-- ===== src/Merkle/Pairs.antt =====
-- backend/internal/merkle/merkle.go: levels whose length is a power of two.
use stablecoin_settlement_en.Common.{
  ℕ, zero, suc, ◌+◌, ◌-◌, ◌*◌, ◌≤◌, ◌<◌, ◌≡◌, refl, ap, ◌∙◌, inl, inr, true, some, List, [], ◌∷◌,
  arith, ltb, Bool-cases, length, get_elem?, take, drop, replicate, length-append, length-replicate,
  Bytes, Bytes-eq,
}
use stablecoin_settlement_en.Merkle.{
  Digest, pad_leaf, widen, padded, node, pairs, levels_from, fold,
}

unfoldable pub dbl : ℕ → ℕ
dbl zero = zero
dbl (suc n) = suc (suc (dbl n))

-- `n * 2 ^ k`.
unfoldable pub shl : ℕ → ℕ → ℕ
unfolding dbl
shl zero n = n
shl (suc k) n = dbl (shl k n)

abbrev pub pow2 : ℕ → ℕ
pow2 k = shl k 1

pub dbl_lem : (n : ℕ) → dbl n ≡ n + n
unfolding dbl
dbl_lem zero = refl
dbl_lem (suc n) = omega (arith, dbl_lem n)

pub pow2-above : (k : ℕ) → k < pow2 k
unfolding shl
pow2-above zero = omega arith
pow2-above (suc k) = omega (arith, pow2-above k, dbl_lem (pow2 k))

shl-dbl : (k w : ℕ) → shl k (dbl w) ≡ dbl (shl k w)
unfolding shl
shl-dbl zero w = refl
shl-dbl (suc k) w = ap dbl (shl-dbl k w)

shl-double : (k w : ℕ) → shl k (w * 2) ≡ dbl (shl k w)
shl-double k w =
    let twice : w * 2 ≡ dbl w = omega (arith, dbl_lem w) in ap (shl k) twice ∙ shl-dbl k w

widen-pow : (k n w : ℕ) → (j : ℕ) × (widen k n w ≡ shl j w)
unfolding widen shl
widen-pow zero n w = (0, refl)
widen-pow (suc k) n w = elim (Bool-cases (ltb w n)) [
  | inr f ↦ (0, rw f refl)
  | inl f ↦ let (j, e) = widen-pow k n (w * 2) in (suc j, rw f (e ∙ shl-double j w))
]

widen-reaches : (k n w : ℕ) → n ≤ shl k w → n ≤ widen k n w
unfolding widen shl
widen-reaches zero n w h = h
widen-reaches (suc k) n w h = elim (Bool-cases (ltb w n)) [
  | inr f ↦ rw f (ground arith)
  | inl f ↦ rw f (widen-reaches k n (w * 2) (rw (shl-double k w) h))
]

-- The padded leaves are as many as a power of two.
pub padded-length : (leaves : List Digest) → (d : ℕ) × (length (padded leaves) ≡ pow2 d)
unfolding padded
padded-length leaves =
    let (d, e) = widen-pow (length leaves) (length leaves) 1 in
    let reaches =
      widen-reaches (length leaves) (length leaves) 1 (omega (arith, pow2-above (length leaves))) in
    (
      d,
      omega (
        arith,
        e,
        reaches,
        length-append leaves
            (replicate (widen (length leaves) (length leaves) 1 - length leaves) pad_leaf),
        length-replicate (widen (length leaves) (length leaves) 1 - length leaves) pad_leaf,
      ),
    )

module _ (sha256 : Bytes → Bytes) where
  -- The level `k` above a level.
  unfoldable pub up : ℕ → List Digest → List Digest
  unfolding pairs
  up zero xs = xs
  up (suc k) xs = up k (pairs sha256 xs)

  -- A level and all above it.
  unfoldable pub chain : ℕ → List Digest → List (List Digest)
  unfolding pairs
  chain zero xs = xs ∷ []
  chain (suc d) xs = xs ∷ chain d (pairs sha256 xs)

  pub pairs-length : (xs : List Digest) (n : ℕ) → length xs ≡ dbl n → length (pairs sha256 xs) ≡ n
  unfolding pairs dbl
  pairs-length [] zero h = refl
  pairs-length [] (suc n) h = absurd (omega arith)
  pairs-length (a ∷ xs) zero h = absurd (omega arith)
  pairs-length (a ∷ []) (suc n) h = absurd (omega arith)
  pairs-length (a ∷ b ∷ xs) (suc n) h = omega (arith, pairs-length xs n (omega arith))

  pub pairs-drop :
      (n : ℕ) (xs : List Digest) → drop n (pairs sha256 xs) ≡ pairs sha256 (drop (dbl n) xs)
  unfolding pairs dbl
  pairs-drop zero xs = refl
  pairs-drop (suc n) [] = refl
  pairs-drop (suc zero) (a ∷ []) = refl
  pairs-drop (suc (suc n)) (a ∷ []) = refl
  pairs-drop (suc n) (a ∷ b ∷ xs) = pairs-drop n xs

  pub pairs-take :
      (n : ℕ) (xs : List Digest) → take n (pairs sha256 xs) ≡ pairs sha256 (take (dbl n) xs)
  unfolding pairs dbl
  pairs-take zero xs = refl
  pairs-take (suc n) [] = refl
  pairs-take (suc n) (a ∷ []) = refl
  pairs-take (suc n) (a ∷ b ∷ xs) = ap (λ ys. node sha256 a b ∷ ys) (pairs-take n xs)

  pub pairs-get :
      (i : ℕ) (xs : List Digest) (a b : Digest)
      → get_elem? xs (dbl i) ≡ some a
      → get_elem? xs (suc (dbl i)) ≡ some b
      → get_elem? (pairs sha256 xs) i ≡ some (node sha256 a b)
  unfolding pairs dbl
  pairs-get i [] a b f g = absurd (ground arith)
  pairs-get zero (x ∷ []) a b f g = absurd (ground arith)
  pairs-get (suc i) (x ∷ []) a b f g = absurd (ground arith)
  pairs-get zero (x ∷ y ∷ xs) a b f g = ground arith
  pairs-get (suc i) (x ∷ y ∷ xs) a b f g = pairs-get i xs a b f g

  -- A block of a level, some levels up.
  pub up-block :
      (k m n : ℕ) (xs : List Digest)
      → take m (drop n (up k xs)) ≡ up k (take (shl k m) (drop (shl k n) xs))
  unfolding up shl
  up-block zero m n xs = refl
  up-block (suc k) m n xs =
      up-block k m n (pairs sha256 xs)
      ∙ ap (λ ys. up k (take (shl k m) ys)) (pairs-drop (shl k n) xs)
      ∙ ap (up k) (pairs-take (shl k m) (drop (dbl (shl k n)) xs))

  pub fold-up :
      (k f : ℕ) (xs : List Digest) → length xs ≡ pow2 k → k ≤ f → fold sha256 f xs ≡ up k xs
  unfolding fold up shl
  fold-up zero zero xs h l = refl
  fold-up (suc k) zero xs h l = absurd (omega arith)
  fold-up zero (suc f) xs h l = ground arith
  fold-up (suc k) (suc f) xs h l =
      let more : ltb 1 (length xs) ≡ true = ground (arith, pow2-above k, dbl_lem (pow2 k)) in
      rw more (fold-up k f (pairs sha256 xs) (pairs-length xs (pow2 k) h) (omega arith))

  pub levels_from-chain :
      (d f : ℕ) (xs : List Digest)
      → length xs ≡ pow2 d
      → d ≤ f
      → levels_from sha256 f xs ≡ chain d xs
  unfolding levels_from chain shl
  levels_from-chain zero zero xs h l = refl
  levels_from-chain (suc d) zero xs h l = absurd (omega arith)
  levels_from-chain zero (suc f) xs h l = ground arith
  levels_from-chain (suc d) (suc f) xs h l =
      let more : ltb 1 (length xs) ≡ true = ground (arith, pow2-above d, dbl_lem (pow2 d)) in
      rw more (
        ap (λ ls. xs ∷ ls)
          (levels_from-chain d f (pairs sha256 xs) (pairs-length xs (pow2 d) h) (omega arith)))
