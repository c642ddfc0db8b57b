-- ===== src/Merkle/Binding.antt =====
-- backend/internal/merkle/merkle.go: a root is bound to its leaves, up to a collision of the hash.
use stablecoin_settlement_en.Common.{
  ℕ, zero, suc, ◌/◌, ◌%◌, ◌≡◌, refl, sym, ap, ◌∙◌, ◌⊎◌, inl, inr, Bool, true, false, List, [], ◌∷◌,
  ◌++◌, arith, ◌==◌, if◌then◌else◌, not, Bool-cases, length, All, Bytes, ◌=?◌, bytes_eq,
  bytes_eq_iff, Bytes-eq,
}
use stablecoin_settlement_en.Paymentref.Binding.{Collision}
use stablecoin_settlement_en.Merkle.{
  Digest, size, node, pairs, fold, climb, verify_block, ones_count,
}
use stablecoin_settlement_en.Merkle.Pairs.{dbl, shl, pow2, pow2-above, up, pairs-length, fold-up}
use stablecoin_settlement_en.Merkle.Complete.{up-length}

abbrev pub Sized : List Digest → Type 0
Sized = All (λ d. length d ≡ size)

append-injective :
    (xs ys : Bytes) {us vs : Bytes}
    → length xs ≡ length ys
    → xs ++ us ≡ ys ++ vs
    → (xs ≡ ys) × (us ≡ vs)
append-injective [] [] h e = (refl, e)
append-injective [] (y ∷ ys) h e = absurd (omega arith)
append-injective (x ∷ xs) [] h e = absurd (omega arith)
append-injective (x ∷ xs) (y ∷ ys) {us} {vs} h e =
    let heads : x ≡ y = ground arith in
    let tails : xs ++ us ≡ ys ++ vs = ground arith in
    let (p, q) = append-injective xs ys (omega arith) tails in (ground arith, q)

module _ (sha256 : Bytes → Bytes) (sized : (b : Bytes) → length (sha256 b) ≡ size) where
  node-size : (a b : Digest) → length (node sha256 a b) ≡ size
  unfolding node
  node-size a b = sized (1 ∷ a ++ b)

  -- One hash of two pairs is a collision, unless the pairs are the same.
  node-binding :
      (a b c d : Digest)
      → length a ≡ length c
      → node sha256 a b ≡ node sha256 c d
      → ((a ≡ c) × (b ≡ d)) ⊎ Collision sha256
  unfolding node
  node-binding a b c d h e = elim (Bool-cases (bytes_eq (1 ∷ a ++ b) (1 ∷ c ++ d))) [
    | inr f ↦ inr (
      1 ∷ a ++ b,
      1 ∷ c ++ d,
      λ p. ground (arith, f, (bytes_eq_iff (1 ∷ a ++ b) (1 ∷ c ++ d)).1 p),
      e,
    )
    | inl f ↦
        let joined : a ++ b ≡ c ++ d =
          ground (arith, (bytes_eq_iff (1 ∷ a ++ b) (1 ∷ c ++ d)).0 f) in
        inl (append-injective a c h joined)
  ]

  climb-binding :
      (i : ℕ) (p q : List Digest) (a b : Digest)
      → length a ≡ size
      → length b ≡ size
      → Sized p
      → Sized q
      → length p ≡ length q
      → climb sha256 a i p ≡ climb sha256 b i q
      → (a ≡ b) ⊎ Collision sha256
  unfolding climb
  climb-binding i [] [] a b la lb sp sq h e = inl e
  climb-binding i [] (t ∷ q) a b la lb sp sq h e = absurd (omega arith)
  climb-binding i (s ∷ p) [] a b la lb sp sq h e = absurd (omega arith)
  climb-binding i (s ∷ p) (t ∷ q) a b la lb sp sq h e =
      by_side (i % 2 == 0)
        (λ c d lc ld f. climb-binding (i / 2) p q c d lc ld sp.1 sq.1 (omega arith) f) e
    where
      by_side :
          (even : Bool)
          → ((c d : Digest)
              → length c ≡ size
              → length d ≡ size
              → climb sha256 c (i / 2) p ≡ climb sha256 d (i / 2) q
              → (c ≡ d) ⊎ Collision sha256)
          → climb sha256 (if even then node sha256 a s else node sha256 s a) (i / 2) p
            ≡ climb sha256 (if even then node sha256 b t else node sha256 t b) (i / 2) q
          → (a ≡ b) ⊎ Collision sha256
      by_side true above e =
          elim (above (node sha256 a s) (node sha256 b t) (node-size a s) (node-size b t) e) [
            | inr c ↦ inr c
            | inl same ↦ elim (node-binding a s b t (la ∙ sym lb) same) [
              | inr c ↦ inr c
              | inl both ↦ inl both.0
            ]
          ]
      by_side false above e =
          elim (above (node sha256 s a) (node sha256 t b) (node-size s a) (node-size t b) e) [
            | inr c ↦ inr c
            | inl same ↦ elim (node-binding s a t b (sp.0 ∙ sym sq.0) same) [
              | inr c ↦ inr c
              | inl both ↦ inl both.1
            ]
          ]

  pairs-Sized : (xs : List Digest) → Sized (pairs sha256 xs)
  unfolding pairs
  pairs-Sized [] = tt
  pairs-Sized (a ∷ []) = tt
  pairs-Sized (a ∷ b ∷ xs) = (node-size a b, pairs-Sized xs)

  -- One level above two levels of the same even length.
  pairs-binding :
      (n : ℕ) (xs ys : List Digest)
      → length xs ≡ dbl n
      → length ys ≡ dbl n
      → Sized xs
      → Sized ys
      → pairs sha256 xs ≡ pairs sha256 ys
      → (xs ≡ ys) ⊎ Collision sha256
  unfolding pairs dbl
  pairs-binding zero [] [] h k sx sy e = inl refl
  pairs-binding zero xs (y ∷ ys) h k sx sy e = absurd (omega arith)
  pairs-binding zero (x ∷ xs) ys h k sx sy e = absurd (omega arith)
  pairs-binding (suc n) [] ys h k sx sy e = absurd (omega arith)
  pairs-binding (suc n) xs [] h k sx sy e = absurd (omega arith)
  pairs-binding (suc n) (x ∷ []) ys h k sx sy e = absurd (omega arith)
  pairs-binding (suc n) xs (y ∷ []) h k sx sy e = absurd (omega arith)
  pairs-binding (suc n) (x ∷ z ∷ xs) (y ∷ w ∷ ys) h k sx sy e =
      let heads : node sha256 x z ≡ node sha256 y w = ground arith in
      let tails : pairs sha256 xs ≡ pairs sha256 ys = ground arith in
      elim (node-binding x z y w (sx.0 ∙ sym sy.0) heads) [
        | inr c ↦ inr c
        | inl (p, q) ↦
            elim (pairs-binding n xs ys (omega arith) (omega arith) sx.1.1 sy.1.1 tails) [
              | inr c ↦ inr c
              | inl r ↦ inl (rw (p, q, r) refl)
            ]
      ]

  up-binding :
      (k : ℕ) (xs ys : List Digest)
      → length xs ≡ pow2 k
      → length ys ≡ pow2 k
      → Sized xs
      → Sized ys
      → up sha256 k xs ≡ up sha256 k ys
      → (xs ≡ ys) ⊎ Collision sha256
  unfolding up shl
  up-binding zero xs ys h l sx sy e = inl e
  up-binding (suc k) xs ys h l sx sy e =
      elim (up-binding k (pairs sha256 xs) (pairs sha256 ys) (pairs-length sha256 xs (pow2 k) h)
        (pairs-length sha256 ys (pow2 k) l) (pairs-Sized xs) (pairs-Sized ys) e) [
          | inr c ↦ inr c
          | inl same ↦ pairs-binding (pow2 k) xs ys h l sx sy same
        ]

  up-Sized : (k : ℕ) (xs : List Digest) → Sized xs → Sized (up sha256 k xs)
  unfolding up
  up-Sized zero xs s = s
  up-Sized (suc k) xs s = up-Sized k (pairs sha256 xs) (pairs-Sized xs)

  single : (xs : List Digest) → length xs ≡ 1 → (a : Digest) × (xs ≡ a ∷ [])
  single [] h = absurd (omega arith)
  single (a ∷ []) h = (a, refl)
  single (a ∷ b ∷ xs) h = absurd (omega arith)

  -- What an accepted proof says: the block folds to one hash, which leads to the root.
  verify_block-inv :
      (root : Digest) (n k : ℕ) (block p : List Digest)
      → length block ≡ pow2 k
      → verify_block sha256 root n block p ≡ true
      → (a : Digest) × (up sha256 k block ≡ a ∷ []) × (climb sha256 a n p ≡ root)
  unfolding verify_block
  verify_block-inv root n k block p h v =
      let (a, f) = single (up sha256 k block) (up-length sha256 k 1 block h) in
      let folded = fold-up sha256 k (length block) block h (omega (arith, h, pow2-above k)) ∙ f in
      (
        a,
        f,
        (bytes_eq_iff (climb sha256 a n p) root).0 (
            climbs a (ones_count 64 (length block) == 1) (fold sha256 (length block) block) folded
              v),
      )
    where
      climbs :
          (a : Digest) (one : Bool) (tops : List Digest)
          → tops ≡ a ∷ []
          → (if not one
              then false
              else elim tops [ [] ↦ false | (top ∷ rest) ↦ climb sha256 top n p =? root ])
            ≡ true
          → (climb sha256 a n p =? root) ≡ true
      climbs a false tops f v = absurd (ground (arith, v))
      climbs a true [] f v = absurd (ground (arith, v))
      climbs a true (top ∷ rest) f v =
          let same : top ≡ a = ground arith in ap (λ x. climb sha256 x n p =? root) (sym same) ∙ v

  -- Two blocks of 2 ^ k hashes that are accepted against one root, at one place and with proofs of
  -- one length, are the same block, or they show a collision of the hash.
  pub verify_block-binding :
      (root : Digest) (n k : ℕ) (block other p q : List Digest)
      → length block ≡ pow2 k
      → length other ≡ pow2 k
      → Sized block
      → Sized other
      → Sized p
      → Sized q
      → length p ≡ length q
      → verify_block sha256 root n block p ≡ true
      → verify_block sha256 root n other q ≡ true
      → (block ≡ other) ⊎ Collision sha256
  verify_block-binding root n k block other p q h l sb so sp sq e v w =
      let (a, f, c) = verify_block-inv root n k block p h v in
      let (b, g, d) = verify_block-inv root n k other q l w in
      elim (climb-binding n p q a b (rw f at (up-Sized k block sb)).0
        (rw g at (up-Sized k other so)).0 sp sq e (c ∙ sym d)) [
          | inr col ↦ inr col
          | inl same ↦ up-binding k block other h l sb so (f ∙ ap (λ x. x ∷ []) same ∙ sym g)
        ]
