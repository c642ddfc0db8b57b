-- ===== src/Merkle/Complete.antt =====
-- backend/internal/merkle/merkle.go: the proofs that `BlockProof` makes are accepted.
use stablecoin_settlement_en.Common.{
  ℕ, zero, suc, ◌+◌, ◌-◌, ◌/◌, ◌%◌, ◌≤◌, ◌<◌, ◌≡◌, refl, sym, ap, ◌∙◌, inl, inr, true, false, some,
  List, [], ◌∷◌, arith, ltb, leb, ◌==◌, Bool-cases, length, get_elem?, take, drop, get_elem?-lt,
  Bytes, bytes_eq_iff, Bytes-eq, ok,
}
use stablecoin_settlement_en.Common.Int.{pos}
use stablecoin_settlement_en.Merkle.{
  Digest, Tree, padded, node, pairs, levels_from, build, fold, climb, verify_block, ones_count,
  root_of, depth, buddy, above_it, proof_from, width_of, block_proof,
}
use stablecoin_settlement_en.Merkle.Pairs.{
  dbl, dbl_lem, shl, pow2, pow2-above, padded-length, up, chain, pairs-length, pairs-get, up-block,
  fold-up, levels_from-chain,
}

ones_count-zero : (f : ℕ) → ones_count f 0 ≡ 0
unfolding ones_count
ones_count-zero zero = refl
ones_count-zero (suc f) = omega (arith, ones_count-zero f)

pub ones_count-pow2 : (k f : ℕ) → k < f → ones_count f (pow2 k) ≡ 1
unfolding ones_count shl
ones_count-pow2 k zero h = absurd (omega arith)
ones_count-pow2 zero (suc f) h = omega (arith, ones_count-zero f)
ones_count-pow2 (suc k) (suc f) h =
    let half : dbl (pow2 k) / 2 ≡ pow2 k = omega (arith, dbl_lem (pow2 k)) in
    let even : dbl (pow2 k) % 2 ≡ 0 = omega (arith, dbl_lem (pow2 k)) in
    let rest = ones_count-pow2 k f (omega arith) in rw (half, even) (omega (arith, rest))

get-some :
    {A : Type 0} → (xs : List A) (i : ℕ) → i < length xs → (a : A) × (get_elem? xs i ≡ some a)
get-some [] i h = absurd (omega arith)
get-some (x ∷ xs) zero h = (x, refl)
get-some (x ∷ xs) (suc i) h = get-some xs i (omega arith)

take-one :
    (xs : List Digest) (n : ℕ) (a : Digest) → get_elem? xs n ≡ some a → take 1 (drop n xs) ≡ a ∷ []
take-one [] n a h = absurd (ground arith)
take-one (x ∷ xs) zero a h = ground arith
take-one (x ∷ xs) (suc n) a h = take-one xs n a h

shl_add : (k a b : ℕ) → shl k (a + b) ≡ shl k a + shl k b
unfolding shl
shl_add zero a b = refl
shl_add (suc k) a b =
    omega (arith, shl_add k a b, dbl_lem (shl k (a + b)), dbl_lem (shl k a), dbl_lem (shl k b))

shl-pow2 : (k d : ℕ) → k ≤ d → shl k (pow2 (d - k)) ≡ pow2 d
unfolding shl
shl-pow2 zero d h = let whole : d - 0 ≡ d = omega arith in ap pow2 whole
shl-pow2 (suc k) zero h = absurd (omega arith)
shl-pow2 (suc k) (suc d) h =
    let less : suc d - suc k ≡ d - k = omega arith in
    ap (λ n. dbl (shl k (pow2 n))) less ∙ ap dbl (shl-pow2 k d (omega arith))

shl-fits : (k n m : ℕ) → n < m → shl k n + pow2 k ≤ shl k m
shl-fits k n m h =
    let split : m ≡ n + (1 + (m - n - 1)) = omega arith in
    omega (arith, ap (shl k) split, shl_add k n (1 + (m - n - 1)), shl_add k 1 (m - n - 1))

length-take : {A : Type 0} → (n : ℕ) (xs : List A) → n ≤ length xs → length (take n xs) ≡ n
length-take zero xs h = refl
length-take (suc n) [] h = absurd (omega arith)
length-take (suc n) (x ∷ xs) h = ap suc (length-take n xs (omega arith))

length-drop :
    {A : Type 0} → (n : ℕ) (xs : List A) → n ≤ length xs → length (drop n xs) ≡ length xs - n
length-drop zero xs h = omega arith
length-drop (suc n) [] h = absurd (omega arith)
length-drop (suc n) (x ∷ xs) h = omega (arith, length-drop n xs (omega arith))

length-block : (n m : ℕ) (xs : List Digest) → n + m ≤ length xs → length (take m (drop n xs)) ≡ m
length-block n m xs h = length-take m (drop n xs) (omega (arith, length-drop n xs (omega arith)))

block_proof-some :
    (t : Tree) (k n : ℕ) (p : List Digest)
    → k ≤ depth t
    → n < width_of (get_elem? t.levels k)
    → proof_from (drop k t.levels) n ≡ some p
    → block_proof t (pos n) k ≡ ok (some p)
unfolding block_proof
block_proof-some t k n p low inside f =
    let shallow : ltb (depth t) k ≡ false = ground arith in
    let there : leb (width_of (get_elem? t.levels k)) n ≡ false = ground arith in
    rw (shallow, there) (ap ok f)

module _ (sha256 : Bytes → Bytes) where
  chain-length : (d : ℕ) (xs : List Digest) → length (chain sha256 d xs) ≡ suc d
  unfolding chain
  chain-length zero xs = refl
  chain-length (suc d) xs = ap suc (chain-length d (pairs sha256 xs))

  chain-drop :
      (k d : ℕ) (xs : List Digest)
      → k ≤ d
      → drop k (chain sha256 d xs) ≡ chain sha256 (d - k) (up sha256 k xs)
  unfolding chain up
  chain-drop zero d xs h = let whole : d ≡ d - 0 = omega arith in ap (λ n. chain sha256 n xs) whole
  chain-drop (suc k) zero xs h = absurd (omega arith)
  chain-drop (suc k) (suc d) xs h =
      let less : d - k ≡ suc d - suc k = omega arith in
      chain-drop k d (pairs sha256 xs) (omega arith)
      ∙ ap (λ n. chain sha256 n (up sha256 k (pairs sha256 xs))) less

  chain-get :
      (k d : ℕ) (xs : List Digest) → k ≤ d → get_elem? (chain sha256 d xs) k ≡ some (up sha256 k xs)
  unfolding chain up
  chain-get zero zero xs h = refl
  chain-get zero (suc d) xs h = refl
  chain-get (suc k) zero xs h = absurd (omega arith)
  chain-get (suc k) (suc d) xs h = chain-get k d (pairs sha256 xs) (omega arith)

  pub up-length : (k m : ℕ) (xs : List Digest) → length xs ≡ shl k m → length (up sha256 k xs) ≡ m
  unfolding up shl
  up-length zero m xs h = h
  up-length (suc k) m xs h = up-length k m (pairs sha256 xs) (pairs-length sha256 xs (shl k m) h)

  proof_from-cons :
      (m i : ℕ) (xs ys : List Digest) (s : Digest) (p : List Digest)
      → get_elem? xs (buddy i) ≡ some s
      → proof_from (chain sha256 m ys) (i / 2) ≡ some p
      → proof_from (xs ∷ chain sha256 m ys) i ≡ some (s ∷ p)
  unfolding proof_from chain
  proof_from-cons zero i xs ys s p f g = rw (proof_from, f) (ap (above_it s) g)
  proof_from-cons (suc m) i xs ys s p f g = rw (proof_from, f) (ap (above_it s) g)

  root_of-cons :
      (m : ℕ) (xs ys : List Digest) → root_of (xs ∷ chain sha256 m ys) ≡ root_of (chain sha256 m ys)
  unfolding root_of chain
  root_of-cons zero xs ys = refl
  root_of-cons (suc m) xs ys = refl

  -- The proof of a hash leads from it to the root.
  climb-proof :
      (m i : ℕ) (xs : List Digest) (a : Digest)
      → length xs ≡ pow2 m
      → get_elem? xs i ≡ some a
      → (p : List Digest) × (r : Digest) × (proof_from (chain sha256 m xs) i ≡ some p)
        × (root_of (chain sha256 m xs) ≡ some r)
        × (climb sha256 a i p ≡ r)
        × (length p ≡ m)
  unfolding proof_from root_of chain climb shl
  climb-proof zero i xs a h f =
      let first : i ≡ 0 = omega (arith, h, get_elem?-lt xs i f) in
      ([], a, refl, ap (get_elem? xs) (sym first) ∙ f, refl, refl)
  climb-proof (suc m) i xs a h f =
      let below : i < dbl (pow2 m) = omega (arith, h, get_elem?-lt xs i f) in
      let halves = pairs-length sha256 xs (pow2 m) h in
      elim (Bool-cases (i % 2 == 0)) [
        | inl e ↦
            let even : i ≡ dbl (i / 2) = ground (arith, dbl_lem (i / 2)) in
            let (b, g) =
              get-some xs (i + 1) (omega (arith, dbl_lem (pow2 m), dbl_lem (i / 2), even)) in
            let at_left : get_elem? xs (dbl (i / 2)) ≡ some a = ap (get_elem? xs) (sym even) ∙ f in
            let at_right : get_elem? xs (suc (dbl (i / 2))) ≡ some b =
              ap (get_elem? xs) (omega (arith, even)) ∙ g in
            let parent = pairs-get sha256 (i / 2) xs a b at_left at_right in
            let (p, r, q, t, c, n) =
              climb-proof m (i / 2) (pairs sha256 xs) (node sha256 a b) halves parent in
            let sibling : get_elem? xs (buddy i) ≡ some b = rw e g in
            (
              b ∷ p,
              r,
              proof_from-cons m i xs (pairs sha256 xs) b p sibling q,
              root_of-cons m xs (pairs sha256 xs) ∙ t,
              rw e c,
              omega (arith, n),
            )
        | inr e ↦
            let odd : i ≡ suc (dbl (i / 2)) = ground (arith, dbl_lem (i / 2)) in
            let (b, g) = get-some xs (i - 1) (omega (arith, h)) in
            let at_left : get_elem? xs (dbl (i / 2)) ≡ some b =
              ap (get_elem? xs) (omega (arith, odd)) ∙ g in
            let at_right : get_elem? xs (suc (dbl (i / 2))) ≡ some a =
              ap (get_elem? xs) (sym odd) ∙ f in
            let parent = pairs-get sha256 (i / 2) xs b a at_left at_right in
            let (p, r, q, t, c, n) =
              climb-proof m (i / 2) (pairs sha256 xs) (node sha256 b a) halves parent in
            let sibling : get_elem? xs (buddy i) ≡ some b = rw e g in
            (
              b ∷ p,
              r,
              proof_from-cons m i xs (pairs sha256 xs) b p sibling q,
              root_of-cons m xs (pairs sha256 xs) ∙ t,
              rw e c,
              omega (arith, n),
            )
      ]

  root_of-up :
      (k d : ℕ) (xs : List Digest)
      → k ≤ d
      → root_of (chain sha256 d xs) ≡ root_of (chain sha256 (d - k) (up sha256 k xs))
  unfolding chain up
  root_of-up zero d xs h =
      let whole : d ≡ d - 0 = omega arith in ap (λ n. root_of (chain sha256 n xs)) whole
  root_of-up (suc k) zero xs h = absurd (omega arith)
  root_of-up (suc k) (suc d) xs h =
      let less : d - k ≡ suc d - suc k = omega arith in
      root_of-cons d xs (pairs sha256 xs)
      ∙ root_of-up k d (pairs sha256 xs) (omega arith)
      ∙ ap (λ n. root_of (chain sha256 n (up sha256 k (pairs sha256 xs)))) less

  -- A tree is the chain over its padded leaves.
  build-chain :
      (leaves : List Digest) (t : Tree) (d : ℕ)
      → build sha256 leaves ≡ ok t
      → length (padded leaves) ≡ pow2 d
      → t.levels ≡ chain sha256 d (padded leaves)
  unfolding build
  build-chain [] t d made e = absurd (ground arith)
  build-chain (l ∷ ls) t d made e =
      let same : t.levels ≡ levels_from sha256 (length (padded (l ∷ ls))) (padded (l ∷ ls)) =
        ground arith in
      same
      ∙ levels_from-chain sha256 d (length (padded (l ∷ ls))) (padded (l ∷ ls)) e
          (omega (arith, e, pow2-above d))

  -- A block at the place of a hash is folded to that hash.
  fold-block :
      (k n m : ℕ) (xs : List Digest) (a : Digest)
      → length xs ≡ shl k m
      → n < m
      → get_elem? (up sha256 k xs) n ≡ some a
      → let block = take (pow2 k) (drop (shl k n) xs) in
        (length block ≡ pow2 k) × (fold sha256 (length block) block ≡ a ∷ [])
  fold-block k n m xs a h l f =
      let block = take (pow2 k) (drop (shl k n) xs) in
      let whole : length block ≡ pow2 k =
        length-block (shl k n) (pow2 k) xs (omega (arith, h, shl-fits k n m l)) in
      (
        whole,
        fold-up sha256 k (length block) block whole (omega (arith, whole, pow2-above k))
            ∙ sym (up-block sha256 k 1 n xs)
            ∙ take-one (up sha256 k xs) n a f,
      )

  verify_block-climbs :
      (r : Digest) (n k : ℕ) (block p : List Digest) (a : Digest)
      → k < 64
      → length block ≡ pow2 k
      → fold sha256 (length block) block ≡ a ∷ []
      → climb sha256 a n p ≡ r
      → verify_block sha256 r n block p ≡ true
  unfolding verify_block
  verify_block-climbs r n k block p a small h f c =
      let one : ones_count 64 (length block) ≡ 1 =
        ap (ones_count 64) h ∙ ones_count-pow2 k 64 small in
      rw (one, f, c) ((bytes_eq_iff r r).1 refl)

  -- Every block of a tree has a proof, and its leaves, with the padding, are accepted with it: for
  -- a tree of any leaves, and a block of 2 ^ k of them, k below 64.
  pub verify_complete :
      (leaves : List Digest) (t : Tree) (k n : ℕ)
      → build sha256 leaves ≡ ok t
      → k ≤ depth t
      → k < 64
      → n < width_of (get_elem? t.levels k)
      → (p : List Digest) × (r : Digest) × (block_proof t (pos n) k ≡ ok (some p))
        × (root_of t.levels ≡ some r)
        × (length p ≡ depth t - k)
        × (verify_block sha256 r n (take (pow2 k) (drop (shl k n) (padded leaves))) p ≡ true)
  verify_complete leaves t k n made low small inside =
      let (d, e) = padded-length leaves in
      let xs = padded leaves in
      let is = build-chain leaves t d made e in
      let deep : depth t ≡ d = omega (arith, ap length is, chain-length d xs) in
      let under : k ≤ d = omega (arith, low, deep) in
      let long : length xs ≡ shl k (pow2 (d - k)) = e ∙ sym (shl-pow2 k d under) in
      let level : get_elem? t.levels k ≡ some (up sha256 k xs) =
        ap (λ ls. get_elem? ls k) is ∙ chain-get k d xs under in
      let wide = up-length k (pow2 (d - k)) xs long in
      let spot : n < pow2 (d - k) = omega (arith, inside, ap width_of level, wide) in
      let (a, f) = get-some (up sha256 k xs) n (omega (arith, spot, wide)) in
      let (p, r, q, s, c, m) = climb-proof (d - k) n (up sha256 k xs) a wide f in
      let (block_long, folded) = fold-block k n (pow2 (d - k)) xs a long spot f in
      (
        p,
        r,
        block_proof-some t k n p low inside (
            ap (λ ls. proof_from (drop k ls) n) is
            ∙ ap (λ ls. proof_from ls n) (chain-drop k d xs under)
            ∙ q),
        ap root_of is ∙ root_of-up k d xs under ∙ s,
        omega (arith, m, deep),
        verify_block-climbs r n k (take (pow2 k) (drop (shl k n) xs)) p a small block_long folded c,
      )
