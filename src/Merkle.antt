-- ===== src/Merkle.antt =====
-- backend/internal/merkle/merkle.go: the tree over a payout run, and the proofs of its blocks.
-- Lengths and indices stay far below 2 ^ 63, so an int has no overflow here. A negative block is
-- refused like one past the end; a negative alignLog2, which panics, has no counterpart.
use stablecoin_settlement_en.Common.{
  ℕ, zero, suc, ◌+◌, ◌-◌, ◌*◌, ◌/◌, ◌%◌, Bool, false, Option, none, some, List, [], ◌∷◌, ◌++◌, ltb,
  leb, ◌==◌, if◌then◌else◌, not, length, get_elem?, drop, replicate, Bytes, ◌=?◌, Bytes-eq, Result,
  ok, err,
}
use stablecoin_settlement_en.Common.Int.{ℤ, pos, negsuc}
pub mod Pairs
pub mod Complete
pub mod Binding

-- A hash: 32 bytes in the source.
abbrev pub Digest : Type 0
Digest = Bytes

pub data Error : Type 0 where
  empty_tree block_out_of_range block_too_large : Error

abbrev pub size : ℕ
size = 32

-- `PadLeaf`.
abbrev pub pad_leaf : Digest
pad_leaf = replicate size 0

-- `levels`, the leaves first.
pub record Tree : Type 0 where
  pub levels : List (List Digest)

-- The loop that doubles the width, with how often it still runs at most.
unfoldable pub widen : ℕ → ℕ → ℕ → ℕ
widen zero n width = width
widen (suc k) n width =
    let further = widen k n (width * 2) in if ltb width n then further else width

-- The leaves, filled up to the width.
unfoldable pub padded : List Digest → List Digest
unfolding widen
padded leaves =
    leaves ++ replicate (widen (length leaves) (length leaves) 1 - length leaves) pad_leaf

-- `bits.OnesCount` of a number below 2 ^ fuel.
unfoldable pub ones_count : ℕ → ℕ → ℕ
ones_count zero n = 0
ones_count (suc k) n = n % 2 + ones_count k (n / 2)

module _ (sha256 : Bytes → Bytes) where
  -- `Leaf`.
  unfoldable pub leaf : Bytes → Digest
  leaf data_bytes = sha256 (0 ∷ data_bytes)

  unfoldable pub node : Digest → Digest → Digest
  node left right = sha256 (1 ∷ left ++ right)

  -- The level above a level.
  unfoldable pub pairs : List Digest → List Digest
  unfolding node
  pairs [] = []
  pairs (a ∷ []) = []
  pairs (a ∷ b ∷ rest) = node a b ∷ pairs rest

  -- The levels from one on, while there is more than one hash in it.
  unfoldable pub levels_from : ℕ → List Digest → List (List Digest)
  unfolding pairs
  levels_from zero level = level ∷ []
  levels_from (suc k) level =
      let above = levels_from k (pairs level) in
      if ltb 1 (length level) then level ∷ above else level ∷ []

  -- `Build`.
  unfoldable pub build : List Digest → Result Error Tree
  unfolding levels_from padded
  build [] = err empty_tree
  build (l ∷ ls) = ok (record { levels = levels_from (length (padded (l ∷ ls))) (padded (l ∷ ls)) })

  -- The loop of `VerifyBlock` that folds a block to one hash, on fuel.
  unfoldable pub fold : ℕ → List Digest → List Digest
  unfolding pairs
  fold zero level = level
  fold (suc k) level =
      let above = fold k (pairs level) in if ltb 1 (length level) then above else level

  -- The way up along a proof.
  unfoldable pub climb : Digest → ℕ → List Digest → Digest
  unfolding node
  climb acc idx [] = acc
  climb acc idx (s ∷ proof) =
      climb (if idx % 2 == 0 then node acc s else node s acc) (idx / 2) proof

  -- `VerifyBlock`. The block is not negative.
  unfoldable pub verify_block : Digest → ℕ → List Digest → List Digest → Bool
  unfolding fold climb ones_count
  verify_block root block leaves proof =
      if not (ones_count 64 (length leaves) == 1)
      then false
      else elim (fold (length leaves) leaves) [
        | [] ↦ false
        | (top ∷ rest) ↦ climb top block proof =? root
      ]

-- `Root`: the one hash of the last level.
unfoldable pub root_of : List (List Digest) → Option Digest
root_of [] = none
root_of (level ∷ []) = get_elem? level 0
root_of (level ∷ next ∷ above) = root_of (next ∷ above)

-- `Depth`.
abbrev pub depth : Tree → ℕ
depth t = length t.levels - 1

abbrev pub buddy : ℕ → ℕ
buddy idx = if idx % 2 == 0 then idx + 1 else idx - 1

abbrev pub above_it : Digest → Option (List Digest) → Option (List Digest)
above_it s none = none
above_it s (some proof) = some (s ∷ proof)

-- The loop of `BlockProof` over the levels below the root; `none` is an index out of range.
unfoldable pub proof_from : List (List Digest) → ℕ → Option (List Digest)
proof_from [] idx = some []
proof_from (level ∷ []) idx = some []
proof_from (level ∷ next ∷ above) idx =
    let rest = proof_from (next ∷ above) (idx / 2) in
    elim (get_elem? level (buddy idx)) [ none ↦ none | some s ↦ above_it s rest ]

abbrev pub width_of : Option (List Digest) → ℕ
width_of none = 0
width_of (some level) = length level

-- `BlockProof`.
unfoldable pub block_proof : Tree → ℤ → ℕ → Result Error (Option (List Digest))
unfolding proof_from
block_proof t block align = if ltb (depth t) align then err block_too_large else elim block [
  | negsuc n ↦ err block_out_of_range
  | pos n ↦
      if leb (width_of (get_elem? t.levels align)) n
      then err block_out_of_range
      else ok (proof_from (drop align t.levels) n)
]
