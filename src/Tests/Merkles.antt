-- ===== src/Tests/Merkles.antt =====
-- Tests of backend/internal/merkle: a tree of three leaves.
use stablecoin_settlement_en.Common.{
  ℕ, ◌≡◌, refl, ◌⊎◌, true, some, List, [], ◌∷◌, arith, length, replicate, Bytes, bytes_eq, Bytes-eq,
  ok,
}
use stablecoin_settlement_en.Common.Int.{pos}
use stablecoin_settlement_en.Paymentref.Binding.{Collision}
use stablecoin_settlement_en.Merkle.{
  Digest, Tree, levels_from, padded, widen, build, block_proof, root_of, verify_block, ones_count,
  fold, climb, pairs,
}
use stablecoin_settlement_en.Merkle.Pairs.{shl}
use stablecoin_settlement_en.Merkle.Complete.{verify_complete}
use stablecoin_settlement_en.Merkle.Binding.{verify_block-binding}

abbrev one_hash : Bytes → Bytes
one_hash b = 7 ∷ replicate 31 0

abbrev mark : ℕ → Digest
mark n = n ∷ replicate 31 0

abbrev three : List Digest
three = mark 1 ∷ mark 2 ∷ mark 3 ∷ []

abbrev tree : Tree
tree = record { levels = levels_from one_hash (length (padded three)) (padded three) }

-- The second block of two leaves: the third leaf and the padding.
verify_complete_example :
    (p : List Digest) × (r : Digest) × (block_proof tree (pos 1) 1 ≡ ok (some p))
    × (root_of tree.levels ≡ some r)
    × (length p ≡ 1)
    × (verify_block one_hash r 1 (mark 3 ∷ mark 0 ∷ []) p ≡ true)
unfolding build levels_from padded widen pairs shl
verify_complete_example =
    verify_complete one_hash three tree 1 1 refl (omega arith) (omega arith) (omega arith)

-- A hash that is the same for all shows collisions.
verify_block-binding_example :
    ((mark 1 ∷ mark 2 ∷ []) ≡ (mark 3 ∷ mark 4 ∷ [])) ⊎ Collision one_hash
unfolding verify_block ones_count fold pairs climb bytes_eq shl
verify_block-binding_example =
    verify_block-binding one_hash (λ b. refl) (one_hash []) 0 1 (mark 1 ∷ mark 2 ∷ [])
      (mark 3 ∷ mark 4 ∷ []) (mark 5 ∷ []) (mark 6 ∷ []) refl refl (refl, (refl, tt))
      (refl, (refl, tt)) (refl, tt) (refl, tt) refl refl refl
