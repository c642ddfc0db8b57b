-- ===== src/Ledger/Sheets.antt =====
-- backend/internal/ledger/journal.go: the sum of one side of the balances over all accounts.
use stablecoin_settlement_en.Common.{
  ◌≡◌, ap, inl, inr, Bool, true, false, [], ◌∷◌, arith, if◌then◌else◌, Bool-cases, Bytes-eq, lookup,
  insert,
}
use stablecoin_settlement_en.Common.Int.{
  ℤ, pos, ◌+ℤ◌, int_laws, pos_part, neg_part, +ℤ_parts, eq_of_parts,
}
use stablecoin_settlement_en.Ledger.Entry.{Asset, asset_eq}
use stablecoin_settlement_en.Ledger.Balances.{
  Balance, BalanceKey, BalanceKey-eq, key_eq, key_eq_iff, no_balance, Sheet, balance_at,
}

-- One side of the books, over all accounts of an asset.
abbrev pub side : Bool → Balance → ℤ
side true b = b.pending
side false b = b.posted

abbrev pub share : Bool → Asset → BalanceKey → Balance → ℤ
share p a k b = if asset_eq k.asset a then side p b else pos 0

unfoldable pub sheet_sum : Bool → Asset → Sheet → ℤ
sheet_sum p a [] = pos 0
sheet_sum p a ((k, b) ∷ m) = share p a k b +ℤ sheet_sum p a m

share-no_balance : (p : Bool) (a : Asset) (k : BalanceKey) → share p a k no_balance ≡ pos 0
share-no_balance true a k = ground arith
share-no_balance false a k = ground arith

module _ (k j : BalanceKey) (w : Balance) (m : Sheet) where
  insert_hit : (b : Balance) → key_eq j k ≡ true → insert k b ((j, w) ∷ m) ≡ (k, b) ∷ m
  unfolding insert
  insert_hit b h = rw h

  insert_miss : (b : Balance) → key_eq j k ≡ false → insert k b ((j, w) ∷ m) ≡ (j, w) ∷ insert k b m
  unfolding insert
  insert_miss b h = rw h

  balance_hit : key_eq j k ≡ true → balance_at k ((j, w) ∷ m) ≡ w
  unfolding balance_at lookup
  balance_hit h = rw (h, balance_at)

  balance_miss : key_eq j k ≡ false → balance_at k ((j, w) ∷ m) ≡ balance_at k m
  unfolding balance_at lookup
  balance_miss h = rw (h, balance_at)

int_rotate : (x : ℤ) → x +ℤ pos 0 +ℤ pos 0 ≡ pos 0 +ℤ x
int_rotate x = omega int_laws

int_swap : (x y z : ℤ) → x +ℤ y +ℤ z ≡ z +ℤ y +ℤ x
int_swap x y z = omega int_laws

int_move : (x y z u v : ℤ) → y +ℤ z ≡ u +ℤ v → x +ℤ y +ℤ z ≡ x +ℤ u +ℤ v
int_move x y z u v h = omega (arith, +ℤ_parts, eq_of_parts, ap pos_part h, ap neg_part h)

pub sum-insert :
    (p : Bool) (a : Asset) (k : BalanceKey) (b : Balance) (out : Sheet)
    → sheet_sum p a (insert k b out) +ℤ share p a k (balance_at k out)
      ≡ sheet_sum p a out +ℤ share p a k b
unfolding sheet_sum
sum-insert p a k b [] =
    unfold insert balance_at lookup in rw (share-no_balance p a k) (int_rotate (share p a k b))
sum-insert p a k b ((j, w) ∷ m) = elim (Bool-cases (key_eq j k)) [
  | inl hit ↦
      rw (insert_hit k j w m b hit, balance_hit k j w m hit, (key_eq_iff j k).0 hit)
        (int_swap (share p a k b) (sheet_sum p a m) (share p a k w))
  | inr miss ↦
      rw (insert_miss k j w m b miss, balance_miss k j w m miss)
        (int_move (share p a j w) (sheet_sum p a (insert k b m)) (share p a k (balance_at k m))
          (sheet_sum p a m) (share p a k b) (sum-insert p a k b m))
]

-- What a leg adds to its asset.
abbrev pub gain : Asset → Asset → ℤ → ℤ
gain a c n = if asset_eq c a then n else pos 0

-- A changed entry changes the sum by its own change.
pub sum-shift :
    (p : Bool) (a : Asset) (k : BalanceKey) (b : Balance) (n : ℤ) (out : Sheet)
    → side p b ≡ side p (balance_at k out) +ℤ n
    → sheet_sum p a (insert k b out) ≡ sheet_sum p a out +ℤ gain a k.asset n
sum-shift p a k b n out h = elim (Bool-cases (asset_eq k.asset a)) [
  | inl same ↦ rw same (
      int_cancel (sheet_sum p a (insert k b out)) (side p (balance_at k out)) (sheet_sum p a out)
        (side p b) n (rw same at (sum-insert p a k b out)) h)
  | inr apart ↦ rw apart (
      int_drop (sheet_sum p a (insert k b out)) (sheet_sum p a out)
        (rw apart at (sum-insert p a k b out)))
]
  where
    int_cancel : (x y z u n : ℤ) → x +ℤ y ≡ z +ℤ u → u ≡ y +ℤ n → x ≡ z +ℤ n
    int_cancel x y z u n h e =
        omega
          (arith, +ℤ_parts, eq_of_parts, ap pos_part h, ap neg_part h, ap pos_part e, ap neg_part e)

    int_drop : (x z : ℤ) → x +ℤ pos 0 ≡ z +ℤ pos 0 → x ≡ z +ℤ pos 0
    int_drop x z h = omega (arith, +ℤ_parts, eq_of_parts, ap pos_part h, ap neg_part h)
