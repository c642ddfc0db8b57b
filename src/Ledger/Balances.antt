-- ===== src/Ledger/Balances.antt =====
-- backend/internal/ledger/journal.go: the balances as a projection of the entries.
use stablecoin_settlement_en.Common.{
  ◌≡◌, ◌↔◌, Bool, true, ◌&&◌, Option, none, some, List, [], ◌∷◌, arith, Bytes, Eq, ◌=?◌,
  bytes_eq_iff, Bytes-eq, Dict, lookup, insert,
}
use stablecoin_settlement_en.Common.Int.{ℤ, pos, ◌+ℤ◌, ◌-ℤ◌}
use stablecoin_settlement_en.Ledger.Entry.{
  Asset, Account, Leg, Kind, Entry, hold, post, void, unknown, asset_eq,
}
use stablecoin_settlement_en.Ledger.Journal.{Journal}

pub record Balance : Type 0 where
  pub pending : ℤ
  pub posted : ℤ

pub record BalanceKey : Type 0 where
  pub account : Account
  pub asset : Asset

unfoldable pub key_eq : BalanceKey → BalanceKey → Bool
unfolding asset_eq
key_eq a b = (a.account =? b.account) && asset_eq a.asset b.asset

pub key_eq_iff : (a b : BalanceKey) → (key_eq a b ≡ true) ↔ (a ≡ b)
unfolding key_eq
key_eq_iff a b = (
  λ h. ground (
    arith,
    bytes_eq_iff a.account b.account,
    bytes_eq_iff a.asset.chain b.asset.chain,
    bytes_eq_iff a.asset.token b.asset.token,
  ),
  λ h. ground (
    arith,
    bytes_eq_iff a.account b.account,
    bytes_eq_iff a.asset.chain b.asset.chain,
    bytes_eq_iff a.asset.token b.asset.token,
  ),
)

instance abbrev pub BalanceKey-eq : Eq BalanceKey
BalanceKey-eq = record { beq = key_eq; beq_iff = key_eq_iff }

abbrev pub no_balance : Balance
no_balance = record { pending = pos 0; posted = pos 0 }

abbrev pub Sheet : Type 0
Sheet = Dict BalanceKey Balance

-- The closure `get` of `Balances`: zero where there is none.
unfoldable pub balance_at : BalanceKey → Sheet → Balance
balance_at k out = elim (lookup k out) [ none ↦ no_balance | some b ↦ b ]

abbrev pub key_of : Asset → Leg → BalanceKey
key_of a l = record { account = l.account; asset = a }

-- The bodies of the three loops over legs: each changes in place what `get` handed out.
unfoldable pub add_leg : Asset → Leg → Sheet → Sheet
unfolding balance_at
add_leg a l out =
    let b = balance_at (key_of a l) out in
    insert (key_of a l) (record b { pending = b.pending +ℤ l.amount }) out

unfoldable pub sub_leg : Asset → Leg → Sheet → Sheet
unfolding balance_at
sub_leg a l out =
    let b = balance_at (key_of a l) out in
    insert (key_of a l) (record b { pending = b.pending -ℤ l.amount }) out

unfoldable pub post_leg : Asset → Leg → Sheet → Sheet
unfolding balance_at
post_leg a l out =
    let b = balance_at (key_of a l) out in
    insert (key_of a l) (record b { posted = b.posted +ℤ l.amount }) out

-- A loop over legs.
unfoldable pub each_leg : (Asset → Leg → Sheet → Sheet) → Asset → List Leg → Sheet → Sheet
each_leg f a [] out = out
each_leg f a (l ∷ ls) out = each_leg f a ls (f a l out)

-- What `holds[e.Holds]` gives: the zero entry if there is none.
abbrev pub hold_legs : Option Entry → List Leg
hold_legs none = []
hold_legs (some h) = h.legs

abbrev pub hold_asset : Option Entry → Asset
hold_asset none = record { chain = []; token = [] }
hold_asset (some h) = h.asset

-- A post or a void: the hold's legs leave `pending`, the entry's own enter `posted`.
unfoldable pub resolve : Option Entry → Entry → Sheet → Sheet
unfolding each_leg sub_leg post_leg
resolve h e out =
    each_leg post_leg e.asset e.legs (each_leg sub_leg (hold_asset h) (hold_legs h) out)

-- One round of the loop over the entries, on the sheet and the map `holds`.
unfoldable pub project : Kind → Entry → Sheet × Dict Bytes Entry → Sheet × Dict Bytes Entry
unfolding each_leg add_leg resolve
project hold e (out, holds) = (each_leg add_leg e.asset e.legs out, insert e.id e holds)
project post e (out, holds) = (resolve (lookup e.holds holds) e out, holds)
project void e (out, holds) = (resolve (lookup e.holds holds) e out, holds)
project (unknown k) e s = s

unfoldable pub balances_from : Sheet × Dict Bytes Entry → List Entry → Sheet
unfolding project
balances_from (out, holds) [] = out
balances_from s (e ∷ es) = balances_from (project e.kind e s) es

-- `Balances`.
unfoldable pub balances : List Entry → Sheet
unfolding balances_from
balances es = balances_from ([], []) es

-- `Balance`.
unfoldable pub balance : Journal → Account → Asset → Balance
unfolding balances balance_at
balance j acct asset = balance_at (record { account = acct; asset = asset }) (balances j.entries)
