-- ===== src/Ledger/Journal.antt =====
-- backend/internal/ledger/journal.go and hash.go: the journal in memory and its hash chain.
-- SHA-256 and the text form of a time are parameters. `clone` is the identity on values.
use stablecoin_settlement_en.Common.{
  ℕ, ◌+◌, ◌%◌, Bool, true, false, ◌||◌, Option, none, some, List, [], ◌∷◌, ◌++◌, u64, ◌==◌,
  if◌then◌else◌, not, length, get_elem?, replicate, Bytes, str, ◌=?◌, Bytes-eq, Dict, lookup,
  insert, Result, ok, err, ◌>>=◌, ◌>>◌, refuse_if,
}
use stablecoin_settlement_en.Common.Encode.{put, uvarint, signed_decimal}
use stablecoin_settlement_en.Paymentref.{Ref}
use stablecoin_settlement_en.Ledger.Entry.{
  Leg, Kind, Entry, Error, hold, post, void, unknown, validate, kind_eq, asset_eq, same, conflict,
  no_such_hold, already_resolved, not_found, chain_broken, out_of_range,
}

abbrev pub domain_v1 : Bytes
domain_v1 = str "stablecoin-settlement-engine/ledger-journal/v1"

abbrev pub zero_hash : Bytes
zero_hash = replicate 32 0

-- `string(e.Kind)`.
abbrev pub kind_text : Kind → Bytes
kind_text hold = str "hold"
kind_text post = str "post"
kind_text void = str "void"
kind_text (unknown k) = k

unfoldable pub put_legs : List Leg → Bytes
put_legs [] = []
put_legs (l ∷ ls) = put l.account ++ (put (signed_decimal l.amount) ++ put_legs ls)

pub record Journal : Type 0 where
  pub entries : List Entry
  pub by_id : Dict Bytes ℕ
  pub resolved : Dict Bytes Bool

-- `NewMemoryJournal`.
unfoldable pub empty : Journal
empty = record { entries = []; by_id = []; resolved = [] }

-- `j.entries[idx]`, which panics out of range.
abbrev pub at_index : List Entry → ℕ → Result Error Entry
at_index es i = elim (get_elem? es i) [ none ↦ err out_of_range | some e ↦ ok e ]

abbrev pub or_not_found {ℓ} : {A : Type ℓ} → Option A → Result Error A
or_not_found none = err not_found
or_not_found (some a) = ok a

unfoldable pub get : Journal → Bytes → Result Error Entry
get j id = do idx ← or_not_found (lookup id j.by_id); at_index j.entries idx

unfoldable pub by_ref : List Entry → Ref → List Entry
by_ref [] ref = []
by_ref (e ∷ es) ref = let rest = by_ref es ref in if e.ref =? ref then e ∷ rest else rest

-- The hold that a post or a void resolves, and that it is still open.
unfoldable pub check_hold : Journal → Entry → Result Error (Unit {0})
unfolding kind_eq asset_eq
check_hold j e = elim (lookup e.holds j.by_id) [
  | none ↦ err no_such_hold
  | some idx ↦ do
    h ← at_index j.entries idx
    refuse_if (not (kind_eq h.kind hold) || not (h.ref =? e.ref) || not (asset_eq h.asset e.asset))
        no_such_hold
    refuse_if (elim (lookup e.holds j.resolved) [ none ↦ false | some b ↦ b ]) already_resolved
]

-- `Hash` of the last entry, or the given one if there is none.
unfoldable pub last_hash : List Entry → Bytes → Bytes
last_hash [] prev = prev
last_hash (e ∷ es) prev = last_hash es e.hash

module _ (sha256 : Bytes → Bytes) (stamp : ℕ → Bytes) where
  unfoldable pub preimage : Bytes → Entry → Bytes
  unfolding put_legs
  preimage prev e =
      put domain_v1
      ++ (prev
          ++ (uvarint e.seq
              ++ (put e.id
                  ++ (e.ref
                      ++ (put (kind_text e.kind)
                          ++ (put e.holds
                              ++ (put e.asset.chain
                                  ++ (put e.asset.token
                                      ++ (uvarint (length e.legs)
                                          ++ (put_legs e.legs
                                              ++ (put e.by
                                                  ++ (put (stamp e.at)
                                                      ++ (put e.tx_hash ++ put e.memo)))))))))))))

  unfoldable pub hash_entry : Bytes → Entry → Bytes
  hash_entry prev e = sha256 (preimage prev e)

  -- The copy that gets a sequence number, the last hash and its own. The first entry of a
  -- journal keeps the `PrevHash` that it came with.
  unfoldable pub seal : List Entry → Entry → Entry
  unfolding last_hash
  seal es e =
      let prev = last_hash es e.prev_hash in
      let numbered = record e { seq = (length es + 1) % u64; prev_hash = prev } in
      record numbered { hash = hash_entry prev numbered }

  unfoldable pub write : Journal → Entry → Journal
  unfolding seal kind_eq
  write j e = record {
    entries = j.entries ++ seal j.entries e ∷ [];
    by_id = insert e.id (length j.entries) j.by_id;
    resolved = if kind_eq e.kind hold then j.resolved else insert e.holds true j.resolved;
  }

  -- An id that is already there.
  unfoldable pub replay : Journal → Entry → ℕ → Result Error (Journal × Entry × Bool)
  unfolding same
  replay j e idx = do
    old ← at_index j.entries idx
    if same old e then ok (j, old, false) else err conflict

  -- A new id.
  unfoldable pub add : Journal → Entry → Result Error (Journal × Entry × Bool)
  unfolding check_hold write
  add j e = do
    if kind_eq e.kind post || kind_eq e.kind void then check_hold j e else ok tt
    ok (write j e, seal j.entries e, true)

  -- `Append`. An error leaves the journal as it was.
  unfoldable pub append : Journal → Entry → Result Error (Journal × Entry × Bool)
  unfolding replay add validate
  append j e = do
    validate e
    elim (lookup e.id j.by_id) [ none ↦ add j e | some idx ↦ replay j e idx ]

  -- The callback of `Verify`, over the entries that `Scan` hands it.
  unfoldable pub verify_from : Bytes → ℕ → List Entry → Result Error (Unit {0})
  unfolding hash_entry
  verify_from prev want [] = ok tt
  verify_from prev want (e ∷ es) = do
    refuse_if (not (e.seq == want)) chain_broken
    refuse_if (not (e.prev_hash =? prev)) chain_broken
    refuse_if (not (hash_entry prev e =? e.hash)) chain_broken
    verify_from e.hash ((want + 1) % u64) es

  unfoldable pub verify : Journal → Result Error (Unit {0})
  unfolding verify_from
  verify j = verify_from zero_hash 1 j.entries
