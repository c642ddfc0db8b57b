-- ===== src/Ledger/Bookkeeping.antt =====
-- backend/internal/ledger/journal.go: the journal's own bookkeeping, and what it gives a caller
-- that delivers an entry twice or resolves a hold twice.
use stablecoin_settlement_en.Common.{
  ℕ, ◌+◌, ◌≤◌, ◌≡◌, refl, ap, ◌∙◌, inl, inr, Bool, true, false, ◌&&◌, ◌||◌, Option, none, some,
  List, [], ◌∷◌, ◌++◌, arith, if◌then◌else◌, not, ==_iff, Bool-cases, Option-cases, length,
  get_elem?, get_elem?-append_left, get_elem?-append_self, get_elem?-lt, get_elem?-append_cases,
  Bytes, ◌=?◌, bytes_eq_iff, Bytes-eq, lookup, lookup-insert, ok,
}
use stablecoin_settlement_en.Ledger.Entry.{
  Entry, Kind, validate, same, hold, post, void, unknown, kind_eq, asset_eq, same_legs, Leg,
}
use stablecoin_settlement_en.Common.Int.{eq_ℤ_refl}
use stablecoin_settlement_en.Ledger.Legs.{validate-kind}
use stablecoin_settlement_en.Ledger.Journal.{Journal, seal, write, replay, add, append, check_hold}
use stablecoin_settlement_en.Ledger.Chain.{append_cases}

-- How many posts and voids name the hold.
unfoldable pub resolutions : Bytes → List Entry → ℕ
unfolding kind_eq
resolutions h [] = 0
resolutions h (e ∷ es) =
    (if not (kind_eq e.kind hold) && (e.holds =? h) then 1 else 0) + resolutions h es

abbrev pub is_resolved : Option Bool → Bool
is_resolved none = false
is_resolved (some b) = b

-- The index by id names the entries, and `resolved` names the holds with a resolution.
pub record Indexed (j : Journal) : Type 0 where
  pub finds :
      (id : Bytes) (i : ℕ)
      → lookup id j.by_id ≡ some i
      → (e : Entry) × (get_elem? j.entries i ≡ some e) × (e.id ≡ id)
  pub found : (i : ℕ) (e : Entry) → get_elem? j.entries i ≡ some e → lookup e.id j.by_id ≡ some i
  pub once : (h : Bytes) → resolutions h j.entries ≤ 1
  pub open_holds :
      (h : Bytes) → is_resolved (lookup h j.resolved) ≡ false → resolutions h j.entries ≡ 0

resolutions-append :
    (h : Bytes) (es fs : List Entry)
    → resolutions h (es ++ fs) ≡ resolutions h es + resolutions h fs
unfolding resolutions
resolutions-append h [] fs = omega arith
resolutions-append h (e ∷ es) fs = omega (arith, resolutions-append h es fs)

check_hold-open :
    (j : Journal) (e : Entry)
    → check_hold j e ≡ ok tt
    → is_resolved (lookup e.holds j.resolved) ≡ false
unfolding check_hold
check_hold-open j e h = elim (Option-cases (lookup e.holds j.by_id)) [
  | inl n ↦ absurd (ground arith)
  | inr (i, n) ↦ elim (Option-cases (get_elem? j.entries i)) [
    | inl m ↦ absurd (ground arith)
    | inr (x, m) ↦ ground arith
  ]
]

-- A valid entry that is no hold is a post or a void.
resolution_kind :
    (e : Entry)
    → validate e ≡ ok tt
    → kind_eq e.kind hold ≡ false
    → (kind_eq e.kind post || kind_eq e.kind void) ≡ true
unfolding kind_eq
resolution_kind e v n = ground (arith, validate-kind e v)

module _ (sha256 : Bytes → Bytes) (stamp : ℕ → Bytes) where
  seal-kept :
      (es : List Entry) (e : Entry)
      → ((seal sha256 stamp es e).id ≡ e.id)
        × ((seal sha256 stamp es e).kind ≡ e.kind)
        × ((seal sha256 stamp es e).holds ≡ e.holds)
  unfolding seal
  seal-kept es e = (refl, refl, refl)

  -- What the check on a post or a void found.
  add_checked :
      (j k : Journal) (e stored : Entry) (b : Bool)
      → append sha256 stamp j e ≡ ok (k, stored, b)
      → lookup e.id j.by_id ≡ none
      → kind_eq e.kind hold ≡ false
      → is_resolved (lookup e.holds j.resolved) ≡ false
  unfolding append add
  add_checked j k e stored b h n notHold =
      check_hold-open j e (ground (arith, resolution_kind e (ground arith) notHold))

  write-finds :
      (j : Journal) (e : Entry)
      → Indexed j
      → (id : Bytes) (i : ℕ) → lookup id (write sha256 stamp j e).by_id ≡ some i
      → (x : Entry) × (get_elem? (write sha256 stamp j e).entries i ≡ some x) × (x.id ≡ id)
  unfolding write
  write-finds j e w id i h = elim (Bool-cases (e.id =? id)) [
    | inl new ↦
        let at_end : length j.entries ≡ i =
          ground (arith, lookup-insert e.id id (length j.entries) j.by_id) in
        (
          seal sha256 stamp j.entries e,
          rw (← at_end) (get_elem?-append_self j.entries (seal sha256 stamp j.entries e)),
          (seal-kept j.entries e).0 ∙ (bytes_eq_iff e.id id).0 new,
        )
    | inr old ↦
        let (x, a, n) =
          w.finds id i (ground (arith, lookup-insert e.id id (length j.entries) j.by_id)) in
        (x, get_elem?-append_left j.entries _ i (get_elem?-lt j.entries i a) ∙ a, n)
  ]

  write-found :
      (j : Journal) (e : Entry)
      → Indexed j
      → lookup e.id j.by_id ≡ none
      → (i : ℕ) (x : Entry) → get_elem? (write sha256 stamp j e).entries i ≡ some x
      → lookup x.id (write sha256 stamp j e).by_id ≡ some i
  unfolding write
  write-found j e w fresh i x h =
      elim (get_elem?-append_cases j.entries (seal sha256 stamp j.entries e) i h) [
        | inl before ↦ ground (
          arith,
          w.found i x before,
          lookup-insert e.id x.id (length j.entries) j.by_id,
          bytes_eq_iff e.id x.id,
        )
        | inr (last, new) ↦
            let same_id : x.id ≡ e.id = ap (λ (y : Entry). y.id) new ∙ (seal-kept j.entries e).0 in
            ground
              (arith, lookup-insert e.id x.id (length j.entries) j.by_id, bytes_eq_iff e.id x.id)
      ]

  resolutions-write :
      (j : Journal) (e : Entry) (h : Bytes)
      → resolutions h (write sha256 stamp j e).entries
        ≡ resolutions h j.entries + (if not (kind_eq e.kind hold) && (e.holds =? h) then 1 else 0)
  unfolding write resolutions
  resolutions-write j e h =
      let (_, k, n) = seal-kept j.entries e in
      ground (arith, resolutions-append h j.entries (seal sha256 stamp j.entries e ∷ []))

  write-resolved :
      (j : Journal) (e : Entry) (h : Bytes)
      → is_resolved (lookup h (write sha256 stamp j e).resolved)
        ≡ (is_resolved (lookup h j.resolved) || not (kind_eq e.kind hold) && (e.holds =? h))
  unfolding write
  write-resolved j e h = ground (arith, lookup-insert e.holds h true j.resolved)

  write-Indexed :
      (j : Journal) (e : Entry)
      → Indexed j
      → lookup e.id j.by_id ≡ none
      → (kind_eq e.kind hold ≡ false → is_resolved (lookup e.holds j.resolved) ≡ false)
      → Indexed (write sha256 stamp j e)
  write-Indexed j e w fresh unresolved = record {
    finds = write-finds j e w;
    found = write-found j e w fresh;
    once = λ h. ground (
      arith,
      resolutions-write j e h,
      w.once h,
      w.open_holds h,
      unresolved,
      bytes_eq_iff e.holds h,
    );
    open_holds =
        λ h o. ground (arith, resolutions-write j e h, write-resolved j e h, w.open_holds h);
  }

  -- `Append` keeps the journal's books: ids are unique, the index finds every entry, and no hold is
  -- resolved twice, whatever is appended.
  pub append-Indexed :
      (j k : Journal) (e stored : Entry) (b : Bool)
      → Indexed j
      → append sha256 stamp j e ≡ ok (k, stored, b)
      → Indexed k
  append-Indexed j k e stored b w h = elim (append_cases sha256 stamp j k e stored b h).1 [
    | inl (_, unchanged) ↦ rw unchanged w
    | inr (_, fresh, written, _) ↦
        rw written (write-Indexed j e w fresh (add_checked j k e stored b h fresh))
  ]

  same_legs_refl : (ls : List Leg) → same_legs ls ls ≡ true
  unfolding same_legs
  same_legs_refl [] = refl
  same_legs_refl (l ∷ ls) =
      ground (arith, bytes_eq_iff l.account l.account, eq_ℤ_refl l.amount, same_legs_refl ls)

  kind_eq_refl : (k : Kind) → kind_eq k k ≡ true
  unfolding kind_eq
  kind_eq_refl hold = refl
  kind_eq_refl post = refl
  kind_eq_refl void = refl
  kind_eq_refl (unknown b) = (bytes_eq_iff b b).1 refl

  same-seal : (es : List Entry) (e : Entry) → same (seal sha256 stamp es e) e ≡ true
  unfolding same seal asset_eq
  same-seal es e = ground (
    arith,
    bytes_eq_iff e.id e.id,
    bytes_eq_iff e.ref e.ref,
    kind_eq_refl e.kind,
    bytes_eq_iff e.holds e.holds,
    bytes_eq_iff e.asset.chain e.asset.chain,
    bytes_eq_iff e.asset.token e.asset.token,
    bytes_eq_iff e.by e.by,
    ==_iff e.at e.at,
    bytes_eq_iff e.tx_hash e.tx_hash,
    bytes_eq_iff e.memo e.memo,
    same_legs_refl e.legs,
  )

  write-replay :
      (j : Journal) (e : Entry)
      → validate e ≡ ok tt
      → append sha256 stamp (write sha256 stamp j e) e
        ≡ ok (write sha256 stamp j e, seal sha256 stamp j.entries e, false)
  unfolding append replay write
  write-replay j e v = ground (
    arith,
    lookup-insert e.id e.id (length j.entries) j.by_id,
    bytes_eq_iff e.id e.id,
    get_elem?-append_self j.entries (seal sha256 stamp j.entries e),
    same-seal j.entries e,
  )

  -- Redelivery: an entry that was accepted is accepted again, with the same stored entry, and the
  -- journal stays as it is.
  pub append_twice :
      (j k : Journal) (e stored : Entry) (b : Bool)
      → append sha256 stamp j e ≡ ok (k, stored, b)
      → append sha256 stamp k e ≡ ok (k, stored, false)
  append_twice j k e stored b h =
      let (v, c) = append_cases sha256 stamp j k e stored b h in
      elim c [
        | inl (unapplied, unchanged) ↦ ground arith
        | inr (_, _, written, sealed) ↦ rw (written, sealed) (write-replay j e v)
      ]
