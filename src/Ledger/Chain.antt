-- ===== src/Ledger/Chain.antt =====
-- backend/internal/ledger/journal.go: the hash chain that `Append` builds and `Verify` checks.
use stablecoin_settlement_en.Common.{
  ℕ, ◌+◌, ◌%◌, ◌<◌, ◌≡◌, refl, ap, ◌∙◌, ◌≢◌, ◌⊎◌, inl, inr, Bool, true, false, none, List, [], ◌∷◌,
  ◌++◌, arith, u64, Option-cases, length, Bytes, bytes_eq_iff, Bytes-eq, lookup, ok, err,
}
use stablecoin_settlement_en.Ledger.Entry.{Entry, validate, hold, kind_eq}
use stablecoin_settlement_en.Ledger.Journal.{
  Journal, empty, zero_hash, last_hash, seal, write, replay, add, append, hash_entry, preimage,
  verify_from, verify,
}
use stablecoin_settlement_en.Ledger.Entry.{chain_broken}

last_hash_start :
    (es : List Entry) (a b : Bytes) → (es ≡ [] → a ≡ b) → last_hash es a ≡ last_hash es b
unfolding last_hash
last_hash_start [] a b h = h refl
last_hash_start (e ∷ es) a b h = refl

next_seq : ℕ → List Entry → ℕ
next_seq want [] = want
next_seq want (e ∷ es) = next_seq ((want + 1) % u64) es

next_seq-length :
    (want : ℕ) (es : List Entry) → want < u64 → next_seq want es ≡ (want + length es) % u64
unfolding next_seq
next_seq-length want [] h = omega arith
next_seq-length want (e ∷ es) h = omega (arith, next_seq-length ((want + 1) % u64) es (omega arith))

module _ (sha256 : Bytes → Bytes) (stamp : ℕ → Bytes) where
  verify_from-snoc :
      (prev : Bytes) (want : ℕ) (es : List Entry) (x : Entry)
      → verify_from sha256 stamp prev want es ≡ ok tt
      → x.seq ≡ next_seq want es
      → x.prev_hash ≡ last_hash es prev
      → x.hash ≡ hash_entry sha256 stamp (last_hash es prev) x
      → verify_from sha256 stamp prev want (es ++ x ∷ []) ≡ ok tt
  unfolding verify_from next_seq last_hash
  verify_from-snoc prev want [] x v s p h =
      ground
        (arith, bytes_eq_iff x.prev_hash prev, bytes_eq_iff (hash_entry sha256 stamp prev x) x.hash)
  verify_from-snoc prev want (e ∷ es) x v s p h =
      ground (arith, verify_from-snoc e.hash ((want + 1) % u64) es x)

  -- What `Append` did: nothing, or one sealed entry at the end.
  pub append_cases :
      (j k : Journal) (e stored : Entry) (b : Bool)
      → append sha256 stamp j e ≡ ok (k, stored, b)
      → (validate e ≡ ok tt)
        × (((b ≡ false) × (k ≡ j))
            ⊎ ((b ≡ true)
                × (lookup e.id j.by_id ≡ none)
                × (k ≡ write sha256 stamp j e)
                × (stored ≡ seal sha256 stamp j.entries e)))
  unfolding append add replay
  append_cases j k e stored b h = elim (Option-cases (lookup e.id j.by_id)) [
    | inl n ↦ ground arith
    | inr (i, n) ↦ ground arith
  ]

  seal-seq : (es : List Entry) (e : Entry) → (seal sha256 stamp es e).seq ≡ (length es + 1) % u64
  unfolding seal
  seal-seq es e = refl

  seal-prev_hash :
      (es : List Entry) (e : Entry) → (seal sha256 stamp es e).prev_hash ≡ last_hash es e.prev_hash
  unfolding seal
  seal-prev_hash es e = refl

  seal-hash :
      (es : List Entry) (e : Entry)
      → (seal sha256 stamp es e).hash
        ≡ hash_entry sha256 stamp (last_hash es e.prev_hash) (seal sha256 stamp es e)
  unfolding seal hash_entry preimage
  seal-hash es e = refl

  write-verify :
      (j : Journal) (e : Entry)
      → verify sha256 stamp j ≡ ok tt
      → (j.entries ≡ [] → e.prev_hash ≡ zero_hash)
      → verify sha256 stamp (write sha256 stamp j e) ≡ ok tt
  unfolding verify write
  write-verify j e v first =
      let same_start = last_hash_start j.entries e.prev_hash zero_hash first in
      verify_from-snoc zero_hash 1 j.entries (seal sha256 stamp j.entries e) v
        (omega (arith, seal-seq j.entries e, next_seq-length 1 j.entries (omega arith)))
        (seal-prev_hash j.entries e ∙ same_start)
        (seal-hash j.entries e
          ∙ ap (λ p. hash_entry sha256 stamp p (seal sha256 stamp j.entries e)) same_start)

  -- A journal that verifies still does after any `Append`, provided that the first entry came
  -- with the zero `PrevHash` that a caller leaves there.
  pub append-verify :
      (j k : Journal) (e stored : Entry) (b : Bool)
      → verify sha256 stamp j ≡ ok tt
      → (j.entries ≡ [] → e.prev_hash ≡ zero_hash)
      → append sha256 stamp j e ≡ ok (k, stored, b)
      → verify sha256 stamp k ≡ ok tt
  append-verify j k e stored b v first h = elim (append_cases j k e stored b h).1 [
    | inl (_, same_journal) ↦ rw same_journal v
    | inr (_, _, written, _) ↦ rw written (write-verify j e v first)
  ]

  hold_added :
      (e : Entry)
      → validate e ≡ ok tt
      → e.kind ≡ hold
      → append sha256 stamp empty e ≡ ok (write sha256 stamp empty e, seal sha256 stamp [] e, true)
  unfolding append add kind_eq empty lookup
  hold_added e v k = ground arith

  broken :
      (e : Entry)
      → e.prev_hash ≢ zero_hash
      → verify sha256 stamp (write sha256 stamp empty e) ≡ err chain_broken
  unfolding verify write empty seal last_hash
  broken e n = ground (arith, n, bytes_eq_iff e.prev_hash zero_hash)

  -- `Append` to an empty journal keeps a `PrevHash` that the caller filled in: it accepts the
  -- entry, and from then on `Verify` finds the chain broken.
  pub append-verify_broken :
      (e : Entry)
      → validate e ≡ ok tt
      → e.kind ≡ hold
      → e.prev_hash ≢ zero_hash
      → (k : Journal) × (stored : Entry) × (append sha256 stamp empty e ≡ ok (k, stored, true))
        × (verify sha256 stamp k ≡ err chain_broken)
  append-verify_broken e v hold_kind n =
      (write sha256 stamp empty e, seal sha256 stamp [] e, hold_added e v hold_kind, broken e n)
