-- ===== src/Bulk/Joins.antt =====
-- backend/internal/bulk/pack.go: the batches are the run, in its order.
use stablecoin_settlement_en.Common.{
  ℕ, zero, suc, ◌+◌, ◌-◌, ◌^◌, ◌≤◌, ◌<◌, ◌≡◌, refl, sym, ap, ◌∙◌, ◌⊎◌, inl, inr, Bool, true, false,
  ◌&&◌, List, [], ◌∷◌, ◌++◌, append_assoc, arith, ◌==◌, if◌then◌else◌, not, length, take, drop,
  take-append-drop, Bytes-eq, Result, ok, err, ◌>>◌, refuse_if, leb, Result-cases,
}
use stablecoin_settlement_en.Bulk.{
  item_too_large, no_plan, widen, bit_length, Payout, Batch, Rule, Limits, Plan, Error, too_large,
  fits_rules, add_item, unused, seal, started, cons_batch, greedy, pack_greedy, block_batch, blocks,
  check_block, pack_aligned, creations, pack_prepare, no_tree, cut_run, pack,
}

-- The payouts of all batches, one batch after the other.
unfoldable pub joined : List Batch → List Payout
joined [] = []
joined (b ∷ bs) = b.items ++ joined bs

-- The batches are numbered from a number on, and none is empty.
abbrev pub Numbered : ℕ → List Batch → Type 0
Numbered n [] = Unit {0}
Numbered n (b ∷ bs) = (b.index ≡ n) × (started b.items ≡ true) × Numbered (n + 1) bs

record Cut (n : ℕ) (items : List Payout) (bs : List Batch) : Type 0 where
  whole : joined bs ≡ items
  numbered : Numbered n bs

cons_batch-inv :
    (b : Batch) (r : Result Error (List Batch)) (bs : List Batch)
    → cons_batch b r ≡ ok bs
    → (cs : List Batch) × (r ≡ ok cs) × (bs ≡ b ∷ cs)
cons_batch-inv b (err e) bs h = absurd (ground arith)
cons_batch-inv b (ok cs) bs h = (cs, refl, ground arith)

pub started-append : (xs : List Payout) (x : Payout) → started (xs ++ x ∷ []) ≡ true
started-append [] x = refl
started-append (y ∷ xs) x = refl

-- One round of the loop: the current batch is closed, or the item joins it.
pub greedy-step :
    (prep : Bool) (rules : List Rule) (it : Payout) (its current : List Payout) (used : List ℕ)
    (index : ℕ) (bs : List Batch)
    → greedy prep rules (it ∷ its) current used index ≡ ok bs
    → (too_large rules ≡ false)
      × (((started current ≡ true)
            × ((cs : List Batch) × (greedy prep rules its
                    (it ∷ [])
                    (add_item (unused rules) rules)
                    (index + 1)
                  ≡ ok cs)
                × (bs ≡ seal prep current used rules index ∷ cs)))
          ⊎ (((started current && not (fits_rules used rules)) ≡ false)
              × (greedy prep rules its (current ++ it ∷ []) (add_item used rules) index ≡ ok bs)))
unfolding greedy
greedy-step prep rules it its current used index bs h =
    by_tests (too_large rules) (started current) (fits_rules used rules) h
  where
    by_tests :
        (large begun fits : Bool)
        → (if large
            then err item_too_large
            else if begun && not fits
            then cons_batch
                (seal prep current used rules index)
                (greedy prep rules its (it ∷ []) (add_item (unused rules) rules) (index + 1))
            else greedy prep rules its (current ++ it ∷ []) (add_item used rules) index)
          ≡ ok bs
        → (large ≡ false)
          × (((begun ≡ true)
                × ((cs : List Batch) × (greedy prep rules its
                        (it ∷ [])
                        (add_item (unused rules) rules)
                        (index + 1)
                      ≡ ok cs)
                    × (bs ≡ seal prep current used rules index ∷ cs)))
              ⊎ (((begun && not fits) ≡ false)
                  × (greedy prep rules its (current ++ it ∷ []) (add_item used rules) index
                      ≡ ok bs)))
    by_tests true begun fits h = absurd (ground arith)
    by_tests false true false h =
        let (cs, f, m) =
          cons_batch-inv (seal prep current used rules index)
            (greedy prep rules its (it ∷ []) (add_item (unused rules) rules) (index + 1)) bs h in
        (refl, inl (refl, (cs, f, m)))
    by_tests false true true h = (refl, inr (refl, h))
    by_tests false false fits h = (refl, inr (refl, h))

greedy-Cut :
    (prep : Bool) (rules : List Rule) (its current : List Payout) (used : List ℕ) (index : ℕ)
    (bs : List Batch)
    → (started current ≡ true) ⊎ (started its ≡ true)
    → greedy prep rules its current used index ≡ ok bs
    → Cut index (current ++ its) bs
unfolding greedy joined seal
greedy-Cut prep rules [] current used index bs (inr e) h = absurd (ground arith)
greedy-Cut prep rules [] current used index bs (inl e) h =
    let made : seal prep current used rules index ∷ [] ≡ bs = ground arith in
    rw (← made) (record { whole = refl; numbered = (refl, e, tt) })
greedy-Cut prep rules (it ∷ its) current used index bs e h =
    let (_, round) = greedy-step prep rules it its current used index bs h in
    elim round [
      | inl (begun, (cs, f, made)) ↦
          let rest =
            greedy-Cut prep rules its (it ∷ []) (add_item (unused rules) rules) (index + 1) cs
              (inl refl) f in
          rw made (record {
            whole = ap (λ xs. current ++ xs) rest.whole;
            numbered = (refl, begun, rest.numbered);
          })
      | inr (_, f) ↦
          let rest =
            greedy-Cut prep rules its (current ++ it ∷ []) (add_item used rules) index bs
              (inl (started-append current it)) f in
          record {
            whole = rest.whole ∙ append_assoc current (it ∷ []) its;
            numbered = rest.numbered;
          }
    ]

drop-shorter : (n k : ℕ) (xs : List Payout) → 0 < n → length xs ≤ suc k → length (drop n xs) ≤ k
drop-shorter zero k xs p h = absurd (omega arith)
drop-shorter (suc n) k [] p h = omega arith
drop-shorter (suc n) k (x ∷ xs) p h = drop-le n xs (omega arith)
  where
    drop-le : (n : ℕ) (xs : List Payout) → length xs ≤ k → length (drop n xs) ≤ k
    drop-le zero xs h = h
    drop-le (suc n) [] h = h
    drop-le (suc n) (x ∷ xs) h = drop-le n xs (omega arith)

take-started : (n : ℕ) (x : Payout) (xs : List Payout) → 0 < n → started (take n (x ∷ xs)) ≡ true
take-started zero x xs p = absurd (omega arith)
take-started (suc n) x xs p = refl

-- Enough rounds for the items there are.
blocks-Cut :
    (k align hashes : ℕ) (rules : List Rule) (items : List Payout) (index : ℕ)
    → 0 < align
    → length items ≤ k
    → Cut index items (blocks k align hashes rules items index)
unfolding blocks joined block_batch
blocks-Cut zero align hashes rules [] index p h = record { whole = refl; numbered = tt }
blocks-Cut zero align hashes rules (it ∷ its) index p h = absurd (omega arith)
blocks-Cut (suc k) align hashes rules [] index p h = record { whole = refl; numbered = tt }
blocks-Cut (suc k) align hashes rules (it ∷ its) index p h =
    let rest =
      blocks-Cut k align hashes rules (drop align (it ∷ its)) (index + 1) p
        (drop-shorter align k (it ∷ its) p h) in
    record {
      whole = ap (λ xs. take align (it ∷ its) ++ xs) rest.whole ∙ take-append-drop align (it ∷ its);
      numbered = (refl, take-started align it its p, rest.numbered);
    }

pack_aligned-blocks :
    (items : List Payout) (l : Limits) (levels hashes : ℕ) (bs : List Batch)
    → pack_aligned items l ≡ ok (levels, hashes, bs)
    → blocks (length items) l.align hashes l.rules items 1 ≡ bs
unfolding pack_aligned
pack_aligned-blocks items l levels hashes bs h =
    let m = bit_length 64 (widen (length items) (length items) l.align) - 1 in
    let n = m - (bit_length 64 l.align - 1) in
    by_check m n (leb (2 ^ 63) l.align) (check_block l.align n l.rules) h
  where
    by_check :
        (m n : ℕ) (b : Bool) (c : Result Error (Unit {0}))
        → let out : Result Error (ℕ × ℕ × List Batch) =
            ok (m, n, blocks (length items) l.align n l.rules items 1) in
          (refuse_if b no_plan >> c >> out) ≡ ok (levels, hashes, bs)
          → blocks (length items) l.align hashes l.rules items 1 ≡ bs
    by_check m n true c h = absurd (ground arith)
    by_check m n false (err e) h = absurd (ground arith)
    by_check m n false (ok u) h =
        let same : n ≡ hashes = ground arith in
        let made : blocks (length items) l.align n l.rules items 1 ≡ bs = ground arith in
        ap (λ k. blocks (length items) l.align k l.rules items 1) (sym same) ∙ made

above_zero : (n : ℕ) → (n == 0) ≡ false → 0 < n
above_zero n h = ground arith

cut_run-Cut :
    (items : List Payout) (l : Limits) (levels hashes : ℕ) (bs : List Batch)
    → started items ≡ true
    → cut_run items l ≡ ok (levels, hashes, bs)
    → Cut 1 items bs
unfolding cut_run pack_greedy
cut_run-Cut items l levels hashes bs some_item h = by_align (l.align == 0) refl h
  where
    by_align :
        (b : Bool)
        → (l.align == 0) ≡ b
        → (if b then no_tree (pack_greedy items l) else pack_aligned items l)
          ≡ ok (levels, hashes, bs)
        → Cut 1 items bs
    by_align true z h = elim (Result-cases (greedy false l.rules items [] (unused l.rules) 1)) [
      | inr (e, f) ↦ absurd (ground arith)
      | inl (cs, f) ↦
          let same : cs ≡ bs = ground arith in
          greedy-Cut false l.rules items [] (unused l.rules) 1 bs (inr some_item) (f ∙ ap ok same)
    ]
    by_align false z h = rw (← pack_aligned-blocks items l levels hashes bs h) (
        blocks-Cut (length items) l.align hashes l.rules items 1 (above_zero l.align z)
          (omega arith))

-- The accounts that are opened first: none for a chain without rules for them.
abbrev pub opened : Limits → List Payout → List Payout
opened l items = elim l.prepare_rules [ [] ↦ [] | (r ∷ rs) ↦ creations items ]

pack_prepare-Cut :
    (items : List Payout) (l : Limits) (bs : List Batch)
    → pack_prepare items l ≡ ok bs
    → Cut 1 (opened l items) bs
unfolding pack_prepare joined
pack_prepare-Cut items l bs h = by_rules l.prepare_rules (creations items) h
  where
    by_rules :
        (rs : List Rule) (cs : List Payout)
        → (if not (started cs)
            then ok []
            else elim rs [ [] ↦ ok [] | (r ∷ rs) ↦ greedy true (r ∷ rs) cs [] (unused (r ∷ rs)) 1 ])
          ≡ ok bs
        → Cut 1 (elim rs [ [] ↦ [] | (r ∷ rs) ↦ cs ]) bs
    by_rules [] [] h =
        let made : [] ≡ bs = ground arith in rw (← made) (record { whole = refl; numbered = tt })
    by_rules [] (c ∷ cs) h =
        let made : [] ≡ bs = ground arith in rw (← made) (record { whole = refl; numbered = tt })
    by_rules (r ∷ rs) [] h =
        let made : [] ≡ bs = ground arith in rw (← made) (record { whole = refl; numbered = tt })
    by_rules (r ∷ rs) (c ∷ cs) h =
        greedy-Cut true (r ∷ rs) (c ∷ cs) [] (unused (r ∷ rs)) 1 bs (inr refl) h

-- The batches of a plan, one after the other, are the run in its order, and those of its first part
-- are the payouts that need an account, if the chain has rules for that; all are numbered from one
-- on, and none is empty.
pub pack-joined :
    (items : List Payout) (l : Limits) (p : Plan)
    → pack items l ≡ ok p
    → (joined p.batches ≡ items)
      × Numbered 1 p.batches
      × (joined p.prepare ≡ opened l items)
      × Numbered 1 p.prepare
      × (p.payouts ≡ length items)
      × (p.new_accounts ≡ length (creations items))
unfolding pack
pack-joined [] l p h = absurd (ground arith)
pack-joined (it ∷ its) l p h = elim (Result-cases (cut_run (it ∷ its) l)) [
  | inr (e, f) ↦ absurd (ground arith)
  | inl ((levels, hashes, bs), f) ↦ elim (Result-cases (pack_prepare (it ∷ its) l)) [
    | inr (e, g) ↦ absurd (ground arith)
    | inl (ps, g) ↦
        let batches : bs ≡ p.batches = ground arith in
        let prepare : ps ≡ p.prepare = ground arith in
        let cut =
          cut_run-Cut (it ∷ its) l levels hashes p.batches refl
            (f ∙ ap (λ x. ok (levels, hashes, x)) batches) in
        let pre = pack_prepare-Cut (it ∷ its) l p.prepare (g ∙ ap ok prepare) in
        (cut.whole, cut.numbered, pre.whole, pre.numbered, ground arith, ground arith)
  ]
]
