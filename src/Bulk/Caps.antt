-- ===== src/Bulk/Caps.antt =====
-- backend/internal/bulk/pack.go: no batch of the greedy cut is above a cap.
use stablecoin_settlement_en.Common.{
  ℕ, ◌+◌, ◌%◌, ◌^◌, ◌≤◌, ◌<◌, ◌≡◌, refl, ◌⊎◌, inl, inr, Bool, true, false, ◌&&◌, ◌||◌, List, [],
  ◌∷◌, ◌++◌, arith, u64, ltb, if◌then◌else◌, not, All, Bytes-eq, ok,
}
use stablecoin_settlement_en.Bulk.{
  Payout, Batch, Rule, Limits, too_large, fits_rules, add_item, unused, usages, seal, started,
  greedy, pack_greedy,
}
use stablecoin_settlement_en.Bulk.Joins.{greedy-step, started-append}

-- The numbers of the rules stay below 2 ^ 63.
abbrev pub Small : List Rule → Type 0
Small = All (λ r. (r.cap < 2 ^ 63) × (r.base < 2 ^ 63) × (r.item < 2 ^ 63))

abbrev pub WithinCaps : Batch → Type 0
WithinCaps b = All (λ u. u.used ≤ u.cap) b.used

-- What is used, with what every transaction uses, is within the caps.
abbrev Under : List ℕ → List Rule → Type 0
Under [] rs = Unit {0}
Under (u ∷ us) [] = Unit {0}
Under (u ∷ us) (r ∷ rs) = (r.base + u ≤ r.cap) × Under us rs

usages-Under :
    (us : List ℕ) (rs : List Rule)
    → Small rs
    → Under us rs
    → All (λ u. u.used ≤ u.cap) (usages us rs)
unfolding usages
usages-Under [] rs s h = tt
usages-Under (u ∷ us) [] s h = tt
usages-Under (u ∷ us) (r ∷ rs) s h = (omega (arith, h.0, s.0.0), usages-Under us rs s.1 h.1)

-- The first item of a batch.
first-Under :
    (rs : List Rule) → Small rs → too_large rs ≡ false → Under (add_item (unused rs) rs) rs
unfolding too_large add_item
first-Under [] s h = tt
first-Under (r ∷ rs) s h =
    let parts = or_false (ltb r.cap ((r.base + r.item) % u64)) (too_large rs) h in
    (one-Under r s.0.0 s.0.1 s.0.2 parts.0, first-Under rs s.1 parts.1)
  where
    or_false : (a b : Bool) → (a || b) ≡ false → (a ≡ false) × (b ≡ false)
    or_false true b e = absurd (ground arith)
    or_false false b e = (refl, e)

    one-Under :
        (r : Rule)
        → r.cap < 2 ^ 63
        → r.base < 2 ^ 63
        → r.item < 2 ^ 63
        → ltb r.cap ((r.base + r.item) % u64) ≡ false
        → r.base + (0 + r.item) % u64 ≤ r.cap
    one-Under r c b i e = ground arith

-- One more item in a batch that it fits.
next-Under :
    (us : List ℕ) (rs : List Rule)
    → Small rs
    → Under us rs
    → fits_rules us rs ≡ true
    → Under (add_item us rs) rs
unfolding fits_rules add_item
next-Under [] rs s h f = tt
next-Under (u ∷ us) [] s h f = tt
next-Under (u ∷ us) (r ∷ rs) s h f =
    let parts = cond_true (ltb r.cap (((r.base + u) % u64 + r.item) % u64)) (fits_rules us rs) f in
    (one-Under u r s.0.0 s.0.1 s.0.2 h.0 parts.0, next-Under us rs s.1 h.1 parts.1)
  where
    cond_true : (a b : Bool) → (if a then false else b) ≡ true → (a ≡ false) × (b ≡ true)
    cond_true true b e = absurd (ground arith)
    cond_true false b e = (refl, e)

    one-Under :
        (u : ℕ) (r : Rule)
        → r.cap < 2 ^ 63
        → r.base < 2 ^ 63
        → r.item < 2 ^ 63
        → r.base + u ≤ r.cap
        → ltb r.cap (((r.base + u) % u64 + r.item) % u64) ≡ false
        → r.base + (u + r.item) % u64 ≤ r.cap
    one-Under u r c b i h e = ground arith

and_false : (a b : Bool) → (a && not b) ≡ false → (a ≡ false) ⊎ (b ≡ true)
and_false true true e = inr refl
and_false true false e = absurd (ground arith)
and_false false b e = inl refl

-- A batch that was begun is within the caps, one that was not has used nothing.
abbrev Filling : List Rule → List Payout → List ℕ → Type 0
Filling rs current used =
    ((started current ≡ true) × Under used rs) ⊎ ((started current ≡ false) × (used ≡ unused rs))

greedy-WithinCaps :
    (prep : Bool) (rules : List Rule) (its current : List Payout) (used : List ℕ) (index : ℕ)
    (bs : List Batch)
    → Small rules
    → Filling rules current used
    → (started current ≡ true) ⊎ (started its ≡ true)
    → greedy prep rules its current used index ≡ ok bs
    → All WithinCaps bs
unfolding greedy seal
greedy-WithinCaps prep rules [] current used index bs s fill (inr e) h = absurd (ground arith)
greedy-WithinCaps prep rules [] current used index bs s (inr (e, _)) (inl b) h =
    absurd (ground (arith, e, b))
greedy-WithinCaps prep rules [] current used index bs s (inl (_, u)) (inl b) h =
    let made : seal prep current used rules index ∷ [] ≡ bs = ground arith in
    rw (← made) (usages-Under used rules s u, tt)
greedy-WithinCaps prep rules (it ∷ its) current used index bs s fill e h =
    let (large, round) = greedy-step prep rules it its current used index bs h in
    let first = first-Under rules s large in
    elim round [
      | inl (begun, (cs, f, made)) ↦
          let rest =
            greedy-WithinCaps prep rules its (it ∷ []) (add_item (unused rules) rules) (index + 1)
              cs s (inl (refl, first)) (inl refl) f in
          elim fill [
            | inr (idle, _) ↦ absurd (ground (arith, idle, begun))
            | inl (_, u) ↦ rw made (usages-Under used rules s u, rest)
          ]
      | inr (open_test, f) ↦
          greedy-WithinCaps prep rules its (current ++ it ∷ []) (add_item used rules) index bs s
            (inl (
              started-append current it,
              elim fill [
                | inr (idle, none_used) ↦ rw none_used first
                | inl (begun, u) ↦
                    elim (and_false (started current) (fits_rules used rules) open_test) [
                      | inl idle ↦ absurd (ground (arith, idle, begun))
                      | inr fits ↦ next-Under used rules s u fits
                    ]
              ],
            ))
            (inl (started-append current it)) f
    ]

-- No batch of a greedy cut is above a cap, while the numbers of the rules are below 2 ^ 63.
pub pack_greedy-WithinCaps :
    (items : List Payout) (l : Limits) (bs : List Batch)
    → Small l.rules
    → started items ≡ true
    → pack_greedy items l ≡ ok bs
    → All WithinCaps bs
unfolding pack_greedy
pack_greedy-WithinCaps items l bs s e h =
    greedy-WithinCaps false l.rules items [] (unused l.rules) 1 bs s (inr (refl, refl)) (inr e) h
