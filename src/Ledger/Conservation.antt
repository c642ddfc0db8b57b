-- ===== src/Ledger/Conservation.antt =====
-- backend/internal/ledger: double entry in the balances. Nothing appears and nothing is lost.
use stablecoin_settlement_en.Common.{
  ℕ, ◌≡◌, refl, sym, ap, ◌∙◌, inl, inr, Bool, true, false, Option, some, List, [], ◌∷◌, arith,
  Bool-cases, Option-cases, All, All-append, Bytes, ◌=?◌, Bytes-eq, Dict, lookup, lookup-insert, ok,
}
use stablecoin_settlement_en.Common.Int.{ℤ, pos, ◌+ℤ◌, ◌-ℤ◌, int_laws, +ℤ-zero, zero-+ℤ, +ℤ_assoc}
use stablecoin_settlement_en.Ledger.Entry.{
  Asset, Leg, Kind, Entry, hold, post, void, unknown, asset_eq,
}
use stablecoin_settlement_en.Ledger.Legs.{total, validate-zero_sum}
use stablecoin_settlement_en.Ledger.Journal.{Journal, append, write, seal, empty}
use stablecoin_settlement_en.Ledger.Chain.{append_cases}
use stablecoin_settlement_en.Ledger.Balances.{
  BalanceKey-eq, Sheet, balance_at, key_of, add_leg, sub_leg, post_leg, each_leg, hold_legs,
  hold_asset, resolve, project, balances_from, balances,
}
use stablecoin_settlement_en.Ledger.Sheets.{gain, sheet_sum, sum-shift}

-- What each loop over legs does to the two sums of an asset.
record Shift (f : Asset → Leg → Sheet → Sheet) (p : Bool) (g : ℤ → ℤ) : Type 0 where
  by_leg :
      (a c : Asset) (l : Leg) (out : Sheet)
      → sheet_sum p a (f c l out) ≡ sheet_sum p a out +ℤ gain a c (g l.amount)

minus : ℤ → ℤ
minus n = pos 0 -ℤ n

add_leg-pending : Shift add_leg true (λ n. n)
unfolding add_leg
add_leg-pending = record { by_leg = λ a c l out. sum-shift true a (key_of c l) _ l.amount out refl }

add_leg-posted : Shift add_leg false (λ n. pos 0)
unfolding add_leg
add_leg-posted = record {
  by_leg = λ a c l out. sum-shift false a (key_of c l) _ (pos 0) out (sym (+ℤ-zero _));
}

sub_leg-pending : Shift sub_leg true minus
unfolding sub_leg minus
sub_leg-pending = record {
  by_leg = λ a c l out.
      sum-shift true a (key_of c l) _ (pos 0 -ℤ l.amount) out
        (int_minus (balance_at (key_of c l) out).pending l.amount);
}
  where
    int_minus : (x y : ℤ) → x -ℤ y ≡ x +ℤ (pos 0 -ℤ y)
    int_minus x y = omega int_laws

sub_leg-posted : Shift sub_leg false (λ n. pos 0)
unfolding sub_leg
sub_leg-posted = record {
  by_leg = λ a c l out. sum-shift false a (key_of c l) _ (pos 0) out (sym (+ℤ-zero _));
}

post_leg-pending : Shift post_leg true (λ n. pos 0)
unfolding post_leg
post_leg-pending = record {
  by_leg = λ a c l out. sum-shift true a (key_of c l) _ (pos 0) out (sym (+ℤ-zero _));
}

post_leg-posted : Shift post_leg false (λ n. n)
unfolding post_leg
post_leg-posted = record {
  by_leg = λ a c l out. sum-shift false a (key_of c l) _ l.amount out refl;
}

total_by : (ℤ → ℤ) → List Leg → ℤ
total_by g [] = pos 0
total_by g (l ∷ ls) = g l.amount +ℤ total_by g ls

gain-+ℤ : (a c : Asset) (x m n : ℤ) → x +ℤ gain a c m +ℤ gain a c n ≡ x +ℤ gain a c (m +ℤ n)
gain-+ℤ a c x m n = elim (Bool-cases (asset_eq c a)) [
  | inl h ↦ rw h (+ℤ_assoc x m n)
  | inr h ↦ rw h (omega int_laws)
]

each_leg-sum :
    (f : Asset → Leg → Sheet → Sheet) (p : Bool) (g : ℤ → ℤ) (a c : Asset) (ls : List Leg)
    (out : Sheet)
    → Shift f p g
    → sheet_sum p a (each_leg f c ls out) ≡ sheet_sum p a out +ℤ gain a c (total_by g ls)
unfolding each_leg total_by
each_leg-sum f p g a c [] out s = elim (Bool-cases (asset_eq c a)) [
  | inl h ↦ rw h (sym (+ℤ-zero _))
  | inr h ↦ rw h (sym (+ℤ-zero _))
]
each_leg-sum f p g a c (l ∷ ls) out s =
    each_leg-sum f p g a c ls (f c l out) s
    ∙ ap (λ x. x +ℤ gain a c (total_by g ls)) (s.by_leg a c l out)
    ∙ gain-+ℤ a c (sheet_sum p a out) (g l.amount) (total_by g ls)

total_by-same : (ls : List Leg) → total_by (λ n. n) ls ≡ total ls
unfolding total_by
total_by-same [] = refl
total_by-same (l ∷ ls) = ap (λ x. l.amount +ℤ x) (total_by-same ls)

total_by-none : (ls : List Leg) → total_by (λ n. pos 0) ls ≡ pos 0
unfolding total_by
total_by-none [] = refl
total_by-none (l ∷ ls) = zero-+ℤ _ ∙ total_by-none ls

total_by-minus : (ls : List Leg) → total_by minus ls ≡ minus (total ls)
unfolding total_by minus
total_by-minus [] = omega int_laws
total_by-minus (l ∷ ls) =
    ap (λ x. pos 0 -ℤ l.amount +ℤ x) (total_by-minus ls) ∙ int_split l.amount (total ls)
  where
    int_split : (x y : ℤ) → pos 0 -ℤ x +ℤ (pos 0 -ℤ y) ≡ pos 0 -ℤ (x +ℤ y)
    int_split x y = omega int_laws

-- Legs whose effect sums to nothing leave the sum of every asset as it was.
each_leg_keeps :
    (f : Asset → Leg → Sheet → Sheet) (p : Bool) (g : ℤ → ℤ) (a c : Asset) (ls : List Leg)
    (out : Sheet)
    → Shift f p g
    → total_by g ls ≡ pos 0
    → sheet_sum p a (each_leg f c ls out) ≡ sheet_sum p a out
each_leg_keeps f p g a c ls out s z =
    each_leg-sum f p g a c ls out s ∙ ap (λ x. sheet_sum p a out +ℤ gain a c x) z ∙ no_gain
  where
    no_gain : sheet_sum p a out +ℤ gain a c (pos 0) ≡ sheet_sum p a out
    no_gain = elim (Bool-cases (asset_eq c a)) [
      | inl h ↦ rw h (+ℤ-zero _)
      | inr h ↦ rw h (+ℤ-zero _)
    ]

-- Balanced legs, whichever loop runs over them and whichever side is summed.
module _ (a c : Asset) (ls : List Leg) (out : Sheet) (z : total ls ≡ pos 0) where
  minus_none : total_by minus ls ≡ pos 0
  unfolding minus
  minus_none = total_by-minus ls ∙ ap minus z ∙ omega int_laws

  add_leg_keeps : (p : Bool) → sheet_sum p a (each_leg add_leg c ls out) ≡ sheet_sum p a out
  add_leg_keeps true =
      each_leg_keeps add_leg true _ a c ls out add_leg-pending (total_by-same ls ∙ z)
  add_leg_keeps false = each_leg_keeps add_leg false _ a c ls out add_leg-posted (total_by-none ls)

  sub_leg_keeps : (p : Bool) → sheet_sum p a (each_leg sub_leg c ls out) ≡ sheet_sum p a out
  sub_leg_keeps true = each_leg_keeps sub_leg true _ a c ls out sub_leg-pending minus_none
  sub_leg_keeps false = each_leg_keeps sub_leg false _ a c ls out sub_leg-posted (total_by-none ls)

  post_leg_keeps : (p : Bool) → sheet_sum p a (each_leg post_leg c ls out) ≡ sheet_sum p a out
  post_leg_keeps true =
      each_leg_keeps post_leg true _ a c ls out post_leg-pending (total_by-none ls)
  post_leg_keeps false =
      each_leg_keeps post_leg false _ a c ls out post_leg-posted (total_by-same ls ∙ z)

abbrev pub ZeroSum : Entry → Type 0
ZeroSum e = total e.legs ≡ pos 0

-- The holds that the projection remembers are balanced too.
abbrev HoldsZero : Dict Bytes Entry → Type 0
HoldsZero holds = (id : Bytes) (h : Entry) → lookup id holds ≡ some h → ZeroSum h

hold_legs_zero :
    (holds : Dict Bytes Entry) (id : Bytes)
    → HoldsZero holds
    → total (hold_legs (lookup id holds)) ≡ pos 0
hold_legs_zero holds id z = elim (Option-cases (lookup id holds)) [
  | inl e ↦ rw e refl
  | inr (h, e) ↦ rw e (z id h e)
]

resolve_keeps :
    (a : Asset) (p : Bool) (h : Option Entry) (e : Entry) (out : Sheet)
    → total (hold_legs h) ≡ pos 0
    → ZeroSum e
    → sheet_sum p a (resolve h e out) ≡ sheet_sum p a out
unfolding resolve
resolve_keeps a p h e out zh ze =
    post_leg_keeps a e.asset e.legs (each_leg sub_leg (hold_asset h) (hold_legs h) out) ze p
    ∙ sub_leg_keeps a (hold_asset h) (hold_legs h) out zh p

project_keeps :
    (a : Asset) (p : Bool) (k : Kind) (e : Entry) (out : Sheet) (holds : Dict Bytes Entry)
    → HoldsZero holds
    → ZeroSum e
    → (sheet_sum p a (project k e (out, holds)).0 ≡ sheet_sum p a out)
      × HoldsZero (project k e (out, holds)).1
unfolding project
project_keeps a p hold e out holds zh ze = (
  add_leg_keeps a e.asset e.legs out ze p,
  λ id h f. elim (Bool-cases (e.id =? id)) [
    | inl new ↦ let same : e ≡ h = ground (arith, lookup-insert e.id id e holds) in rw (← same) ze
    | inr old ↦ zh id h (ground (arith, lookup-insert e.id id e holds))
  ],
)
project_keeps a p post e out holds zh ze =
    (resolve_keeps a p (lookup e.holds holds) e out (hold_legs_zero holds e.holds zh) ze, zh)
project_keeps a p void e out holds zh ze =
    (resolve_keeps a p (lookup e.holds holds) e out (hold_legs_zero holds e.holds zh) ze, zh)
project_keeps a p (unknown b) e out holds zh ze = (refl, zh)

balances_from_keeps :
    (a : Asset) (p : Bool) (es : List Entry) (out : Sheet) (holds : Dict Bytes Entry)
    → HoldsZero holds
    → All ZeroSum es
    → sheet_sum p a (balances_from (out, holds) es) ≡ sheet_sum p a out
unfolding balances_from
balances_from_keeps a p [] out holds zh z = refl
balances_from_keeps a p (e ∷ es) out holds zh z =
    let (kept, zh') = project_keeps a p e.kind e out holds zh z.0 in
    let next = project e.kind e (out, holds) in
    balances_from_keeps a p es next.0 next.1 zh' z.1 ∙ kept

module _ (sha256 : Bytes → Bytes) (stamp : ℕ → Bytes) where
  -- The journals that `Append` builds.
  pub data Built : Journal → Type 0 where
    start : Built empty
    appended :
        (j k : Journal) (e stored : Entry) (b : Bool)
        → Built j
        → append sha256 stamp j e ≡ ok (k, stored, b)
        → Built k

  write-ZeroSum :
      (j : Journal) (e : Entry)
      → All ZeroSum j.entries
      → ZeroSum e
      → All ZeroSum (write sha256 stamp j e).entries
  unfolding write seal
  write-ZeroSum j e a z = All-append ZeroSum j.entries _ a (z, tt)

  Built-ZeroSum : {j : Journal} → Built j → All ZeroSum j.entries
  unfolding empty
  Built-ZeroSum start = tt
  Built-ZeroSum (appended j k e stored b u h) =
      let (v, c) = append_cases sha256 stamp j k e stored b h in
      elim c [
        | inl (_, unchanged) ↦ rw unchanged (Built-ZeroSum u)
        | inr (_, _, written, _) ↦
            rw written (write-ZeroSum j e (Built-ZeroSum u) (validate-zero_sum e v))
      ]

  -- In every journal that `Append` built, the pending balances of an asset sum to zero over all
  -- accounts, and so do the posted ones.
  pub balances_zero_sum :
      {j : Journal} (a : Asset) (p : Bool) → Built j → sheet_sum p a (balances j.entries) ≡ pos 0
  unfolding balances sheet_sum lookup
  balances_zero_sum {j} a p u =
      balances_from_keeps a p j.entries [] [] (λ id h e. absurd (ground arith)) (Built-ZeroSum u)
