-- ===== src/Retry/Backoff.antt =====
-- backend/internal/txfail: how long the waits are, and that they end.
use stablecoin_settlement_en.Common.{
  ℕ, zero, suc, ◌+◌, ◌-◌, ◌*◌, ◌/◌, ◌%◌, ◌^◌, ◌≤◌, ◌<◌, ◌≡◌, sym, ap, ◌∙◌, ◌⊎◌, inl, inr, false,
  none, arith, u64, leb, if◌then◌else◌, Bytes-eq,
}
use native.Mathlib.Nat.{mul-add-mod_self_left, mul-mod_right}
use stablecoin_settlement_en.Retry.{
  Policy, Fault, retryable, positive, less, double, capped, backoff, equal_jitter, judge,
}

pow_suc : (n : ℕ) → 2 ^ suc n ≡ 2 * 2 ^ n
pow_suc n = ground arith

pow_pos : (n : ℕ) → 0 < 2 ^ n
pow_pos zero = omega arith
pow_pos (suc n) = ground (arith, pow_suc n, pow_pos n)

Nat-cases : (a b : ℕ) → (a < b) ⊎ (b ≤ a)
Nat-cases a b = ground arith

double_shift : (d n : ℕ) → d * 2 ^ suc n ≡ d * 2 * 2 ^ n
double_shift d n = grind (arith, pow_suc n)

double_on :
    (max n d : ℕ) → 0 < max → max < 2 ^ 62 → d < max → double max (suc n) d ≡ double max n (d * 2)
unfolding double positive less
double_on max n d a b c = let w : d * 2 % u64 ≡ d * 2 = omega arith in ground (arith, w)

double_off :
    (max n d : ℕ) → 0 < max → max < 2 ^ 62 → max ≤ d → d < 2 ^ 63 → double max (suc n) d ≡ d
unfolding double positive less
double_off max n d a b c e = ground arith

-- Doubling up to a cap that is far from the overflow.
double_capped :
    (max n d : ℕ)
    → 0 < max
    → max < 2 ^ 62
    → 0 < d
    → d < 2 ^ 63
    → (d * 2 ^ n ≤ max → double max n d ≡ d * 2 ^ n)
      × (max < d * 2 ^ n → max ≤ double max n d)
      × (0 < double max n d)
      × (double max n d < 2 ^ 63)
unfolding double
double_capped max zero d a b c e = (λ h. omega arith, λ h. omega arith, c, e)
double_capped max (suc n) d a b c e = elim (Nat-cases d max) [
  | inl less ↦
      let (low, high, pos, fits) = double_capped max n (d * 2) a b (omega arith) (omega arith) in
      rw (double_on max n d a b less, double_shift d n) (low, high, pos, fits)
  | inr more ↦
      rw (double_off max n d a b more e)
        (λ h. absurd (grind (arith, double_shift d n, pow_pos n, h, more, c)), λ h. more, c, e)
]

word_double : (d : ℕ) → d < u64 → (d * 2 % u64 ≡ d * 2) ⊎ (d * 2 ≡ u64 + d * 2 % u64)
word_double d h = elim (Nat-cases (d * 2) u64) [
  | inl a ↦ inl (omega arith)
  | inr a ↦ inr (omega arith)
]

-- Doubling without a cap wraps round.
double_uncapped : (n d : ℕ) → d < u64 → double 0 n d ≡ d * 2 ^ n % u64
unfolding double positive less
double_uncapped zero d h = omega arith
double_uncapped (suc n) d h =
    double_uncapped n (d * 2 % u64) (omega arith) ∙ elim (word_double d h) [
      | inl a ↦ ap (λ x. x * 2 ^ n % u64) a ∙ sym (ap (λ x. x % u64) (double_shift d n))
      | inr a ↦
          let w = d * 2 % u64 in
          let split : d * 2 ^ suc n ≡ u64 * 2 ^ n + w * 2 ^ n =
            double_shift d n ∙ ap (λ x. x * 2 ^ n) a ∙ grind arith in
          sym (mul-add-mod_self_left u64 (2 ^ n) (w * 2 ^ n)) ∙ sym (ap (λ x. x % u64) split)
    ]

-- Without jitter, with 0 < MaxBackoff < 2^62 and a positive base, the wait is the base doubled for
-- every delivery after the first, or MaxBackoff where that is less.
pub backoff_capped :
    (p : Policy) (base attempt : ℕ)
    → p.jitter ≡ none
    → 0 < p.max_backoff
    → p.max_backoff < 2 ^ 62
    → 0 < base
    → base < 2 ^ 63
    → backoff p base attempt ≡ (
        if leb (base * 2 ^ (attempt - 1)) p.max_backoff
        then base * 2 ^ (attempt - 1)
        else p.max_backoff)
unfolding backoff capped positive less
backoff_capped p base attempt j a b c e =
    let (low, high, pos, fits) = double_capped p.max_backoff (attempt - 1) base a b c e in
    ground (arith, low, high, pos, fits)

pow_split : (k m : ℕ) → 2 ^ (k + m) ≡ 2 ^ k * 2 ^ m
pow_split zero m = let same : 0 + m ≡ m = omega arith in rw same (omega arith)
pow_split (suc k) m = grind (arith, pow_suc k, pow_suc (k + m), pow_split k m)

swap_factor : (a b c : ℕ) → a * (b * c) ≡ b * (a * c)
swap_factor a b c = grind arith

late_product : (d n : ℕ) → 64 ≤ n → d * 2 ^ n ≡ u64 * (d * 2 ^ (n - 64))
late_product d n h =
    let shifted : n ≡ 64 + (n - 64) = omega arith in
    let power : 2 ^ n ≡ u64 * 2 ^ (n - 64) = ap (λ k. 2 ^ k) shifted ∙ pow_split 64 (n - 64) in
    let shuffle : d * (u64 * 2 ^ (n - 64)) ≡ u64 * (d * 2 ^ (n - 64)) =
      swap_factor d u64 (2 ^ (n - 64)) in
    ap (λ k. d * k) power ∙ shuffle

-- Without a cap, and without jitter, the wait for a base below 2^63 is zero from the 65th
-- delivery on.
pub backoff_uncapped :
    (p : Policy) (base attempt : ℕ)
    → p.jitter ≡ none
    → p.max_backoff ≡ 0
    → base < 2 ^ 63
    → 65 ≤ attempt
    → backoff p base attempt ≡ 0
unfolding backoff capped positive less
backoff_uncapped p base attempt j z e late =
    let n = attempt - 1 in
    let wide : base * 2 ^ n ≡ u64 * (base * 2 ^ (n - 64)) = late_product base n (omega arith) in
    let none_left : double 0 n base ≡ 0 =
      double_uncapped n base (omega arith)
      ∙ ap (λ x. x % u64) wide
      ∙ mul-mod_right u64 (base * 2 ^ (n - 64)) in
    ground (arith, none_left)

-- With the jitter of the default policy, the wait is between half of what it is without, and that.
pub jitter_bounds :
    (rand : ℕ → ℕ) (d : ℕ)
    → ((n : ℕ) → 0 < n → rand n < n)
    → d < 2 ^ 63
    → (d / 2 ≤ equal_jitter rand d) × (equal_jitter rand d ≤ d)
unfolding equal_jitter positive
jitter_bounds rand d r h = ground (arith, r ((d - d / 2 + 1) % u64))

-- A failure that is retried was not declared poison and has deliveries left, and its wait is above
-- zero and at most MaxBackoff, without jitter, with 0 < MaxBackoff < 2^62 and a positive base.
pub judge_again :
    (p : Policy) (f : Fault) (wait : ℕ)
    → p.jitter ≡ none
    → 0 < p.max_backoff
    → p.max_backoff < 2 ^ 62
    → 0 < f.base
    → f.base < 2 ^ 63
    → judge p f ≡ retryable wait
    → (f.poison ≡ false)
      × ((p.max_attempts ≡ 0) ⊎ (f.attempt < p.max_attempts))
      × (0 < wait)
      × (wait ≤ p.max_backoff)
unfolding judge
judge_again p f wait j a b c e h =
    let waits = backoff_capped p f.base f.attempt j a b c e in
    let w : wait ≡ backoff p f.base f.attempt = ground arith in
    let some_base : 0 < f.base * 2 ^ (f.attempt - 1) = grind (arith, pow_pos (f.attempt - 1)) in
    (ground arith, ground arith, ground (arith, waits, w, some_base), ground (arith, waits, w))
