-- ===== src/Fee/Plans.antt =====
-- backend/internal/txfee: bids that win, ceilings that hold, and tries that run out.
use stablecoin_settlement_en.Common.{
  ℕ, ◌+◌, ◌*◌, ◌≤◌, ◌<◌, ◌≡◌, refl, ap, ◌∙◌, ◌≢◌, ◌↔◌, ◌⊎◌, inl, inr, false, Option, none, some,
  arith, u64, ltb, leb, if◌then◌else◌, Bool-cases, Bytes-eq, Result, ok, err,
}
use stablecoin_settlement_en.Txseq.{Sent, sent, not_sent, unknown}
use stablecoin_settlement_en.Fee.{
  Fee, Policy, Error, ceiling, nil_amount, speed_up, cancel, review, Stuck, Plan, zero_fee, bump,
  bump_fee, next_fee, decide, no_amount, over, amount, no_fee,
}

-- `bump` is the least amount that reaches the percentage: no less than it, and less than one more.
pub bump-ceil :
    (v pct : ℕ)
    → 100 + pct < u64
    → (v * (100 + pct) ≤ bump v pct * 100) × (bump v pct * 100 < v * (100 + pct) + 100)
unfolding bump
bump-ceil v pct h = (ground arith, ground arith)

-- A fee that is higher than another by the percentage, and within the ceiling.
pub record Outbids (p : Policy) (c t : ℕ) (f : Fee) : Type 0 where
  pub cap : ℕ
  pub tip : ℕ
  pub is : f ≡ record { cap = some cap; tip = some tip }
  pub cap_up : c * (100 + p.bump_percent) ≤ cap * 100
  pub tip_up : t * (100 + p.bump_percent) ≤ tip * 100
  pub within : (m : ℕ) → p.max_cap ≡ some m → cap ≤ m

over-within : (o : Option ℕ) (m cap : ℕ) → over o cap ≡ false → o ≡ some m → cap ≤ m
unfolding over
over-within none m cap h e = absurd (ground arith)
over-within (some k) m cap h e = ground arith

bump_fee-Outbids :
    (p : Policy) (f g : Fee) (c t : ℕ)
    → f ≡ record { cap = some c; tip = some t }
    → 0 < c
    → 0 < t
    → 100 + p.bump_percent < u64
    → bump_fee p f ≡ ok g
    → Outbids p c t g
unfolding bump_fee zero_fee amount no_amount
bump_fee-Outbids p f g c t e a b w h =
    let (low, _) = bump-ceil c p.bump_percent w in
    let (low', _) = bump-ceil t p.bump_percent w in
    let is : g ≡ record { cap = some (bump c p.bump_percent); tip = some (bump t p.bump_percent) } =
      ground arith in
    let fits : over p.max_cap (bump c p.bump_percent) ≡ false = ground arith in
    record {
      cap = bump c p.bump_percent;
      tip = bump t p.bump_percent;
      is = is;
      cap_up = low;
      tip_up = low';
      within = λ m. over-within p.max_cap m (bump c p.bump_percent) fits;
    }

abbrev pub Broadcasts : Plan → Type 0
Broadcasts d = (d.kind ≡ speed_up) ⊎ (d.kind ≡ cancel)

-- What `Decide` looked at when it plans a broadcast.
decide-inv :
    (p : Policy) (s : Stuck) (d : Plan)
    → decide p s ≡ ok d
    → Broadcasts d
    → (s.stuck_after ≤ s.age)
      × (next_fee p s ≡ ok d.fee)
      × ((d.kind ≡ speed_up) ↔ (s.tries < p.max_tries))
unfolding decide
decide-inv p s d h k = elim (Bool-cases (ltb s.age s.stuck_after)) [
  | inl young ↦ absurd (ground arith)
  | inr old ↦ from_fee (next_fee p s) refl (ground arith)
]
  where
    from_fee :
        (a : Result Error Fee)
        → next_fee p s ≡ a
        → elim a as (λ _. Result Error Plan) [
          | err ceiling ↦ ok (record { kind = review; fee = no_fee })
          | err nil_amount ↦ err nil_amount
          | ok fee ↦
              ok (record {
                kind = (if leb p.max_tries s.tries then cancel else speed_up);
                fee = fee;
              })
        ]
          ≡ ok d
        → (s.stuck_after ≤ s.age)
          × (next_fee p s ≡ ok d.fee)
          × ((d.kind ≡ speed_up) ↔ (s.tries < p.max_tries))
    from_fee (err ceiling) e g = absurd (ground arith)
    from_fee (err nil_amount) e g = absurd (ground arith)
    from_fee (ok fee) e g =
        let fees : fee ≡ d.fee = ground arith in
        let kinds : (if leb p.max_tries s.tries then cancel else speed_up) ≡ d.kind =
          ground arith in
        (ground arith, e ∙ ap ok fees, (λ u. ground arith, λ u. ground arith))

-- A planned broadcast is of a payment that has been stuck for long enough, it is the payment's own
-- exactly while tries are left, and where the last broadcast may be in a mempool, its fee outbids
-- the last one by the percentage in both parts and stays within the ceiling. The last fee is above
-- zero in both parts, and 100 and the percentage stay below 2^64.
pub decide-Outbids :
    (p : Policy) (s : Stuck) (d : Plan) (c t : ℕ)
    → decide p s ≡ ok d
    → Broadcasts d
    → s.fee ≡ record { cap = some c; tip = some t }
    → 0 < c
    → 0 < t
    → 100 + p.bump_percent < u64
    → (s.stuck_after ≤ s.age)
      × ((d.kind ≡ speed_up) ↔ (s.tries < p.max_tries))
      × (s.sent ≢ not_sent → Outbids p c t d.fee)
unfolding next_fee
decide-Outbids p s d c t h k e a b w =
    let (old, fee, tries) = decide-inv p s d h k in
    (
      old,
      tries,
      λ maybe. bump_fee-Outbids p s.fee d.fee c t e a b w (from_sent s.sent refl maybe fee),
    )
  where
    from_sent :
        (x : Sent)
        → s.sent ≡ x
        → s.sent ≢ not_sent
        → next_fee p s ≡ ok d.fee
        → bump_fee p s.fee ≡ ok d.fee
    from_sent sent i n f = ground arith
    from_sent not_sent i n f = absurd (n i)
    from_sent unknown i n f = ground arith
