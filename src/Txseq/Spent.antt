-- ===== src/Txseq/Spent.antt =====
-- backend/internal/txseq/counter.go: a number that may be on the chain is not given out again.
use stablecoin_settlement_en.Common.{
  ℕ, ◌+◌, ◌%◌, ◌≤◌, ◌<◌, ◌≡◌, refl, ◌⊎◌, inl, inr, Bool, true, false, Option, none, some, List, [],
  ◌∷◌, arith, u64, if◌then◌else◌, Option-cases, All, Bytes, bytes_eq_iff, Bytes-eq, lookup, insert,
  lookup-insert, ok, err,
}
use stablecoin_settlement_en.Txseq.{
  Reservation, Sent, sent, not_sent, unknown, stale, Line, Counter, take_number, take_gap, settle,
  is_out, resolve_line, resolve,
}

-- The numbers that left, or may have left, with a transaction.
abbrev pub spend : Sent → ℕ → List ℕ → List ℕ
spend sent v used = v ∷ used
spend not_sent v used = used
spend unknown v used = v ∷ used

-- The life of a line between two syncs, with the reservation in flight and the numbers spent. It
-- starts with no gap, as a new line does and a line behind a Sync that left none; a life behind a Sync
-- that keeps a gap is left out. The counter stays below 2 ^ 64.
pub data Run (name : Bytes) : Line → Option Reservation → List ℕ → Type 0 where
  start : (a : Line) → a.free ≡ true → a.out ≡ none → a.gap ≡ none → Run name a none []
  reserved :
      (a b : Line) (r : Reservation) (used : List ℕ)
      → Run name a none used
      → a.next + 1 < u64
      → take_number name a ≡ ok (b, r)
      → Run name b (some r) used
  filling :
      (a b : Line) (r : Reservation) (used : List ℕ)
      → Run name a none used
      → take_gap name a ≡ ok (b, r)
      → Run name b (some r) used
  resolved :
      (a b : Line) (r : Reservation) (s : Sent) (used : List ℕ)
      → Run name a (some r) used
      → resolve_line r s a ≡ ok b
      → Run name b none (spend s r.value used)

abbrev Below : ℕ → List ℕ → Type 0
Below n = All (λ v. v < n)

Below-mono : (m n : ℕ) (vs : List ℕ) → m ≤ n → Below m vs → Below n vs
Below-mono m n [] h b = tt
Below-mono m n (v ∷ vs) h b = (omega arith, Below-mono m n vs h b.1)

abbrev pub In : ℕ → List ℕ → Type 0
In v [] = ⊥
In v (w ∷ ws) = (w ≡ v) ⊎ In v ws

In-spend : (v w : ℕ) (s : Sent) (used : List ℕ) → In v used → In v (spend s w used)
In-spend v w sent used i = inr i
In-spend v w not_sent used i = i
In-spend v w unknown used i = inr i

Below-spend : (n w : ℕ) (s : Sent) (used : List ℕ) → w < n → Below n used → Below n (spend s w used)
Below-spend n w sent used h b = (h, b)
Below-spend n w not_sent used h b = b
Below-spend n w unknown used h b = (h, b)

-- The line and the reservation in flight agree.
abbrev Fits : Line → Option Reservation → List ℕ → Type 0
Fits a none used = (a.out ≡ none) × (a.free ≡ true) × Below a.next used
Fits a (some r) used =
    (a.out ≡ some r.value)
    × (a.free ≡ false)
    × (r.ordered ≡ true)
    × (if r.fill
        then (a.gap ≡ some r.value) × Below a.next used
        else (a.gap ≡ none) × (a.next ≡ r.value + 1) × Below r.value used)

record Good (a : Line) (o : Option Reservation) (used : List ℕ) : Type 0 where
  fits : Fits a o used
  hole : (g : ℕ) → a.gap ≡ some g → (g < a.next) × In g used

take_number-inv :
    (name : Bytes) (a b : Line) (r : Reservation)
    → take_number name a ≡ ok (b, r)
    → (a.gap ≡ none)
      × (b ≡ record a { free = false; next = (a.next + 1) % u64; out = some a.next })
      × (r ≡ record { account = name; value = a.next; ordered = true; fill = false })
unfolding take_number
take_number-inv name a b r h = ground arith

take_gap-inv :
    (name : Bytes) (a b : Line) (r : Reservation)
    → take_gap name a ≡ ok (b, r)
    → (g : ℕ) × (a.gap ≡ some g)
      × (b ≡ record a { free = false; out = some g })
      × (r ≡ record { account = name; value = g; ordered = true; fill = true })
unfolding take_gap
take_gap-inv name a b r h = elim (Option-cases a.gap) [
  | inl e ↦ absurd (ground arith)
  | inr (g, e) ↦ (g, e, ground arith, ground arith)
]

resolve_line-inv :
    (r : Reservation) (s : Sent) (a b : Line)
    → resolve_line r s a ≡ ok b
    → b ≡ record (settle r s a) { out = none; free = true }
unfolding resolve_line
resolve_line-inv r s a b h = ground arith

abbrev resolution : Bytes → ℕ → Bool → Bool → Reservation
resolution name v o f = record { account = name; value = v; ordered = o; fill = f }

settled :
    (a : Line) (name : Bytes) (v : ℕ) (o f : Bool) (s : Sent) (used : List ℕ)
    → Good a (some (resolution name v o f)) used
    → Good
        (record (settle (resolution name v o f) s a) { out = none; free = true })
        none
        (spend s v used)
unfolding settle
settled a name v o true sent used g =
    let (hole, below) = g.fits.3 in
    record { fits = (refl, refl, ((g.hole v hole).0, below)); hole = λ x e. absurd (ground arith) }
settled a name v o true not_sent used g = record { fits = (refl, refl, g.fits.3.1); hole = g.hole }
settled a name v o true unknown used g =
    let (hole, below) = g.fits.3 in
    record {
      fits = (refl, refl, ((g.hole v hole).0, below));
      hole = λ x e. ((g.hole x e).0, inr (g.hole x e).1);
    }
settled a name v o false sent used g =
    let (closed, next, below) = g.fits.3 in
    record {
      fits = (refl, refl, (omega arith, Below-mono v a.next used (omega arith) below));
      hole = λ x e. absurd (ground arith);
    }
settled a name v o false not_sent used g =
    let (closed, next, below) = g.fits.3 in
    record { fits = (refl, refl, below); hole = λ x e. absurd (ground arith) }
settled a name v o false unknown used g =
    let (closed, next, below) = g.fits.3 in
    record {
      fits = (refl, refl, (omega arith, Below-mono v a.next used (omega arith) below));
      hole = λ x e. (ground arith, inl (ground arith));
    }

Run-Good :
    {name : Bytes} {a : Line} {o : Option Reservation} {used : List ℕ}
    → Run name a o used
    → Good a o used
Run-Good (start a f o g) = record { fits = (o, f, tt); hole = λ x e. absurd (ground arith) }
Run-Good {name} (reserved a b r used run small h) =
    let g = Run-Good run in
    let (none_open, made, given) = take_number-inv name a b r h in
    rw (made, given)
      (record {
        fits = (refl, refl, refl, (none_open, omega arith, g.fits.2));
        hole = λ x e. absurd (ground arith);
      })
Run-Good {name} (filling a b r used run h) =
    let g = Run-Good run in
    let (x, hole, made, given) = take_gap-inv name a b r h in
    rw (made, given) (record { fits = (refl, refl, refl, (hole, g.fits.2)); hole = g.hole })
Run-Good (resolved a b r s used run h) =
    rw (resolve_line-inv r s a b h)
      (settled a r.account r.value r.ordered r.fill s used (Run-Good run))

-- In the life of a line between two syncs that starts with the line free, nothing out and no gap,
-- and while the counter stays below 2 ^ 64: a number from `Reserve` is above every number that left,
-- or may have left, with a transaction in that life.
pub take_number_fresh :
    {name : Bytes} {a : Line} {used : List ℕ}
    → Run name a none used
    → {b : Line} {r : Reservation} → take_number name a ≡ ok (b, r)
    → All (λ v. v < r.value) used
take_number_fresh {name} {a} run {b} {r} h =
    let (_, _, given) = take_number-inv name a b r h in rw given (Run-Good run).fits.2

-- In such a life, a number from `ReserveGap` is one whose transaction may be out there: it only replaces.
pub take_gap-In :
    {name : Bytes} {a : Line} {used : List ℕ}
    → Run name a none used
    → {b : Line} {r : Reservation} → take_gap name a ≡ ok (b, r)
    → In r.value used
take_gap-In {name} {a} run {b} {r} h =
    let (g, hole, _, given) = take_gap-inv name a b r h in rw given ((Run-Good run).hole g hole).1

-- A reservation is resolved once: the second time it is stale.
pub resolve_twice :
    (r : Reservation) (s t : Sent) (c d : Counter)
    → r.ordered ≡ true
    → resolve r s c ≡ ok d
    → resolve r t d ≡ err stale
unfolding resolve resolve_line is_out
resolve_twice r s t c d o h = elim (Option-cases (lookup r.account c)) [
  | inl e ↦ absurd (ground arith)
  | inr (a, e) ↦
      let closed = record (settle r s a) { out = none; free = true } in
      let made : insert r.account closed c ≡ d = ground arith in
      rw (← made) (
        ground
          (arith, lookup-insert r.account r.account closed c, bytes_eq_iff r.account r.account))
]
