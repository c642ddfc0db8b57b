-- ===== src/Txseq/Flight.antt =====
-- backend/internal/txseq/counter.go: one number in flight for each account, whatever came before.
use stablecoin_settlement_en.Common.{
  ℕ, ◌+◌, ◌%◌, ◌≡◌, refl, ◌∙◌, inl, inr, Bool, true, false, Option, none, some, arith, u64,
  Option-cases, Bytes, Bytes-eq, lookup, ok, err,
}
use stablecoin_settlement_en.Txseq.{
  Reservation, Sent, sent, busy, context_done, Line, Counter, take_number, take_gap, settle, is_out,
  resolve_line, pass_gap, sync_line, sync, line_of, reserve, reserve_gap,
}

-- Any life of a line: from a free one, with or without a gap, through numbers given out, gaps
-- filled, reservations resolved, and syncs with the chain.
pub data Flow (name : Bytes) : Line → Option Reservation → Type 0 where
  start : (a : Line) → a.free ≡ true → a.out ≡ none → Flow name a none
  reserved :
      (a b : Line) (r : Reservation)
      → Flow name a none
      → take_number name a ≡ ok (b, r)
      → Flow name b (some r)
  filling :
      (a b : Line) (r : Reservation)
      → Flow name a none
      → take_gap name a ≡ ok (b, r)
      → Flow name b (some r)
  resolved :
      (a b : Line) (r : Reservation) (s : Sent)
      → Flow name a (some r)
      → resolve_line r s a ≡ ok b
      → Flow name b none
  synced :
      (a b : Line) (o : Option Reservation) (n : ℕ)
      → Flow name a o
      → sync_line n a ≡ ok b
      → Flow name b o

-- The semaphore is free exactly while nothing is out.
abbrev Agrees : Line → Option Reservation → Type 0
Agrees a none = (a.free ≡ true) × (a.out ≡ none)
Agrees a (some r) = (a.free ≡ false) × (a.out ≡ some r.value)

sync_line-frame : (a b : Line) (n : ℕ) → sync_line n a ≡ ok b → (b.free ≡ a.free) × (b.out ≡ a.out)
unfolding sync_line
sync_line-frame a b n h = elim (Option-cases a.out) [
  | inl e ↦ (ground arith, ground arith)
  | inr (v, e) ↦ absurd (ground arith)
]

synced-Agrees :
    (a b : Line) (o : Option Reservation)
    → (b.free ≡ a.free) × (b.out ≡ a.out)
    → Agrees a o
    → Agrees b o
synced-Agrees a b none (f, g) (p, q) = (f ∙ p, g ∙ q)
synced-Agrees a b (some r) (f, g) (p, q) = (f ∙ p, g ∙ q)

Flow-Agrees : {name : Bytes} {a : Line} {o : Option Reservation} → Flow name a o → Agrees a o
unfolding take_number take_gap resolve_line
Flow-Agrees (start a f o) = (f, o)
Flow-Agrees (reserved a b r flow h) = elim (Option-cases a.gap) [
  | inl e ↦ (ground arith, ground arith)
  | inr (g, e) ↦ absurd (ground arith)
]
Flow-Agrees (filling a b r flow h) = elim (Option-cases a.gap) [
  | inl e ↦ absurd (ground arith)
  | inr (g, e) ↦ (ground arith, ground arith)
]
Flow-Agrees (resolved a b r s flow h) = (ground arith, ground arith)
Flow-Agrees (synced a b o n flow h) =
    synced-Agrees a b o (sync_line-frame a b n h) (Flow-Agrees flow)

-- While a reservation of an account is in flight, in any life of its line: Reserve and ReserveGap on
-- the account wait until the caller's context ends, and Sync is refused as busy.
pub one_in_flight :
    {a : Line} {r : Reservation} (name : Bytes) (turn : Bool) (n : ℕ) (c : Counter)
    → Flow name a (some r)
    → lookup name c ≡ some a
    → ((reserve name turn c).1 ≡ err context_done)
      × ((reserve_gap name turn c).1 ≡ err context_done)
      × ((sync name n c).1 ≡ err busy)
unfolding reserve reserve_gap sync sync_line line_of
one_in_flight name turn n c flow e =
    let (taken, out) = Flow-Agrees flow in (ground arith, ground arith, ground arith)

-- A Sync that does not pass an open gap, by which the counter goes back to it: once the gap is
-- filled with a transaction that was sent, Reserve gives its number out again.
kept_gap_reissued :
    (name : Bytes) (v n : ℕ)
    → let hole : Line = record { free = true; next = n; out = none; gap = some v } in
      let at_hole : Line = record { free = true; next = v; out = none; gap = some v } in
      let filled : Line = record { free = false; next = v; out = some v; gap = some v } in
      let closed : Line = record { free = true; next = v; out = none; gap = none } in
      (r s : Reservation) × (again : Line) × (sync_line v hole ≡ ok at_hole)
      × (take_gap name at_hole ≡ ok (filled, r))
      × (resolve_line r sent filled ≡ ok closed)
      × (take_number name closed ≡ ok (again, s))
      × (s.value ≡ r.value)
unfolding sync_line pass_gap take_gap resolve_line settle is_out take_number
kept_gap_reissued name v n = (
  record { account = name; value = v; ordered = true; fill = true },
  record { account = name; value = v; ordered = true; fill = false },
  record { free = false; next = (v + 1) % u64; out = some v; gap = none },
  ground arith,
  refl,
  ground arith,
  refl,
  refl,
)
