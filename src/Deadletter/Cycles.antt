-- ===== src/Deadletter/Cycles.antt =====
-- backend/internal/dlq/memory.go: how often a job was parked.
use stablecoin_settlement_en.Common.{
  ℕ, ◌+◌, ◌%◌, ◌≡◌, refl, ap, ◌∙◌, inl, inr, Bool, true, false, ◌&&◌, none, some, arith, u64,
  if◌then◌else◌, Bool-cases, Option-cases, Bytes, ◌=?◌, bytes_eq_iff, Bytes-eq, lookup, insert,
  lookup-insert, ok,
}
use stablecoin_settlement_en.Deadletter.{
  empty, Status, Record, Store, is_parked, parked_record, park_valid, park, resolved, resolve,
}
use stablecoin_settlement_en.Deadletter.Books.{resolve-inv}

-- The life of one id in the store, with how often it was parked.
pub data Life (id : Bytes) : ℕ → Store → Type 0 where
  new : Life id 0 empty
  parked_once :
      {n : ℕ} {s t : Store} (r : Record) (now : ℕ) (b : Bool)
      → Life id n s
      → park r now s ≡ ok (t, b)
      → Life id (if b && (r.job.id =? id) then n + 1 else n) t
  handled :
      {n : ℕ} {s t : Store} (i : Bytes) (to : Status) (by : Bytes) (now : ℕ) (r : Record)
      → Life id n s
      → resolve i to by now s ≡ ok (t, r)
      → Life id n t

-- `Cycles`, zero where there is no record.
abbrev pub cycles_at : Bytes → Store → ℕ
cycles_at id s = elim (lookup id s.records) [ none ↦ 0 | some r ↦ r.cycles ]

written_cycles :
    (id i : Bytes) (y : Record) (s t : Store)
    → t.records ≡ insert i y s.records
    → cycles_at id t ≡ (if i =? id then y.cycles else cycles_at id s)
written_cycles id i y s t h =
    rw h (ground (arith, lookup-insert i id y s.records, bytes_eq_iff i id))

counted :
    (b : Bool) (n c d : ℕ)
    → c ≡ n % u64
    → d ≡ (c + 1) % u64
    → (if b then d else c) ≡ (if b then n + 1 else n) % u64
counted true n c d h e = omega (arith, h, e)
counted false n c d h e = h

counted_at :
    (id i : Bytes) (n d : ℕ) (s : Store)
    → cycles_at id s ≡ n % u64
    → d ≡ (cycles_at i s + 1) % u64
    → (if i =? id then d else cycles_at id s) ≡ (if i =? id then n + 1 else n) % u64
counted_at id i n d s h e = elim (Bool-cases (i =? id)) [
  | inr miss ↦ rw miss h
  | inl hit ↦
      let same : i ≡ id = (bytes_eq_iff i id).0 hit in
      rw hit (
        e
        ∙ ap (λ j. (cycles_at j s + 1) % u64) same
        ∙ counted true n (cycles_at id s) ((cycles_at id s + 1) % u64) h refl)
]

park-cycles :
    (id : Bytes) (n : ℕ) (r : Record) (now : ℕ) (b : Bool) (s t : Store)
    → park r now s ≡ ok (t, b)
    → cycles_at id s ≡ n % u64
    → cycles_at id t ≡ (if b && (r.job.id =? id) then n + 1 else n) % u64
unfolding park park_valid parked_record
park-cycles id n r now b s t h c = elim (Option-cases (lookup r.job.id s.records)) [
  | inl gone ↦
      let y : Record = parked_record r now 1 in
      let made : t.records ≡ insert r.job.id y s.records = ground arith in
      let on : b ≡ true = ground arith in
      rw on (
        written_cycles id r.job.id y s t made
        ∙ counted_at id r.job.id n 1 s c (rw (cycles_at, gone) refl))
  | inr (x, f) ↦ elim (Bool-cases (is_parked x.status)) [
    | inl p ↦ let (a, d) : (t ≡ s) × (b ≡ false) = ground arith in rw (a, d) c
    | inr p ↦
        let y : Record = parked_record r now ((x.cycles + 1) % u64) in
        let made : t.records ≡ insert r.job.id y s.records = ground arith in
        let on : b ≡ true = ground arith in
        rw on (
          written_cycles id r.job.id y s t made
          ∙ counted_at id r.job.id n ((x.cycles + 1) % u64) s c (rw (cycles_at, f) refl))
  ]
]

-- In a store that parking and resolving built, `Cycles` of a job's record, zero where there is none,
-- is how often a Park of it was applied, modulo 2^64.
pub cycles_counted : {id : Bytes} {n : ℕ} {s : Store} → Life id n s → cycles_at id s ≡ n % u64
unfolding resolved empty lookup
cycles_counted new = refl
cycles_counted {id} (parked_once {n} {s} {t} r now b l h) =
    park-cycles id n r now b s t h (cycles_counted l)
cycles_counted {id} (handled {n} {s} {t} i to by now r l h) =
    let (x, f, _, _, _, made) = resolve-inv i to by now s t r h in
    let before = cycles_counted l in
    rw made (ground (arith, lookup-insert i id (resolved x to by now) s.records, bytes_eq_iff i id))
