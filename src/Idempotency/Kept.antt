-- ===== src/Idempotency/Kept.antt =====
-- backend/internal/idempotency/store.go: a live record that is answered or leased stays as it is.
use stablecoin_settlement_en.Common.{
  ℕ, ◌≤◌, ◌<◌, ◌≡◌, refl, ap, ◌∙◌, ◌≢◌, ◌⊎◌, inl, inr, true, false, some, [], ◌∷◌, arith, ltb, not,
  ==_iff, Bool-cases, Option-cases, Bytes, ◌=?◌, bytes_eq_iff, Bytes-eq, lookup, insert, delete,
  lookup-insert, lookup-delete, ok,
}
use stablecoin_settlement_en.Idempotency.{
  Status, in_flight, completed, Response, Record, RecordKey, key_eq_iff, RecordKey-eq, Outcome,
  Policy, Store, fresh, replay, still_running, mismatch, record_key, first_record, expired,
  take_over, claim_live, claim_new, claim, answer, complete, unexpired, sweep,
}

-- One call of the store by anyone, its clock below a bound.
pub data Step (bound : ℕ) : Store → Store → Type 0 where
  claimed :
      {m n : Store} (scope key fp : Bytes) (now : ℕ) (p : Policy) (r : Record) (o : Outcome)
      → now < bound
      → claim scope key fp now p m ≡ (n, r, o)
      → Step bound m n
  completed_by :
      {m n : Store} (scope key : Bytes) (attempt : ℕ) (resp : Response)
      → complete scope key attempt resp m ≡ ok n
      → Step bound m n
  swept : {m n : Store} (now c : ℕ) → now < bound → sweep now m ≡ (n, c) → Step bound m n

pub data Run (bound : ℕ) : Store → Store → Type 0 where
  done : {m : Store} → Run bound m m
  after : {m n o : Store} → Step bound m n → Run bound n o → Run bound m o

-- A record that is alive up to the bound, and that nobody can take over before it.
abbrev pub Kept : ℕ → Record → Type 0
Kept bound r = (bound ≤ r.expires_at) × ((r.status ≡ completed) ⊎ (bound ≤ r.lease_until))

expired_at : (now : ℕ) (r : Record) → expired now r ≡ true → r.expires_at ≤ now
unfolding expired
expired_at now r h = ground arith

unexpired_gone :
    (now : ℕ) (k : RecordKey) (r : Record) (m : Store)
    → expired now r ≡ true
    → unexpired now ((k, r) ∷ m) ≡ unexpired now m
unfolding unexpired
unexpired_gone now k r m h = rw h

unexpired_stays :
    (now : ℕ) (k : RecordKey) (r : Record) (m : Store)
    → expired now r ≡ false
    → unexpired now ((k, r) ∷ m) ≡ (k, r) ∷ unexpired now m
unfolding unexpired
unexpired_stays now k r m h = rw h

unexpired-keeps :
    (now : ℕ) (k : RecordKey) (r : Record) (m : Store)
    → lookup k m ≡ some r
    → now < r.expires_at
    → lookup k (unexpired now m) ≡ some r
unfolding lookup
unexpired-keeps now k r [] h e = absurd (ground arith)
unexpired-keeps now k r ((j, s) ∷ m) h e = elim (Bool-cases (expired now s)) [
  | inl gone ↦
      rw (unexpired_gone now j s m gone)
        (ground (arith, unexpired-keeps now k r m, expired_at now s))
  | inr stays ↦ rw (unexpired_stays now j s m stays) (ground (arith, unexpired-keeps now k r m))
]

swept-keeps :
    (now : ℕ) (k : RecordKey) (r : Record) (m : Store)
    → lookup k m ≡ some r
    → now < r.expires_at
    → lookup k (sweep now m).0 ≡ some r
unfolding sweep
swept-keeps now k r m e h = unexpired-keeps now k r m e h

pub Status-cases : (s : Status) → (s ≡ completed) ⊎ (s ≡ in_flight)
Status-cases in_flight = inr refl
Status-cases completed = inl refl

-- `Claim` on a key whose record is kept: the record as it is, and no fresh execution.
pub claim-Kept :
    (bound : ℕ) (r : Record) (scope key fp : Bytes) (now : ℕ) (p : Policy) (m : Store)
    → Kept bound r
    → now < bound
    → lookup (record_key scope key) m ≡ some r
    → (o : Outcome) × (claim scope key fp now p m ≡ (m, r, o))
      × (o ≢ fresh)
      × (fp ≡ r.fingerprint → r.status ≡ completed → o ≡ replay)
unfolding claim claim_live expired
claim-Kept bound r scope key fp now p m (e, w) b h = elim (Bool-cases (r.fingerprint =? fp)) [
  | inr miss ↦ (
    mismatch,
    ground arith,
    ground arith,
    λ f c. absurd (ground (arith, bytes_eq_iff r.fingerprint fp)),
  )
  | inl hit ↦ elim w [
    | inl c ↦ (replay, ground arith, ground arith, λ _ _. refl)
    | inr l ↦ elim (Status-cases r.status) [
      | inl c ↦ (replay, ground arith, ground arith, λ _ _. refl)
      | inr c ↦ (still_running, ground arith, ground arith, λ f d. absurd (ground arith))
    ]
  ]
]

-- What `Claim` writes: nothing, or a record under its key, with or without the expired one deleted.
claim-shape :
    (scope key fp : Bytes) (now : ℕ) (p : Policy) (m : Store)
    → let rk = record_key scope key in
      let n = (claim scope key fp now p m).0 in
      (n ≡ m) ⊎ ((x : Record) × ((n ≡ insert rk x m) ⊎ (n ≡ insert rk x (delete rk m))))
unfolding claim claim_live claim_new
claim-shape scope key fp now p m = elim (Option-cases (lookup (record_key scope key) m)) [
  | inl none_there ↦ inr (first_record scope key fp now p, inl (rw (claim, none_there, claim_new)))
  | inr (cur, f) ↦ elim (Bool-cases (expired now cur)) [
    | inl gone ↦ inr (first_record scope key fp now p, inr (rw (claim, f, gone, claim_new)))
    | inr alive ↦ elim (Bool-cases (not (cur.fingerprint =? fp))) [
      | inl other ↦ inl (rw (claim, f, alive, claim_live, other))
      | inr same ↦ elim (Status-cases cur.status) [
        | inl c ↦ inl (rw (claim, f, alive, claim_live, same, c))
        | inr c ↦ elim (Bool-cases (ltb now cur.lease_until)) [
          | inl busy ↦ inl (rw (claim, f, alive, claim_live, same, c, busy))
          | inr over ↦
              inr (take_over now p cur, inl (simp (claim, f, alive, claim_live, same, c, over)))
        ]
      ]
    ]
  ]
]

claim_elsewhere :
    (k : RecordKey) (r : Record) (scope key fp : Bytes) (now : ℕ) (p : Policy) (m : Store)
    → record_key scope key ≢ k
    → lookup k m ≡ some r
    → lookup k (claim scope key fp now p m).0 ≡ some r
claim_elsewhere k r scope key fp now p m d h =
    let rk = record_key scope key in
    elim (claim-shape scope key fp now p m) [
      | inl e ↦ rw e h
      | inr (x, inl e) ↦ rw e (ground (arith, lookup-insert rk k x m, key_eq_iff rk k))
      | inr (x, inr e) ↦ rw e (
          ground (arith, lookup-insert rk k x (delete rk m), lookup-delete rk k m, key_eq_iff rk k))
    ]

complete-cases :
    (scope key : Bytes) (attempt : ℕ) (resp : Response) (m n : Store)
    → complete scope key attempt resp m ≡ ok n
    → (x : Record) × (lookup (record_key scope key) m ≡ some x)
      × (x.attempt ≡ attempt)
      × (n ≡ insert (record_key scope key) (answer resp x) m)
unfolding complete
complete-cases scope key attempt resp m n c =
    elim (Option-cases (lookup (record_key scope key) m)) [
      | inl gone ↦ absurd (ground arith)
      | inr (x, f) ↦ (x, f, ground (arith, ==_iff x.attempt attempt), ground arith)
    ]

answer-Kept :
    (bound : ℕ) (resp : Response) (r : Record)
    → Kept bound r
    → Kept bound (answer resp r)
      × (r.status ≡ completed → answer resp r ≡ r)
      × ((answer resp r).fingerprint ≡ r.fingerprint)
unfolding answer
answer-Kept bound resp r (e, w) = elim (Status-cases r.status) [
  | inl c ↦ ground arith
  | inr c ↦ ground arith
]

-- A record that is alive and held stays so through every call, and a stored answer stays as it is.
pub Step-keeps :
    {bound : ℕ} {m n : Store} (k : RecordKey) (r : Record)
    → Step bound m n
    → lookup k m ≡ some r
    → Kept bound r
    → (x : Record) × (lookup k n ≡ some x)
      × Kept bound x
      × (r.status ≡ completed → x ≡ r)
      × (x.fingerprint ≡ r.fingerprint)
Step-keeps {bound} {m} {n} k r (swept now c b h) e w = (
  r,
  rw (ap (λ (x : Store × ℕ). x.0) h) at (swept-keeps now k r m e (omega arith)),
  w,
  λ _. refl,
  refl,
)
Step-keeps {bound} {m} {n} k r (claimed scope key fp now p s o b h) e w =
    elim (Bool-cases (record_key scope key =? k)) [
      | inl hit ↦
          let same : record_key scope key ≡ k = (key_eq_iff (record_key scope key) k).0 hit in
          let (u, made, _, _) = claim-Kept bound r scope key fp now p m w b (rw same e) in
          let stays : n ≡ m = ground arith in (r, rw stays e, w, λ _. refl, refl)
      | inr miss ↦ (
        r,
        let d =
              claim_elsewhere k r scope key fp now p m
                (ground (arith, key_eq_iff (record_key scope key) k)) e in
            rw h at d,
        w,
        λ _. refl,
        refl,
      )
    ]
Step-keeps {bound} {m} {n} k r (completed_by scope key attempt resp h) e w =
    let rk = record_key scope key in
    let (x, f, _, made) = complete-cases scope key attempt resp m n h in
    elim (Bool-cases (rk =? k)) [
      | inl hit ↦
          let same : rk ≡ k = (key_eq_iff rk k).0 hit in
          let one : x ≡ r = ground arith in
          let (kept, stored, fp) = answer-Kept bound resp r w in
          (
            answer resp r,
            rw made (ground (arith, lookup-insert rk k (answer resp x) m)),
            kept,
            stored,
            fp,
          )
      | inr miss ↦
          (r, rw made (ground (arith, lookup-insert rk k (answer resp x) m)), w, λ _. refl, refl)
    ]

pub Run-keeps :
    {bound : ℕ} {m n : Store} (k : RecordKey) (r : Record)
    → Run bound m n
    → lookup k m ≡ some r
    → Kept bound r
    → (x : Record) × (lookup k n ≡ some x)
      × Kept bound x
      × (r.status ≡ completed → x ≡ r)
      × (x.fingerprint ≡ r.fingerprint)
Run-keeps k r done e w = (r, e, w, λ _. refl, refl)
Run-keeps k r (after s run) e w =
    let (x, f, v, stays, fp) = Step-keeps k r s e w in
    let (y, g, u, stay, fp') = Run-keeps k x run f v in
    (y, g, u, λ c. stay (ground arith) ∙ stays c, fp' ∙ fp)
