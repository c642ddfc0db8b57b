-- ===== src/Idempotency/Answers.antt =====
-- backend/internal/idempotency: one execution and one answer per key, whatever runs in between.
use stablecoin_settlement_en.Common.{
  ℕ, suc, ◌≤◌, ◌<◌, ◌≡◌, refl, sym, ap, ◌∙◌, ◌≢◌, inl, inr, some, arith, ltb, ◌==◌, ==_iff,
  Bool-cases, Option-cases, Bytes, ◌=?◌, Bytes-eq, lookup, insert, delete, lookup-insert,
}
use stablecoin_settlement_en.Idempotency.{
  in_flight, completed, Response, Record, RecordKey, key_eq_iff, RecordKey-eq, Outcome, Policy,
  Store, fresh, replay, record_key, first_record, expired, take_over, claim_live, claim_new, claim,
  answer, complete,
}
use stablecoin_settlement_en.Idempotency.Serve.{reply, finish}
use stablecoin_settlement_en.Idempotency.Kept.{Run, done, claim-Kept, Run-keeps, Status-cases}

claim_live-writes :
    (rk : RecordKey) (fp : Bytes) (now : ℕ) (p : Policy) (cur : Record) (m n : Store) (r : Record)
    → claim_live rk fp now p cur m ≡ (n, r, fresh)
    → n ≡ insert rk r m
unfolding claim_live
claim_live-writes rk fp now p cur m n r h = elim (Bool-cases (cur.fingerprint =? fp)) [
  | inr other ↦ absurd (ground arith)
  | inl same ↦ elim (Status-cases cur.status) [
    | inl c ↦ absurd (ground arith)
    | inr c ↦ elim (Bool-cases (ltb now cur.lease_until)) [
      | inl busy ↦ absurd (ground arith)
      | inr over ↦
          let (a, b) : (n ≡ insert rk (take_over now p cur) m) × (take_over now p cur ≡ r) =
            ground arith in
          rw (← b) a
    ]
  ]
]

claim_stored :
    (scope key fp : Bytes) (now : ℕ) (p : Policy) (m n : Store) (r : Record)
    → claim scope key fp now p m ≡ (n, r, fresh)
    → lookup (record_key scope key) n ≡ some r
unfolding claim claim_live claim_new
claim_stored scope key fp now p m n r h =
    let rk = record_key scope key in
    let fst = first_record scope key fp now p in
    elim (Option-cases (lookup rk m)) [
      | inl gone ↦
          let (a, c) : (n ≡ insert rk fst m) × (r ≡ fst) = ground arith in
          ground (arith, lookup-insert rk rk fst m, key_eq_iff rk rk)
      | inr (cur, f) ↦ elim (Bool-cases (expired now cur)) [
        | inl over ↦
            let (a, c) : (n ≡ insert rk fst (delete rk m)) × (r ≡ fst) = ground arith in
            ground (arith, lookup-insert rk rk fst (delete rk m), key_eq_iff rk rk)
        | inr alive ↦
            let live : claim_live rk fp now p cur m ≡ (n, r, fresh) = ground arith in
            let written : n ≡ insert rk r m = claim_live-writes rk fp now p cur m n r live in
            ground (arith, lookup-insert rk rk r m, key_eq_iff rk rk)
      ]
    ]

finish_reply :
    (scope key : Bytes) (attempt : ℕ) (resp out : Response) (m n : Store) (r : Record)
    → lookup (record_key scope key) m ≡ some r
    → r.status ≡ in_flight
    → finish scope key attempt resp m ≡ (n, reply out)
    → (lookup (record_key scope key) n
        ≡ some (record r { status = completed; response = some resp }))
      × (out ≡ resp)
unfolding finish complete answer
finish_reply scope key attempt resp out m n r f s h =
    let rk = record_key scope key in
    let r' = record r { status = completed; response = some resp } in
    elim (Bool-cases (r.attempt == attempt)) [
      | inr other ↦ absurd (ground arith)
      | inl own ↦
          let (a, c) : (n ≡ insert rk r' m) × (out ≡ resp) = ground arith in
          (ground (arith, lookup-insert rk rk r' m, key_eq_iff rk rk), c)
    ]

-- After a claim of a key that runs its request, and whatever others do, no claim of the key before
-- the end of that lease and of the record runs a request again.
pub claim_exclusive :
    {bound : ℕ} (scope key fp : Bytes) (now : ℕ) (p : Policy) (m n o : Store) (r : Record)
    → claim scope key fp now p m ≡ (n, r, fresh)
    → bound ≤ r.expires_at
    → bound ≤ r.lease_until
    → Run bound n o
    → (fp' : Bytes) (later : ℕ) (p' : Policy) → later < bound
    → (claim scope key fp' later p' o).2 ≢ fresh
claim_exclusive {bound} scope key fp now p m n o r c e l run fp' later p' b =
    let (x, f, w, _, _) =
      Run-keeps (record_key scope key) r run (claim_stored scope key fp now p m n r c) (e, inr l) in
    let (u, made, not_fresh, _) = claim-Kept bound x scope key fp' later p' o w b f in
    λ h. not_fresh (sym (ap (λ (t : Store × Record × Outcome). t.2) made) ∙ h)

-- When the answer to an attempt under a live record in flight leaves the server, then, whatever
-- others do, every claim of the key with the same fingerprint before the record expires replays it.
pub answer_replayed :
    {bound : ℕ} (scope key : Bytes) (attempt : ℕ) (resp out : Response) (m n o : Store) (r : Record)
    → lookup (record_key scope key) m ≡ some r
    → r.status ≡ in_flight
    → bound ≤ r.expires_at
    → finish scope key attempt resp m ≡ (n, reply out)
    → Run bound n o
    → (now : ℕ) (p : Policy) → now < bound
    → (x : Record) × (claim scope key r.fingerprint now p o ≡ (o, x, replay))
      × (x.response ≡ some out)
answer_replayed {bound} scope key attempt resp out m n o r f s e fin run now p b =
    let (stored, same) = finish_reply scope key attempt resp out m n r f s fin in
    let rec' = record r { status = completed; response = some resp } in
    let (x, g, w, stays, _) = Run-keeps (record_key scope key) rec' run stored (e, inl refl) in
    let is : x ≡ rec' = stays refl in
    let (u, made, _, again) = claim-Kept bound x scope key r.fingerprint now p o w b g in
    let replayed_now : u ≡ replay =
      again (ap (λ (y : Record). y.fingerprint) (sym is)) (ap (λ (y : Record). y.status) is) in
    (
      x,
      made ∙ ap (λ (v : Outcome). (o, x, v)) replayed_now,
      ap (λ (y : Record). y.response) is ∙ ap some (sym same),
    )

claim_again :
    (scope key fp : Bytes) (now : ℕ) (p : Policy) (m : Store) (r : Record)
    → lookup (record_key scope key) m ≡ some r
    → r.expires_at ≤ now
    → claim scope key fp now p m ≡ claim_new scope key fp now p (delete (record_key scope key) m)
unfolding claim expired
claim_again scope key fp now p m r f e = ground arith

new-stored :
    (scope key fp : Bytes) (now : ℕ) (p : Policy) (m : Store)
    → (o : Store) × (claim_new scope key fp now p m ≡ (o, first_record scope key fp now p, fresh))
      × (lookup (record_key scope key) o ≡ some (first_record scope key fp now p))
unfolding claim_new
new-stored scope key fp now p m =
    let rk = record_key scope key in
    (
      insert rk (first_record scope key fp now p) m,
      refl,
      ground (arith, lookup-insert rk rk (first_record scope key fp now p) m, key_eq_iff rk rk),
    )

finish_own :
    (scope key : Bytes) (attempt : ℕ) (resp : Response) (m : Store) (r : Record)
    → lookup (record_key scope key) m ≡ some r
    → r.attempt ≡ attempt
    → (n : Store) × (finish scope key attempt resp m ≡ (n, reply resp))
unfolding finish complete
finish_own scope key attempt resp m r f a =
    (insert (record_key scope key) (answer resp r) m, ground (arith, ==_iff r.attempt attempt))

-- After a first claim whose record has expired at a later time, a claim then with any fingerprint
-- runs again, the first worker's answer is accepted for it and leaves the server, and a claim with
-- the new fingerprint replays that answer, when TTL is positive.
pub late_answer :
    (scope key fp fp' : Bytes) (now later : ℕ) (p : Policy) (m n : Store) (r : Record)
    (resp : Response)
    → claim scope key fp now p m ≡ (n, r, fresh)
    → r.attempt ≡ 1
    → r.expires_at ≤ later
    → 0 < p.ttl
    → (o : Store) × (s : Record) × (claim scope key fp' later p n ≡ (o, s, fresh))
      × (q : Store) × (finish scope key r.attempt resp o ≡ (q, reply resp))
      × (x : Record) × (claim scope key fp' later p q ≡ (q, x, replay))
      × (x.response ≡ some resp)
unfolding first_record
late_answer scope key fp fp' now later p m n r resp c a e t =
    let rk = record_key scope key in
    let s = first_record scope key fp' later p in
    let (o, made, there) = new-stored scope key fp' later p (delete rk n) in
    let again = claim_again scope key fp' later p n r (claim_stored scope key fp now p m n r c) e in
    let (q, fin) = finish_own scope key r.attempt resp o s there (sym a) in
    let (x, replays, holds) =
      answer_replayed {bound = suc later} scope key r.attempt resp resp o q q s there refl
        (omega arith) fin done later p (omega arith) in
    (o, s, again ∙ made, q, fin, x, replays, holds)
