-- ===== src/Deadletter/Books.antt =====
-- backend/internal/dlq: what parking, redriving and dropping keep.
use stablecoin_settlement_en.Common.{
  ℕ, ◌≡◌, refl, ap, ◌∙◌, ◌≢◌, inl, inr, Bool, true, false, some, arith, Bool-cases, Option-cases,
  Bytes, bytes_eq_iff, Bytes-eq, lookup, insert, lookup-insert, Result, ok, err,
}
use stablecoin_settlement_en.Queue
use stablecoin_settlement_en.Queue.{Queue, Job, Slot}
use stablecoin_settlement_en.Deadletter.{
  Status, parked, redriven, Record, Store, Error, from_queue, is_parked, get, resolved, resolvable,
  resolve, requeue, redrive,
}

-- What a successful `Resolve` found and wrote.
pub resolve-inv :
    (id : Bytes) (to : Status) (by : Bytes) (now : ℕ) (s t : Store) (r : Record)
    → resolve id to by now s ≡ ok (t, r)
    → (x : Record) × (lookup id s.records ≡ some x)
      × (is_parked x.status ≡ true)
      × (resolvable to ≡ true)
      × (r ≡ resolved x to by now)
      × (t ≡ record s { records = insert id (resolved x to by now) s.records })
unfolding resolve get
resolve-inv id to by now s t r h = elim (Option-cases (lookup id s.records)) [
  | inl gone ↦ absurd (ground arith)
  | inr (x, f) ↦ (x, f, ground arith, ground arith, ground arith, ground arith)
]

resolved-closed :
    (r : Record) (to : Status) (by : Bytes) (now : ℕ)
    → resolvable to ≡ true
    → is_parked (resolved r to by now).status ≡ false
unfolding resolved resolvable is_parked
resolved-closed r redriven by now h = refl
resolved-closed r Status.dropped by now h = refl
resolved-closed r parked by now h = absurd (ground arith)
resolved-closed r (Status.odd k) by now h = absurd (ground arith)

-- Of two calls that resolve one parking, whoever makes them, only the first succeeds.
pub resolve_once :
    (id : Bytes) (to : Status) (by : Bytes) (now : ℕ) (s t : Store) (r : Record)
    → resolve id to by now s ≡ ok (t, r)
    → (to' : Status) (by' : Bytes) (now' : ℕ) (u : Store) (x : Record)
    → resolve id to' by' now' t ≢ ok (u, x)
resolve_once id to by now s t r h to' by' now' u x h' =
    let (a, _, _, may, _, made) = resolve-inv id to by now s t r h in
    let (b, f, waiting, _, _, _) = resolve-inv id to' by' now' t u x h' in
    let shut = resolved-closed a to by now may in
    let there : lookup id t.records ≡ some (resolved a to by now) =
      rw made (
        ground (arith, lookup-insert id id (resolved a to by now) s.records, bytes_eq_iff id id)) in
    let same : b ≡ resolved a to by now = ground arith in
    absurd (ground (arith, ap (λ (y : Record). is_parked y.status) same))

requeue-inv :
    (id : Bytes) (now : ℕ) (s : Store) (q r : Queue)
    → requeue id now s q ≡ ok r
    → (x : Record) × (b : Bool) × (lookup id s.records ≡ some x)
      × (is_parked x.status ≡ true)
      × (Queue.enqueue x.job now q ≡ ok (r, b))
unfolding requeue get
requeue-inv id now s q r h = elim (Option-cases (lookup id s.records)) [
  | inl gone ↦ absurd (ground arith)
  | inr (x, f) ↦ elim (Bool-cases (is_parked x.status)) [
    | inr shut ↦ absurd (ground arith)
    | inl waiting ↦
        let on : elim (Queue.enqueue x.job now q) as (λ _. Result Error Queue) [
          | err e ↦ err (from_queue e)
          | ok (q', b) ↦ ok q'
        ]
            ≡ ok r =
          ground arith in
        let (b, e) = enqueued (Queue.enqueue x.job now q) on in (x, b, f, waiting, e)
  ]
]
  where
    enqueued :
        (a : Result Queue.Error (Queue × Bool))
        → elim a as (λ _. Result Error Queue) [ err e ↦ err (from_queue e) | ok (q', b) ↦ ok q' ]
          ≡ ok r
        → (b : Bool) × (a ≡ ok (r, b))
    enqueued (err e) g = absurd (ground arith)
    enqueued (ok (q', b)) g = (b, ground arith)

enqueued_there :
    (job : Job) (now : ℕ) (q r : Queue) (b : Bool)
    → Queue.enqueue job now q ≡ ok (r, b)
    → (x : Slot) × (lookup job.id r.jobs ≡ some x)
unfolding Queue.enqueue
enqueued_there job now q r b h = elim (Option-cases (lookup job.id q.jobs)) [
  | inr (x, f) ↦ let same : q ≡ r = ground arith in (x, rw (← same) f)
  | inl gone ↦
      let slot : Slot = record { job = job; attempt = 0; not_before = now; lease_until = 0 } in
      let made : r.jobs ≡ insert job.id slot q.jobs = ground arith in
      (
        slot,
        rw made
            (ground (arith, lookup-insert job.id job.id slot q.jobs, bytes_eq_iff job.id job.id)),
      )
]

enqueue_there :
    (job : Job) (now : ℕ) (q : Queue) (x : Slot)
    → Queue.validate job ≡ ok tt
    → lookup job.id q.jobs ≡ some x
    → Queue.enqueue job now q ≡ ok (q, false)
unfolding Queue.enqueue
enqueue_there job now q x v f = ground arith

enqueue-validated :
    (job : Job) (now : ℕ) (q r : Queue) (b : Bool)
    → Queue.enqueue job now q ≡ ok (r, b)
    → Queue.validate job ≡ ok tt
unfolding Queue.enqueue
enqueue-validated job now q r b h = ground arith

redrive-inv :
    (id by : Bytes) (now : ℕ) (s : Store) (q r : Queue) (t : Store × Record)
    → redrive id by now s q ≡ (r, ok t)
    → (requeue id now s q ≡ ok r) × (resolve id redriven by now s ≡ ok t)
unfolding redrive
redrive-inv id by now s q r t h = from_answer (requeue id now s q) h
  where
    from_answer :
        (a : Result Error Queue)
        → elim a as (λ _. Queue × Result Error (Store × Record)) [
          | err e ↦ (q, err e)
          | ok q' ↦ (q', resolve id redriven by now s)
        ]
          ≡ (r, ok t)
        → (a ≡ ok r) × (resolve id redriven by now s ≡ ok t)
    from_answer (err e) g = absurd (ground arith)
    from_answer (ok q') g = (ground arith, ground arith)

resolved_fields :
    (x : Record) (by : Bytes) (now : ℕ)
    → ((resolved x redriven by now).job ≡ x.job)
      × ((resolved x redriven by now).status ≡ redriven)
      × ((resolved x redriven by now).resolved_by ≡ by)
unfolding resolved
resolved_fields x by now = (refl, refl, refl)

-- A redrive that succeeded left a job under the record's job id in the queue, and stored the
-- record as redriven by the one who asked for it.
pub redrive-there :
    (id by : Bytes) (now : ℕ) (s t : Store) (q r : Queue) (x : Record)
    → redrive id by now s q ≡ (r, ok (t, x))
    → ((y : Slot) × (lookup x.job.id r.jobs ≡ some y))
      × (lookup id t.records ≡ some x)
      × (x.status ≡ redriven)
      × (x.resolved_by ≡ by)
redrive-there id by now s t q r x h =
    let (queued, marked) = redrive-inv id by now s q r (t, x) h in
    let (a, b, f, _, put) = requeue-inv id now s q r queued in
    let (c, g, _, _, is, made) = resolve-inv id redriven by now s t x marked in
    let same : c ≡ a = ground arith in
    let (job, status, who) = resolved_fields c by now in
    let (y, there) = enqueued_there a.job now q r b put in
    let jobs : x.job.id ≡ a.job.id =
      ap (λ (z : Record). z.job.id) is
      ∙ ap (λ (z : Job). z.id) job
      ∙ ap (λ (z : Record). z.job.id) same in
    (
      (y, ap (λ i. lookup i r.jobs) jobs ∙ there),
      rw (made, is)
          (ground (
            arith,
            lookup-insert id id (resolved c redriven by now) s.records,
            bytes_eq_iff id id,
          )),
      ap (λ (z : Record). z.status) is ∙ status,
      ap (λ (z : Record). z.resolved_by) is ∙ who,
    )

requeue_there :
    (id : Bytes) (now : ℕ) (s : Store) (q : Queue) (x : Record) (b : Bool)
    → lookup id s.records ≡ some x
    → is_parked x.status ≡ true
    → Queue.enqueue x.job now q ≡ ok (q, b)
    → requeue id now s q ≡ ok q
unfolding requeue get
requeue_there id now s q x b f p e = ground arith

-- A redrive that stopped after the queue's half can be made again: the queue stays as it is, and
-- the record is marked then.
pub redrive_again :
    (id by : Bytes) (now later : ℕ) (s : Store) (q r : Queue)
    → requeue id now s q ≡ ok r
    → redrive id by later s r ≡ (r, resolve id redriven by later s)
unfolding redrive
redrive_again id by now later s q r h =
    let (x, b, f, p, put) = requeue-inv id now s q r h in
    let (y, there) = enqueued_there x.job now q r b put in
    let again = enqueue_there x.job later r y (enqueue-validated x.job now q r b put) there in
    rw (redrive, requeue_there id later s r x false f p again)
