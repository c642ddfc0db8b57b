-- ===== src/Queue/Laws.antt =====
-- backend/internal/queue/memory.go: what the queue keeps between calls.
use stablecoin_settlement_en.Common.{
  ℕ, ◌+◌, ◌-◌, ◌≡◌, refl, ap, ◌∙◌, inl, inr, Bool, true, Option, none, some, List, [], ◌∷◌, ◌++◌,
  arith, if◌then◌else◌, Option-cases, Bytes, ◌=?◌, bytes_eq_iff, Bytes-eq, Dict, lookup, insert,
  delete, lookup-insert, lookup-delete, Result, ok, err,
}
use stablecoin_settlement_en.Queue.{
  Job, Slot, Queue, Delivery, Error, empty, receipt, enqueue, visible, lease_slot, delivery,
  first_visible, take_slot, lease, current, remove_first, ack, nack,
}

-- How often an id stands in the order.
unfoldable pub times : Bytes → List Bytes → ℕ
times a [] = 0
times a (b ∷ bs) = (if b =? a then 1 else 0) + times a bs

abbrev present {ℓ} : {A : Type ℓ} → Option A → ℕ
present none = 0
present (some a) = 1

-- Each job lies under its id, and stands once in the order.
pub record Sound (q : Queue) : Type 0 where
  pub under_id : (id : Bytes) (s : Slot) → lookup id q.jobs ≡ some s → s.job.id ≡ id
  pub ordered : (id : Bytes) → times id q.order ≡ present (lookup id q.jobs)

times-append : (a : Bytes) (xs ys : List Bytes) → times a (xs ++ ys) ≡ times a xs + times a ys
unfolding times
times-append a [] ys = omega arith
times-append a (x ∷ xs) ys = omega (arith, times-append a xs ys)

times-remove_first :
    (a b : Bytes) (xs : List Bytes)
    → times b (remove_first a xs) ≡ (if a =? b then times b xs - 1 else times b xs)
unfolding times remove_first
times-remove_first a b [] = ground arith
times-remove_first a b (x ∷ xs) =
    ground (arith, bytes_eq_iff x a, bytes_eq_iff x b, bytes_eq_iff a b, times-remove_first a b xs)

pub empty-Sound : Sound empty
unfolding empty times lookup
empty-Sound = record { under_id = λ id s e. absurd (ground arith); ordered = λ id. refl }

-- A new job at the end of the order.
added_Sound :
    (id : Bytes) (s : Slot) (q : Queue)
    → Sound q
    → lookup id q.jobs ≡ none
    → s.job.id ≡ id
    → Sound (record { jobs = insert id s q.jobs; order = q.order ++ id ∷ [] })
unfolding times
added_Sound id s q w e n = record {
  under_id =
      λ j x h. ground (arith, lookup-insert id j s q.jobs, bytes_eq_iff id j, w.under_id j x);
  ordered = λ j. ground (
    arith,
    lookup-insert id j s q.jobs,
    bytes_eq_iff id j,
    times-append j q.order (id ∷ []),
    w.ordered j,
  );
}

-- A slot that changes in place.
changed_Sound :
    (id : Bytes) (s t : Slot) (q : Queue)
    → Sound q
    → lookup id q.jobs ≡ some s
    → t.job.id ≡ id
    → Sound (record q { jobs = insert id t q.jobs })
changed_Sound id s t q w e n = record {
  under_id =
      λ j x h. ground (arith, lookup-insert id j t q.jobs, bytes_eq_iff id j, w.under_id j x);
  ordered = λ j. ground (arith, lookup-insert id j t q.jobs, bytes_eq_iff id j, w.ordered j);
}

removed_Sound :
    (id : Bytes) (s : Slot) (q : Queue)
    → Sound q
    → lookup id q.jobs ≡ some s
    → Sound (record { jobs = delete id q.jobs; order = remove_first id q.order })
removed_Sound id s q w e = record {
  under_id = λ j x h. ground (arith, lookup-delete id j q.jobs, w.under_id j x);
  ordered = λ j. ground (
    arith,
    lookup-delete id j q.jobs,
    bytes_eq_iff id j,
    times-remove_first id j q.order,
    w.ordered j,
  );
}

abbrev slot_of : Job → ℕ → Slot
slot_of job now = record { job = job; attempt = 0; not_before = now; lease_until = 0 }

pub enqueue-Sound :
    (job : Job) (now : ℕ) (q r : Queue) (b : Bool)
    → Sound q
    → enqueue job now q ≡ ok (r, b)
    → Sound r
unfolding enqueue
enqueue-Sound job now q r b w h = elim (Option-cases (lookup job.id q.jobs)) [
  | inr (s, e) ↦ let same : q ≡ r = ground arith in rw (← same) w
  | inl e ↦
      let made : record {
        jobs = insert job.id (slot_of job now) q.jobs;
        order = q.order ++ job.id ∷ [];
      }
          ≡ r =
        ground arith in
      rw (← made) (added_Sound job.id (slot_of job now) q w e refl)
]

-- What the loop of `Lease` found is a visible job of the queue.
pub first_visible-inv :
    (now : ℕ) (jobs : Dict Bytes Slot) (ids : List Bytes) (id : Bytes) (s : Slot)
    → first_visible now jobs ids ≡ ok (some (id, s))
    → (lookup id jobs ≡ some s) × (visible now s ≡ true)
unfolding first_visible
first_visible-inv now jobs [] id s h = absurd (ground arith)
first_visible-inv now jobs (i ∷ ids) id s h = elim (Option-cases (lookup i jobs)) [
  | inl e ↦ absurd (ground arith)
  | inr (t, e) ↦ ground (arith, first_visible-inv now jobs ids id s)
]

pub lease-inv :
    (now n : ℕ) (q r : Queue) (d : Delivery)
    → lease now n q ≡ ok (r, some d)
    → (id : Bytes) × (s : Slot) × (lookup id q.jobs ≡ some s)
      × (visible now s ≡ true)
      × (r ≡ record q { jobs = insert id (lease_slot now n s) q.jobs })
      × (d ≡ delivery id (lease_slot now n s))
unfolding lease
lease-inv now n q r d h = go (first_visible now q.jobs q.order) refl
  where
    go :
        (f : Result Error (Option (Bytes × Slot)))
        → first_visible now q.jobs q.order ≡ f
        → (id : Bytes) × (s : Slot) × (lookup id q.jobs ≡ some s)
          × (visible now s ≡ true)
          × (r ≡ record q { jobs = insert id (lease_slot now n s) q.jobs })
          × (d ≡ delivery id (lease_slot now n s))
    go (err x) e = absurd (ground arith)
    go (ok none) e = absurd (unfold take_slot in ground arith)
    go (ok (some (id, s))) e =
        let (f, v) = first_visible-inv now q.jobs q.order id s e in
        (id, s, f, v, unfold take_slot in ground arith, unfold take_slot in ground arith)

lease_slot-job : (now n : ℕ) (s : Slot) → (lease_slot now n s).job ≡ s.job
unfolding lease_slot
lease_slot-job now n s = refl

pub lease-Sound :
    (now n : ℕ) (q r : Queue) (d : Delivery) → Sound q → lease now n q ≡ ok (r, some d) → Sound r
lease-Sound now n q r d w h =
    let (id, s, e, _, made, _) = lease-inv now n q r d h in
    rw made (
      changed_Sound id s (lease_slot now n s) q w e
        (ap (λ (j : Job). j.id) (lease_slot-job now n s) ∙ w.under_id id s e))

pub current-inv :
    (d : Delivery) (q : Queue) (s : Slot)
    → current d q ≡ ok s
    → (lookup d.job.id q.jobs ≡ some s) × (d.receipt ≡ receipt s.job.id s.attempt)
unfolding current
current-inv d q s h = elim (Option-cases (lookup d.job.id q.jobs)) [
  | inl e ↦ absurd (ground arith)
  | inr (t, e) ↦ ground (arith, bytes_eq_iff d.receipt (receipt t.job.id t.attempt))
]

pub ack-inv :
    (d : Delivery) (q r : Queue)
    → ack d q ≡ ok r
    → (s : Slot) × (lookup d.job.id q.jobs ≡ some s)
      × (d.receipt ≡ receipt s.job.id s.attempt)
      × (r ≡ record { jobs = delete s.job.id q.jobs; order = remove_first s.job.id q.order })
unfolding ack
ack-inv d q r h = go (current d q) refl
  where
    go :
        (c : Result Error Slot)
        → current d q ≡ c
        → (s : Slot) × (lookup d.job.id q.jobs ≡ some s)
          × (d.receipt ≡ receipt s.job.id s.attempt)
          × (r ≡ record { jobs = delete s.job.id q.jobs; order = remove_first s.job.id q.order })
    go (err x) e = absurd (ground arith)
    go (ok s) e = let (f, p) = current-inv d q s e in (s, f, p, ground arith)

pub ack-Sound : (d : Delivery) (q r : Queue) → Sound q → ack d q ≡ ok r → Sound r
ack-Sound d q r w h =
    let (s, e, _, made) = ack-inv d q r h in
    rw (made, w.under_id d.job.id s e) (removed_Sound d.job.id s q w e)

pub nack-inv :
    (d : Delivery) (after now : ℕ) (q r : Queue)
    → nack d after now q ≡ ok r
    → (s : Slot) × (lookup d.job.id q.jobs ≡ some s)
      × (d.receipt ≡ receipt s.job.id s.attempt)
      × (r ≡ record q {
        jobs = insert d.job.id (record s { lease_until = 0; not_before = now + after }) q.jobs;
      })
unfolding nack
nack-inv d after now q r h = go (current d q) refl
  where
    go :
        (c : Result Error Slot)
        → current d q ≡ c
        → (s : Slot) × (lookup d.job.id q.jobs ≡ some s)
          × (d.receipt ≡ receipt s.job.id s.attempt)
          × (r ≡ record q {
            jobs = insert d.job.id (record s { lease_until = 0; not_before = now + after }) q.jobs;
          })
    go (err x) e = absurd (ground arith)
    go (ok s) e = let (f, p) = current-inv d q s e in (s, f, p, ground arith)

pub nack-Sound :
    (d : Delivery) (after now : ℕ) (q r : Queue) → Sound q → nack d after now q ≡ ok r → Sound r
nack-Sound d after now q r w h =
    let (s, e, _, made) = nack-inv d after now q r h in
    rw made (changed_Sound d.job.id s _ q w e (w.under_id d.job.id s e))
