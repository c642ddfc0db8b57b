-- ===== src/Queue/Lease.antt =====
-- backend/internal/queue/memory.go: leases, receipts, and that no job is lost.
use stablecoin_settlement_en.Common.{
  ℕ, ◌+◌, ◌%◌, ◌<◌, ◌≡◌, refl, sym, ap, ◌∙◌, ◌≢◌, ◌⊎◌, inl, inr, Bool, true, false, Option, none,
  some, List, [], ◌∷◌, ◌++◌, arith, u64, Bool-cases, Option-cases, Bytes, ◌=?◌, bytes_eq_iff,
  Bytes-eq, Dict, lookup, insert, lookup-insert, lookup-delete, ok, err,
}
use mathlib.Core.List.{◌++◌}
use stablecoin_settlement_en.Common.Encode.{decimal-injective}
use stablecoin_settlement_en.Queue.{
  Job, Slot, Queue, Delivery, stale_receipt, receipt, enqueue, visible, lease_slot, delivery,
  first_visible, take_slot, lease, current, ack, nack,
}
use stablecoin_settlement_en.Queue.Laws.{
  Sound, times, lease-inv, current-inv, ack-inv, nack-inv, enqueue-Sound, lease-Sound, ack-Sound,
  nack-Sound,
}

append_cancel : (xs ys zs : Bytes) → xs ++ ys ≡ xs ++ zs → ys ≡ zs
append_cancel [] ys zs h = h
append_cancel (x ∷ xs) ys zs h = append_cancel xs ys zs (ground arith)

receipt-injective : (id : Bytes) (m n : ℕ) → receipt id m ≡ receipt id n → m ≡ n
unfolding receipt
receipt-injective id m n h = decimal-injective m n (ground (arith, append_cancel id _ _ h))

-- The loop of `Lease` meets no job that is gone, and stops at a visible one if there is one.
first_visible_total :
    (now : ℕ) (jobs : Dict Bytes Slot) (ids : List Bytes)
    → ((id : Bytes) → 0 < times id ids → (s : Slot) × (lookup id jobs ≡ some s))
    → (o : Option (Bytes × Slot)) × (first_visible now jobs ids ≡ ok o)
      × ((id : Bytes) (s : Slot)
          → 0 < times id ids
          → lookup id jobs ≡ some s
          → visible now s ≡ true
          → o ≢ none)
unfolding first_visible times
first_visible_total now jobs [] there = (none, refl, λ id s h. absurd (omega arith))
first_visible_total now jobs (i ∷ ids) there =
    let (s, e) = there i (ground (arith, bytes_eq_iff i i)) in
    let (o, f, hit) = first_visible_total now jobs ids (λ id h. there id (ground arith)) in
    elim (Bool-cases (visible now s)) [
      | inl v ↦ (some (i, s), ground arith, λ id x p q r. λ c. cc)
      | inr v ↦ (o, ground arith, λ id x p q r. ground (arith, hit id x, bytes_eq_iff i id))
    ]

ordered_there :
    (q : Queue)
    → Sound q
    → (id : Bytes) → 0 < times id q.order
    → (s : Slot) × (lookup id q.jobs ≡ some s)
ordered_there q w id h = elim (Option-cases (lookup id q.jobs)) [
  | inl e ↦ absurd (ground (arith, w.ordered id))
  | inr p ↦ p
]

-- `Lease` always answers, and it hands out a job whenever one is visible.
pub lease_total :
    (now n : ℕ) (q : Queue)
    → Sound q
    → (r : Queue) × (o : Option Delivery) × (lease now n q ≡ ok (r, o))
      × ((id : Bytes) (s : Slot) → lookup id q.jobs ≡ some s → visible now s ≡ true → o ≢ none)
unfolding lease take_slot
lease_total now n q w =
    let (o, f, hit) = first_visible_total now q.jobs q.order (ordered_there q w) in answer o f hit
  where
    answer :
        (o : Option (Bytes × Slot))
        → first_visible now q.jobs q.order ≡ ok o
        → ((id : Bytes) (s : Slot)
            → 0 < times id q.order
            → lookup id q.jobs ≡ some s
            → visible now s ≡ true
            → o ≢ none)
        → (r : Queue) × (d : Option Delivery) × (lease now n q ≡ ok (r, d))
          × ((id : Bytes) (s : Slot) → lookup id q.jobs ≡ some s → visible now s ≡ true → d ≢ none)
    answer none f hit = (
      q,
      none,
      ground arith,
      λ id s e v. absurd (hit id s (ground (arith, w.ordered id)) e v refl),
    )
    answer (some (i, s)) f hit = (
      record q { jobs = insert i (lease_slot now n s) q.jobs },
      some (delivery i (lease_slot now n s)),
      ground arith,
      λ id x e v. λ c. cc,
    )

pub delivery-id : (i : Bytes) (s : Slot) (d : Delivery) → d ≡ delivery i s → d.job.id ≡ s.job.id
unfolding delivery
delivery-id i s d h = ap (λ (x : Delivery). x.job.id) h

pub leased-id : (now n : ℕ) (s : Slot) → (lease_slot now n s).job.id ≡ s.job.id
unfolding lease_slot
leased-id now n s = refl

leased-attempt : (now n : ℕ) (s : Slot) → (lease_slot now n s).attempt ≡ (s.attempt + 1) % u64
unfolding lease_slot
leased-attempt now n s = refl

stale :
    (d : Delivery) (r : Queue) (after at : ℕ) (s : Slot) (k : ℕ)
    → lookup d.job.id r.jobs ≡ some s
    → d.receipt ≡ receipt s.job.id k
    → s.attempt ≢ k
    → (ack d r ≡ err stale_receipt) × (nack d after at r ≡ err stale_receipt)
unfolding ack nack current
stale d r after at s k e p n =
    let differs : d.receipt =? receipt s.job.id s.attempt ≡ false =
      elim (Bool-cases (d.receipt =? receipt s.job.id s.attempt)) [
        | inr no_match ↦ no_match
        | inl hit ↦ absurd (
            n (
              sym (
                receipt-injective s.job.id k s.attempt
                  (sym p ∙ (bytes_eq_iff d.receipt (receipt s.job.id s.attempt)).0 hit))))
      ] in
    (ground arith, ground arith)

-- On a sound queue, when a job is leased again, the delivery that was current just before is stale: an
-- ack and a nack of it both fail.
pub lease_revokes :
    (now n after at : ℕ) (q r : Queue) (d e : Delivery) (s : Slot)
    → Sound q
    → current d q ≡ ok s
    → lease now n q ≡ ok (r, some e)
    → e.job.id ≡ d.job.id
    → (ack d r ≡ err stale_receipt) × (nack d after at r ≡ err stale_receipt)
lease_revokes now n after at q r d e s w held again same =
    let (i, u, a, _, made, taken) = lease-inv now n q r e again in
    let (f, p) = current-inv d q s held in
    let here : d.job.id ≡ i =
      sym same
      ∙ delivery-id i (lease_slot now n u) e taken
      ∙ leased-id now n u
      ∙ w.under_id i u a in
    let slot : lookup d.job.id r.jobs ≡ some (lease_slot now n u) = ground (
      arith,
      made,
      lookup-insert i d.job.id (lease_slot now n u) q.jobs,
      bytes_eq_iff i d.job.id,
    ) in
    let one : s ≡ u = ground arith in
    let old : d.receipt ≡ receipt (lease_slot now n u).job.id u.attempt =
      p
      ∙ ap (λ (x : Slot). receipt x.job.id x.attempt) one
      ∙ ap (λ x. receipt x u.attempt) (sym (leased-id now n u)) in
    let moved : (lease_slot now n u).attempt ≢ u.attempt = omega (arith, leased-attempt now n u) in
    stale d r after at (lease_slot now n u) u.attempt slot old moved

-- The calls that change the queue.
pub data Step : Queue → Queue → Type 0 where
  enqueued :
      {q r : Queue} (job : Job) (now : ℕ) (b : Bool) → enqueue job now q ≡ ok (r, b) → Step q r
  leased : {q r : Queue} (now n : ℕ) (d : Delivery) → lease now n q ≡ ok (r, some d) → Step q r
  acked : {q r : Queue} (d : Delivery) → ack d q ≡ ok r → Step q r
  nacked : {q r : Queue} (d : Delivery) (after now : ℕ) → nack d after now q ≡ ok r → Step q r

-- Any calls, one after the other.
pub data Steps (q : Queue) : Queue → Type 0 where
  still : Steps q q
  then_step : {r t : Queue} → Steps q r → Step r t → Steps q t

pub Steps-append : {q r t : Queue} → Steps q r → Steps r t → Steps q t
Steps-append a still = a
Steps-append a (then_step b s) = then_step (Steps-append a b) s

-- Every call keeps each job under its own id, and once in the order.
pub Step-Sound : {q r : Queue} → Sound q → Step q r → Sound r
Step-Sound {q} {r} w (enqueued job now b h) = enqueue-Sound job now q r b w h
Step-Sound {q} {r} w (leased now n d h) = lease-Sound now n q r d w h
Step-Sound {q} {r} w (acked d h) = ack-Sound d q r w h
Step-Sound {q} {r} w (nacked d after now h) = nack-Sound d after now q r w h

pub Steps-Sound : {q r : Queue} → Sound q → Steps q r → Sound r
Steps-Sound w still = w
Steps-Sound w (then_step a s) = Step-Sound (Steps-Sound w a) s

abbrev Held : Bytes → Job → Queue → Type 0
Held id job q = (s : Slot) × (lookup id q.jobs ≡ some s) × (s.job ≡ job)

changed_Held :
    (id i : Bytes) (s t u : Slot) (m : Dict Bytes Slot)
    → lookup id m ≡ some s
    → lookup i m ≡ some t
    → u.job ≡ t.job
    → (x : Slot) × (lookup id (insert i u m) ≡ some x) × (x.job ≡ s.job)
changed_Held id i s t u m e f j = elim (Bool-cases (i =? id)) [
  | inl hit ↦
      let same : s ≡ t = ground (arith, bytes_eq_iff i id) in
      (u, ground (arith, lookup-insert i id u m), j ∙ ap (λ (x : Slot). x.job) (sym same))
  | inr miss ↦ (s, ground (arith, lookup-insert i id u m), refl)
]

leased-job : (now n : ℕ) (s : Slot) → (lease_slot now n s).job ≡ s.job
unfolding lease_slot
leased-job now n s = refl

pub enqueue-Held :
    (id : Bytes) (s : Slot) (job : Job) (now : ℕ) (q r : Queue) (b : Bool)
    → enqueue job now q ≡ ok (r, b)
    → lookup id q.jobs ≡ some s
    → lookup id r.jobs ≡ some s
unfolding enqueue
enqueue-Held id s job now q r b h e = elim (Option-cases (lookup job.id q.jobs)) [
  | inr (t, f) ↦ let same : q ≡ r = ground arith in rw (← same) e
  | inl f ↦ ground (
    arith,
    bytes_eq_iff job.id id,
    lookup-insert job.id id (record { job = job; attempt = 0; not_before = now; lease_until = 0 })
        q.jobs,
  )
]

-- No job is lost: a job stays in the queue through every call but an ack with the receipt of its
-- last delivery.
pub Step-keeps :
    {q r : Queue} (id : Bytes) (s : Slot)
    → Sound q
    → Step q r
    → lookup id q.jobs ≡ some s
    → ((t : Slot) × (lookup id r.jobs ≡ some t) × (t.job ≡ s.job))
      ⊎ ((d : Delivery) × (d.job.id ≡ id) × (d.receipt ≡ receipt id s.attempt) × (ack d q ≡ ok r))
Step-keeps {q} {r} id s w (enqueued job now b h) e =
    inl (s, enqueue-Held id s job now q r b h e, refl)
Step-keeps {q} {r} id s w (leased now n d h) e =
    let (i, t, f, _, made, _) = lease-inv now n q r d h in
    let (x, g, j) = changed_Held id i s t (lease_slot now n t) q.jobs e f (leased-job now n t) in
    inl (x, rw made g, j)
Step-keeps {q} {r} id s w (nacked d after now h) e =
    let (t, f, _, made) = nack-inv d after now q r h in
    let (x, g, j) =
      changed_Held id d.job.id s t (record t { lease_until = 0; not_before = now + after }) q.jobs e
        f refl in
    inl (x, rw made g, j)
Step-keeps {q} {r} id s w (acked d h) e =
    let (t, f, p, made) = ack-inv d q r h in
    let own : t.job.id ≡ d.job.id = w.under_id d.job.id t f in
    elim (Bool-cases (d.job.id =? id)) [
      | inl hit ↦
          let at_id : d.job.id ≡ id = (bytes_eq_iff d.job.id id).0 hit in
          let same : t ≡ s = ground arith in
          inr (
            d,
            at_id,
            p
                ∙ ap (λ x. receipt x t.attempt) (own ∙ at_id)
                ∙ ap (λ (x : Slot). receipt id x.attempt) same,
            h,
          )
      | inr miss ↦ inl (
        s,
        ground (
          arith,
          made,
          own,
          lookup-delete t.job.id id q.jobs,
          bytes_eq_iff t.job.id id,
          bytes_eq_iff d.job.id id,
        ),
        refl,
      )
    ]
