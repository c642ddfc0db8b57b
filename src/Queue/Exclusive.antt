-- ===== src/Queue/Exclusive.antt =====
-- backend/internal/queue/memory.go: a job that is leased is nobody else's while the lease runs.
use stablecoin_settlement_en.Common.{
  ℕ, ◌+◌, ◌<◌, ◌≡◌, refl, sym, ap, ◌∙◌, ◌≢◌, ◌⊎◌, inl, inr, Bool, true, some, arith, Bytes,
  bytes_eq_iff, Bytes-eq, lookup, lookup-insert, lookup-delete, ok,
}
use stablecoin_settlement_en.Queue.{
  Job, Slot, Queue, Delivery, receipt, enqueue, visible, lease_slot, delivery, lease, ack, nack,
}
use stablecoin_settlement_en.Queue.Laws.{
  Sound, lease-inv, ack-inv, nack-inv, enqueue-Sound, lease-Sound, ack-Sound, nack-Sound,
}
use stablecoin_settlement_en.Queue.Lease.{delivery-id, leased-id, enqueue-Held}

-- A delivery of another job, or with another receipt.
abbrev pub Foreign : Delivery → Delivery → Type 0
Foreign d e = (e.job.id ≢ d.job.id) ⊎ (e.receipt ≢ d.receipt)

-- What anyone but the holder of a delivery can do to a queue before a time, in any number and order.
pub data Others (d : Delivery) (end : ℕ) (q : Queue) : Queue → Type 0 where
  no_one : Others d end q q
  enqueued :
      {r t : Queue} (job : Job) (now : ℕ) (b : Bool)
      → Others d end q r
      → enqueue job now r ≡ ok (t, b)
      → Others d end q t
  leased :
      {r t : Queue} (now n : ℕ) (e : Delivery)
      → Others d end q r
      → now < end
      → lease now n r ≡ ok (t, some e)
      → Others d end q t
  acked :
      {r t : Queue} (e : Delivery)
      → Others d end q r
      → Foreign d e
      → ack e r ≡ ok t
      → Others d end q t
  nacked :
      {r t : Queue} (e : Delivery) (after now : ℕ)
      → Others d end q r
      → Foreign d e
      → nack e after now r ≡ ok t
      → Others d end q t

-- The slot of a delivery that is out: no one sees it before the end of its lease.
record Out (d : Delivery) (end : ℕ) (s : Slot) : Type 0 where
  own : s.job.id ≡ d.job.id
  last : d.receipt ≡ receipt s.job.id s.attempt
  shut : (now : ℕ) → now < end → visible now s ≡ true → ⊥

record Kept (d : Delivery) (s : Slot) (q : Queue) : Type 0 where
  sound : Sound q
  here : lookup d.job.id q.jobs ≡ some s

not_visible :
    (now later n : ℕ) (s : Slot) → later < now + n → visible later (lease_slot now n s) ≡ true → ⊥
unfolding visible lease_slot
not_visible now later n s early v = ground arith

delivery-receipt : (i : Bytes) (s : Slot) → (delivery i s).receipt ≡ receipt i s.attempt
unfolding delivery
delivery-receipt i s = refl

lease-Out :
    (now n : ℕ) (q r : Queue) (d : Delivery)
    → Sound q
    → lease now n q ≡ ok (r, some d)
    → (s : Slot) × Out d (now + n) s × Kept d s r
lease-Out now n q r d w h =
    let (i, s, a, _, made, given) = lease-inv now n q r d h in
    let t = lease_slot now n s in
    let under : t.job.id ≡ i = leased-id now n s ∙ w.under_id i s a in
    let at_i : d.job.id ≡ i = delivery-id i t d given ∙ under in
    (
      t,
      record {
        own = under ∙ sym at_i;
        last =
            ap (λ (x : Delivery). x.receipt) given
            ∙ delivery-receipt i t
            ∙ ap (λ x. receipt x t.attempt) (sym under);
        shut = λ later early v. not_visible now later n s early v;
      },
      record {
        sound = lease-Sound now n q r d w h;
        here =
            ground (arith, made, at_i, lookup-insert i d.job.id t q.jobs, bytes_eq_iff i d.job.id);
      },
    )

-- Before its end, a lease takes another job.
lease-other :
    (now n end : ℕ) (q r : Queue) (d e : Delivery) (s : Slot)
    → Out d end s
    → Kept d s q
    → now < end
    → lease now n q ≡ ok (r, some e)
    → (e.job.id ≢ d.job.id) × (lookup d.job.id r.jobs ≡ some s)
lease-other now n end q r d e s out kept early h =
    let (i, u, a, v, made, given) = lease-inv now n q r e h in
    let at_i : e.job.id ≡ i =
      delivery-id i (lease_slot now n u) e given ∙ leased-id now n u ∙ kept.sound.under_id i u a in
    let apart : i ≢ d.job.id =
      λ same. let one : u ≡ s = ground (arith, kept.here) in out.shut now early (rw (← one) v) in
    (
      λ same. apart (sym at_i ∙ same),
      ground (
        arith,
        made,
        kept.here,
        apart,
        lookup-insert i d.job.id (lease_slot now n u) q.jobs,
        bytes_eq_iff i d.job.id,
      ),
    )

-- A foreign delivery that is current is one of another job.
Foreign-apart :
    (q : Queue) (d e : Delivery) (s u : Slot) (end : ℕ)
    → Out d end s
    → Kept d s q
    → Foreign d e
    → lookup e.job.id q.jobs ≡ some u
    → e.receipt ≡ receipt u.job.id u.attempt
    → e.job.id ≢ d.job.id
Foreign-apart q d e s u end out kept (inl n) f p = n
Foreign-apart q d e s u end out kept (inr n) f p = λ same.
    let one : u ≡ s = ground (arith, kept.here) in
    n (p ∙ ap (λ (x : Slot). receipt x.job.id x.attempt) one ∙ sym out.last)

Others-Kept :
    {d : Delivery} {end : ℕ} {q r : Queue} (s : Slot)
    → Out d end s
    → Kept d s q
    → Others d end q r
    → Kept d s r
Others-Kept s out kept no_one = kept
Others-Kept {d} {end} {q} {r} s out kept (enqueued {r = t} job now b o h) =
    let k = Others-Kept s out kept o in
    record {
      sound = enqueue-Sound job now t r b k.sound h;
      here = enqueue-Held d.job.id s job now t r b h k.here;
    }
Others-Kept {d} {end} {q} {r} s out kept (leased {r = t} now n e o early h) =
    let k = Others-Kept s out kept o in
    record {
      sound = lease-Sound now n t r e k.sound h;
      here = (lease-other now n end t r d e s out k early h).1;
    }
Others-Kept {d} {end} {q} {r} s out kept (acked {r = t} e o foreign h) =
    let k = Others-Kept s out kept o in
    let (u, f, p, made) = ack-inv e t r h in
    let apart = Foreign-apart t d e s u end out k foreign f p in
    let own = k.sound.under_id e.job.id u f in
    record {
      sound = ack-Sound e t r k.sound h;
      here = ground (
        arith,
        made,
        own,
        k.here,
        apart,
        lookup-delete u.job.id d.job.id t.jobs,
        bytes_eq_iff u.job.id d.job.id,
      );
    }
Others-Kept {d} {end} {q} {r} s out kept (nacked {r = t} e after now o foreign h) =
    let k = Others-Kept s out kept o in
    let (u, f, p, made) = nack-inv e after now t r h in
    let apart = Foreign-apart t d e s u end out k foreign f p in
    record {
      sound = nack-Sound e after now t r k.sound h;
      here = ground (
        arith,
        made,
        k.here,
        apart,
        lookup-insert e.job.id d.job.id (record u { lease_until = 0; not_before = now + after })
            t.jobs,
        bytes_eq_iff e.job.id d.job.id,
      );
    }

-- On a sound queue: once a job is leased, and until its lease ends or its holder answers for it, no
-- lease hands it out again, whatever the others enqueue, lease, ack and nack in between. Theirs are
-- the acks and nacks with a delivery of another job or with another receipt.
pub lease_exclusive :
    (now n later m : ℕ) (q r t v : Queue) (d e : Delivery)
    → Sound q
    → lease now n q ≡ ok (r, some d)
    → Others d (now + n) r t
    → later < now + n
    → lease later m t ≡ ok (v, some e)
    → e.job.id ≢ d.job.id
lease_exclusive now n later m q r t v d e w first others early second =
    let (s, out, kept) = lease-Out now n q r d w first in
    (lease-other later m (now + n) t v d e s out (Others-Kept s out kept others) early second).0
