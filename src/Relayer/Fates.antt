-- ===== src/Relayer/Fates.antt =====
-- backend/internal/relayer/relayer.go: what the ack or nack of a leased job leaves of it, whatever the
-- others did to the queue.
use stablecoin_settlement_en.Common.{
  ℕ, ◌+◌, ◌-◌, ◌≡◌, refl, ap, ◌≢◌, ◌⊎◌, inl, inr, Option, none, some, arith, u64, Bool-cases, Bytes,
  bytes_eq_iff, Bytes-eq, lookup, lookup-insert, lookup-delete, ok, err, Result-cases,
}
use stablecoin_settlement_en.Queue as Jobs
use stablecoin_settlement_en.Queue.{Queue, Delivery, Slot, stale_receipt}
use stablecoin_settlement_en.Queue.Laws.{Sound, ack-inv, nack-inv}
use stablecoin_settlement_en.Queue.Lease.{Steps, Steps-Sound}
use stablecoin_settlement_en.Retry.{negative}
use stablecoin_settlement_en.Relayer.World.{
  World, Turn, before_answer, Report, Error, from_queue, poison, retry, at_nack,
}
use stablecoin_settlement_en.Relayer.Worker.{Ran, ran, broke, queue_answer, nack_after, handed}
use stablecoin_settlement_en.Relayer.Parking.{Grave, Parked}

abbrev slot_in : Bytes → World → Option Slot
slot_in id v = lookup id v.queue.jobs

-- If the report is one of poison, the job was parked before the others came in for the last time.
abbrev pub Told : Turn → Delivery → Report → World → Type 0
Told t d r v =
    (r.outcome ≢ poison)
    ⊎ ((p : World) × Parked d.job.id p
        × (v ≡ record (t.others before_answer p) { queue = v.queue }))

-- What a turn leaves of a job that was leased in it, on the queue `q` that the lease left. `Steps` are
-- the calls of the others.
pub data Fate (t : Turn) (d : Delivery) (q : Queue) (v : World) (x : Ran) : Type 0 where
  broken : (e : Error) → x ≡ broke e → Grave e → Steps q v.queue → Fate t d q v x
  overtaken :
      (r : Report) (e : Option Error)
      → x ≡ ran d r e
      → Steps q v.queue
      → Jobs.current d v.queue ≡ err stale_receipt
      → Told t d r v
      → Fate t d q v x
  waits :
      (r : Report) (e : Option Error) (b : Queue) (wait : ℕ) (s : Slot)
      → x ≡ ran d r e
      → r.outcome ≡ retry
      → Steps q b
      → nack_after d wait (t.clock at_nack) b ≡ ok v.queue
      → slot_in d.job.id v ≡ some s
      → s.lease_until ≡ 0
      → Fate t d q v x
  ended :
      (r : Report) (e : Option Error) (b : Queue)
      → x ≡ ran d r e
      → r.outcome ≢ retry
      → Steps q b
      → Jobs.ack d b ≡ ok v.queue
      → slot_in d.job.id v ≡ none
      → Told t d r v
      → Fate t d q v x

abbrev pub Ends : Turn → Delivery → Queue → World × Ran → Type 0
Ends t d q (v, x) = Fate t d q v x

ack-refused :
    (d : Delivery) (q : Queue) (e : Jobs.Error) → Jobs.ack d q ≡ err e → Jobs.current d q ≡ err e
unfolding Jobs.ack
ack-refused d q e h = elim (Result-cases (Jobs.current d q)) [
  | inl (s, f) ↦ absurd (ground arith)
  | inr (x, f) ↦ ground arith
]

nack-refused :
    (d : Delivery) (wait now : ℕ) (q : Queue) (e : Jobs.Error)
    → Jobs.nack d wait now q ≡ err e
    → Jobs.current d q ≡ err e
unfolding Jobs.nack
nack-refused d wait now q e h = elim (Result-cases (Jobs.current d q)) [
  | inl (s, f) ↦ absurd (ground arith)
  | inr (x, f) ↦ ground arith
]

nack_after-refused :
    (d : Delivery) (wait now : ℕ) (q : Queue) (e : Jobs.Error)
    → nack_after d wait now q ≡ err e
    → Jobs.current d q ≡ err e
unfolding nack_after
nack_after-refused d wait now q e h = elim (Bool-cases (negative wait)) [
  | inl n ↦ nack-refused d 0 (now - (u64 - wait)) q e (rw n at h)
  | inr n ↦ nack-refused d wait now q e (rw n at h)
]

nack-slot :
    (d : Delivery) (wait now : ℕ) (q r : Queue)
    → Jobs.nack d wait now q ≡ ok r
    → (s : Slot) × (lookup d.job.id r.jobs ≡ some s) × (s.lease_until ≡ 0)
nack-slot d wait now q r h =
    let (s, f, _, made) = nack-inv d wait now q r h in
    let t = record s { lease_until = 0; not_before = now + wait } in
    (
      t,
      ground
          (arith, made, lookup-insert d.job.id d.job.id t q.jobs, bytes_eq_iff d.job.id d.job.id),
      refl,
    )

nack_after-slot :
    (d : Delivery) (wait now : ℕ) (q r : Queue)
    → nack_after d wait now q ≡ ok r
    → (s : Slot) × (lookup d.job.id r.jobs ≡ some s) × (s.lease_until ≡ 0)
unfolding nack_after
nack_after-slot d wait now q r h = elim (Bool-cases (negative wait)) [
  | inl n ↦ nack-slot d 0 (now - (u64 - wait)) q r (rw n at h)
  | inr n ↦ nack-slot d wait now q r (rw n at h)
]

ack-gone :
    (d : Delivery) (q r : Queue) → Sound q → Jobs.ack d q ≡ ok r → lookup d.job.id r.jobs ≡ none
ack-gone d q r sound h =
    let (s, f, _, made) = ack-inv d q r h in
    let own = sound.under_id d.job.id s f in
    ground
      (arith, made, own, lookup-delete s.job.id d.job.id q.jobs, bytes_eq_iff s.job.id d.job.id)

-- The error of an Ack or a Nack.
refused-Fate :
    (t : Turn) (d : Delivery) (q : Queue) (r : Report) (e : Option Error) (w : World)
    (x : Jobs.Error)
    → Steps q w.queue
    → Jobs.current d w.queue ≡ err x
    → Told t d r w
    → Ends t d q (handed d r e (queue_answer w (err x)))
unfolding handed queue_answer
refused-Fate t d q r e w stale_receipt steps f told = overtaken r e refl steps f told
refused-Fate t d q r e w x steps f told = broken (from_queue x) refl (λ p. ground (arith, p)) steps

-- Only the queue changed.
Told-queue :
    (t : Turn) (d : Delivery) (r : Report) (w : World) (b : Queue)
    → Told t d r w
    → Told t d r (record w { queue = b })
Told-queue t d r w b (inl p) = inl p
Told-queue t d r w b (inr (p, k, e)) = inr (p, k, ap (λ (o : World). record o { queue = b }) e)

pub acked-Fate :
    (t : Turn) (d : Delivery) (q : Queue) (r : Report) (e : Option Error) (w : World)
    → Sound q
    → Steps q w.queue
    → r.outcome ≢ retry
    → Told t d r w
    → Ends t d q (handed d r e (queue_answer w (Jobs.ack d w.queue)))
unfolding handed queue_answer
acked-Fate t d q r e w sound steps other told = elim (Result-cases (Jobs.ack d w.queue)) [
  | inr (x, f) ↦ rw f (refused-Fate t d q r e w x steps (ack-refused d w.queue x f) told)
  | inl (b, f) ↦ rw f (
      ended r e w.queue refl other steps f (ack-gone d w.queue b (Steps-Sound sound steps) f)
        (Told-queue t d r w b told))
]

pub nacked-Fate :
    (t : Turn) (d : Delivery) (q : Queue) (r : Report) (e : Option Error) (wait : ℕ) (w : World)
    → Steps q w.queue
    → r.outcome ≡ retry
    → Ends t d q (handed d r e (queue_answer w (nack_after d wait (t.clock at_nack) w.queue)))
unfolding handed queue_answer
nacked-Fate t d q r e wait w steps again =
    elim (Result-cases (nack_after d wait (t.clock at_nack) w.queue)) [
      | inr (x, f) ↦ rw f (
          refused-Fate t d q r e w x steps (nack_after-refused d wait (t.clock at_nack) w.queue x f)
            (inl (λ p. ground (arith, p, again))))
      | inl (b, f) ↦
          let (s, g, z) = nack_after-slot d wait (t.clock at_nack) w.queue b f in
          rw f (waits r e w.queue wait s refl again steps f g z)
    ]
