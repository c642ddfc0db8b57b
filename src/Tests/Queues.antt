-- ===== src/Tests/Queues.antt =====
-- Tests of backend/internal/queue and backend/internal/txseq.
use stablecoin_settlement_en.Common.{
  ℕ, ◌<◌, ◌≡◌, refl, ◌≢◌, ◌⊎◌, inl, Bool, true, false, Option, none, some, [], ◌∷◌, arith,
  replicate, All, Bytes, str, bytes_eq, Bytes-eq, is_empty, lookup, insert, delete, ok, err,
}
use stablecoin_settlement_en.Queue.{
  Job, Slot, Queue, Delivery, settle, enqueue, lease, ack, nack, current, visible, receipt,
  delivery, lease_slot, stale_receipt, empty,
}
use stablecoin_settlement_en.Queue.Laws.{Sound, empty-Sound, enqueue-Sound, lease-Sound}
use stablecoin_settlement_en.Queue.Lease.{lease_total, lease_revokes, Step, Step-keeps}
use stablecoin_settlement_en.Queue.Exclusive.{no_one, enqueued, leased, nacked, lease_exclusive}
use stablecoin_settlement_en.Common.Encode.{decimal}
use stablecoin_settlement_en.Txseq.{
  Reservation, Line, Counter, new_line, sent, unknown, context_done, take_number, resolve_line,
  reserve, reserve_gap, sync_line, pass_gap, take_gap, sync, busy,
}
use stablecoin_settlement_en.Txseq.Spent.{Run, take_number_fresh}
use stablecoin_settlement_en.Txseq.Flight.{Flow, one_in_flight}

abbrev job : Job
job = record { id = str "j1"; kind = settle; intent_id = str "pi_1"; ref = 7 ∷ replicate 31 0 }

abbrev slot : Slot
slot = record { job = job; attempt = 0; not_before = 10; lease_until = 0 }

abbrev queued : Queue
queued = record { jobs = insert job.id slot []; order = job.id ∷ [] }

queued-Sound : Sound queued
unfolding enqueue empty lookup is_empty bytes_eq
queued-Sound = enqueue-Sound job 10 empty queued true empty-Sound refl

-- Leased at 10 for 30, and again at 40.
abbrev first_lease : Queue
first_lease = record queued { jobs = insert job.id (lease_slot 10 30 slot) queued.jobs }

abbrev first_delivery : Delivery
first_delivery = delivery job.id (lease_slot 10 30 slot)

abbrev second_slot : Slot
second_slot = lease_slot 40 30 (lease_slot 10 30 slot)

abbrev second_lease : Queue
second_lease = record first_lease { jobs = insert job.id second_slot first_lease.jobs }

abbrev second_delivery : Delivery
second_delivery = delivery job.id second_slot

first_lease-Sound : Sound first_lease
unfolding lease lookup insert bytes_eq lease_slot
first_lease-Sound = lease-Sound 10 30 queued first_lease first_delivery queued-Sound refl

lease_total_example :
    (r : Queue) × (o : Option Delivery) × (lease 10 30 queued ≡ ok (r, o))
    × ((id : Bytes) (s : Slot) → lookup id queued.jobs ≡ some s → visible 10 s ≡ true → o ≢ none)
lease_total_example = lease_total 10 30 queued queued-Sound

-- A second job, which is leased while the first one is out.
abbrev other_job : Job
other_job = record job { id = str "j2" }

abbrev other_slot : Slot
other_slot = record slot { job = other_job }

-- Enqueued, while the first job is out.
abbrev one_out : Queue
one_out = record {
  jobs = insert other_job.id other_slot first_lease.jobs;
  order = job.id ∷ other_job.id ∷ [];
}

abbrev both_out : Queue
both_out = record one_out { jobs = insert other_job.id (lease_slot 11 30 other_slot) one_out.jobs }

abbrev other_delivery : Delivery
other_delivery = delivery other_job.id (lease_slot 11 30 other_slot)

abbrev given_back : Queue
given_back = record both_out {
  jobs =
      insert other_job.id
        (record (lease_slot 11 30 other_slot) { lease_until = 0; not_before = 12 }) both_out.jobs;
}

abbrev out_again : Queue
out_again = record given_back {
  jobs =
      insert other_job.id
        (lease_slot 13 30
          (record (lease_slot 11 30 other_slot) { lease_until = 0; not_before = 12 }))
        given_back.jobs;
}

abbrev again_delivery : Delivery
again_delivery =
    delivery other_job.id
      (lease_slot 13 30 (record (lease_slot 11 30 other_slot) { lease_until = 0; not_before = 12 }))

apart : other_delivery.job.id ≢ first_delivery.job.id
unfolding delivery lease_slot
apart = λ e. ground (arith, e)

-- A second job comes in, is leased and nacked, and is leased again, while the first one is out.
lease_exclusive_example : again_delivery.job.id ≢ first_delivery.job.id
unfolding enqueue lease nack current lookup insert is_empty bytes_eq lease_slot delivery decimal
lease_exclusive_example =
    lease_exclusive 10 30 13 30 queued first_lease given_back out_again first_delivery
      again_delivery queued-Sound refl
      (nacked other_delivery 0 12
        (leased 11 30 other_delivery (enqueued other_job 10 true no_one refl) (omega arith) refl)
        (inl apart) refl)
      (omega arith) refl

lease_revokes_example :
    (ack first_delivery second_lease ≡ err stale_receipt)
    × (nack first_delivery 5 41 second_lease ≡ err stale_receipt)
unfolding lease current lookup insert bytes_eq lease_slot delivery decimal
lease_revokes_example =
    lease_revokes 40 30 5 41 first_lease second_lease first_delivery second_delivery
      (lease_slot 10 30 slot) first_lease-Sound refl refl refl

abbrev done : Queue
done = record { jobs = delete job.id first_lease.jobs; order = [] }

Step-keeps_example :
    ((t : Slot) × (lookup job.id done.jobs ≡ some t) × (t.job ≡ job))
    ⊎ ((d : Delivery) × (d.job.id ≡ job.id)
        × (d.receipt ≡ receipt job.id 1)
        × (ack d first_lease ≡ ok done))
unfolding ack lookup insert bytes_eq lease_slot delivery decimal
Step-keeps_example =
    Step-keeps job.id (lease_slot 10 30 slot) first_lease-Sound (Step.acked first_delivery refl)
      refl

-- A line of numbers: 0 is sent and lost sight of, and then replaced.
abbrev line0 : Line
line0 = new_line

abbrev sender : Bytes
sender = str "0xS"

abbrev number : ℕ → Bool → Reservation
number v f = record { account = sender; value = v; ordered = true; fill = f }

abbrev line_sending : Line
line_sending = record { free = false; next = 1; out = some 0; gap = none }

abbrev line_gap : Line
line_gap = record { free = true; next = 1; out = none; gap = some 0 }

abbrev line_sent : Line
line_sent = record { free = true; next = 1; out = none; gap = none }

line0-Run : Run sender line0 none []
unfolding new_line
line0-Run = Run.start line0 refl refl refl

sending-Run : Run sender line_sending (some (number 0 false)) []
unfolding new_line take_number
sending-Run = Run.reserved line0 line_sending (number 0 false) [] line0-Run (omega arith) refl

gap-Run : Run sender line_gap none (0 ∷ [])
unfolding resolve_line
gap-Run = Run.resolved line_sending line_gap (number 0 false) unknown [] sending-Run refl

sent-Run : Run sender line_sent none (0 ∷ [])
unfolding resolve_line
sent-Run = Run.resolved line_sending line_sent (number 0 false) sent [] sending-Run refl

take_number_fresh_example : All (λ v. v < 1) (0 ∷ [])
unfolding take_number
take_number_fresh_example =
    take_number_fresh sent-Run {b = record { free = false; next = 2; out = some 1; gap = none }}
      {r = number 1 false} refl

-- A Sync that keeps a gap, and the gap being filled.
abbrev line_hole : Line
line_hole = record { free = true; next = 5; out = none; gap = some 3 }

abbrev line_synced : Line
line_synced = record line_hole { next = 3 }

abbrev line_filling : Line
line_filling = record line_synced { free = false; out = some 3 }

filling-Flow : Flow sender line_filling (some (number 3 true))
unfolding sync_line pass_gap take_gap
filling-Flow =
    Flow.filling line_synced line_filling (number 3 true)
      (Flow.synced line_hole line_synced none 3 (Flow.start line_hole refl refl) refl) refl

abbrev lines : Counter
lines = (sender, line_filling) ∷ []

one_in_flight_example :
    ((reserve sender true lines).1 ≡ err context_done)
    × ((reserve_gap sender true lines).1 ≡ err context_done)
    × ((sync sender 4 lines).1 ≡ err busy)
unfolding lookup bytes_eq
one_in_flight_example = one_in_flight sender true 4 lines filling-Flow refl
