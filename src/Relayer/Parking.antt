-- ===== src/Relayer/Parking.antt =====
-- backend/internal/relayer/poison.go: a job that is given up is parked, or tried again.
use stablecoin_settlement_en.Common.{
  ℕ, ◌+◌, ◌%◌, ◌≡◌, ◌≢◌, refl, ap, ◌∙◌, ◌⊎◌, inl, inr, Bool, true, false, Option, none, some, [],
  arith, u64, if◌then◌else◌, not, Bool-cases, Option-cases, Bytes, str, bytes_eq_iff, Bytes-eq,
  lookup, lookup-insert, Result, ok, err, Result-cases,
}
use stablecoin_settlement_en.Intent.State.{relayer, settling, failed, state_eq}
use stablecoin_settlement_en.Intent.Machine.{Intent, Request, version_conflict, not_found}
use stablecoin_settlement_en.Intent.Machine as Machine
use stablecoin_settlement_en.Intent.Store.{get}
use stablecoin_settlement_en.Ledger.Entry as Entries
use stablecoin_settlement_en.Ledger.Journal.{Journal, append}
use stablecoin_settlement_en.Deadletter as Dlq
use stablecoin_settlement_en.Queue.{Delivery, stale_receipt}
use stablecoin_settlement_en.Relayer.World.{
  World, Turn, Report, report, Error, poison, retry, at_park, at_failed, gave_up_failed,
  intent_missing, job_dropped, from_intent, from_ledger, from_queue, last_broadcast, state_text,
}
use stablecoin_settlement_en.Relayer.Ship.{advance}
use stablecoin_settlement_en.Relayer.Rescue.{review_intent}
use stablecoin_settlement_en.Relayer.GiveUp.{
  GivenUp, give_up, give_up_intent, give_to_review, give_to_failed, reviewed_report, fail_report,
  void_answer, void_entry, was_not_sent, last_sent, note_of, park_note, park_poison, poison_job,
}
use stablecoin_settlement_en.Relayer.Steps.{advance_frame}

-- The queue and the dead letters are as before.
record Aside (w v : World) : Type 0 where
  same_queue : v.queue ≡ w.queue
  same_dead : v.dead ≡ w.dead

-- Not the error that `RunOnce` passes over.
abbrev pub Grave : Error → Type 0
Grave e = e ≢ from_queue stale_receipt

-- A report on a job that is given up is one of poison, or the job is tried again.
abbrev Ends : Result Error (Report × Bytes) → Type 0
Ends (err e) = Grave e
Ends (ok (r, s)) = (r.outcome ≡ retry) ⊎ (r.outcome ≡ poison)

reviewed_report-Ends : (r : Result Machine.Error (Option Intent)) → Ends (reviewed_report r)
unfolding reviewed_report
reviewed_report-Ends (err e) = λ p. ground (arith, p)
reviewed_report-Ends (ok none) = inl refl
reviewed_report-Ends (ok (some x)) = inr refl

fail_report-Ends : (r : Result Machine.Error Intent) → Ends (fail_report r)
unfolding fail_report
fail_report-Ends (err version_conflict) = inl refl
fail_report-Ends (err _) = λ p. ground (arith, p)
fail_report-Ends (ok x) = inr refl

nothing : (w : World) → Aside w w
nothing w = record { same_queue = refl; same_dead = refl }

record GaveUp (w : World) (q : GivenUp) : Type 0 where
  aside : Aside w q.0
  ends : Ends q.1

module _ (sha256 : Bytes → Bytes) (stamp : ℕ → Bytes) where
  advance-Aside : (it : Intent) (req : Request) (w : World) → Aside w (advance sha256 it req w).0
  advance-Aside it req w =
      let (s, f) = advance_frame sha256 it req w in
      record {
        same_queue = ap (λ (v : World). v.queue) f;
        same_dead = ap (λ (v : World). v.dead) f;
      }

  give_to_failed-GaveUp :
      (t : Turn) (it : Intent) (w : World) → GaveUp w (give_to_failed sha256 stamp t it w)
  unfolding give_to_failed
  give_to_failed-GaveUp t it w =
      by_void (void_answer w.journal (append sha256 stamp w.journal (void_entry it)))
    where
      by_void :
          (r : Result Entries.Error Journal)
          → let q : GivenUp = elim r [
            | err e ↦ (w, err (from_ledger e))
            | ok j ↦
                let (w', r) =
                  advance sha256 it
                    (record {
                      to = failed;
                      by = relayer;
                      tx_hash = [];
                      reason = t.text gave_up_failed;
                      at = t.clock at_failed;
                    })
                    (record w { journal = j }) in
                (w', fail_report r)
          ] in
            GaveUp w q
      by_void (err e) = record { aside = nothing w; ends = λ p. ground (arith, p) }
      by_void (ok j) =
          let a = advance-Aside it _ (record w { journal = j }) in
          record {
            aside = record { same_queue = a.same_queue; same_dead = a.same_dead };
            ends = fail_report-Ends _;
          }

  give_up_intent-GaveUp :
      (t : Turn) (it : Intent) (w : World) → GaveUp w (give_up_intent sha256 stamp t it w)
  unfolding give_up_intent give_to_review review_intent
  give_up_intent-GaveUp t it w =
      by_tests (state_eq it.state settling)
        (was_not_sent (last_sent (last_broadcast it.id w.broadcasts)))
    where
      by_tests :
          (s n : Bool)
          → let q : GivenUp =
              if not s
              then (w, ok (report poison job_dropped, state_text it.state))
              else if n
              then give_to_failed sha256 stamp t it w
              else give_to_review sha256 stamp t it w in
            GaveUp w q
      by_tests false n = record { aside = nothing w; ends = inr refl }
      by_tests true true = give_to_failed-GaveUp t it w
      by_tests true false = record { aside = advance-Aside it _ w; ends = reviewed_report-Ends _ }

  give_up-GaveUp : (t : Turn) (d : Delivery) (w : World) → GaveUp w (give_up sha256 stamp t d w)
  unfolding give_up
  give_up-GaveUp t d w = by_intent (get w.intents d.job.intent_id)
    where
      by_intent :
          (r : Result Machine.Error Intent)
          → let q : GivenUp = elim r [
            | err not_found ↦ (w, ok (report poison intent_missing, str "-"))
            | err e ↦ (w, err (from_intent e))
            | ok it ↦ give_up_intent sha256 stamp t it w
          ] in
            GaveUp w q
      by_intent (ok it) = give_up_intent-GaveUp t it w
      by_intent (err not_found) = record { aside = nothing w; ends = inr refl }
      by_intent (err _) = record { aside = nothing w; ends = λ p. ground (arith, p) }

-- A job is among the dead letters, and parked.
abbrev pub Parked : Bytes → World → Type 0
Parked id v =
    (x : Dlq.Record) × (lookup id v.dead.records ≡ some x) × (Dlq.is_parked x.status ≡ true)

park-Parked :
    (r : Dlq.Record) (now : ℕ) (s q : Dlq.Store) (b : Bool)
    → Dlq.park r now s ≡ ok (q, b)
    → (x : Dlq.Record) × (lookup r.job.id q.records ≡ some x) × (Dlq.is_parked x.status ≡ true)
unfolding Dlq.park Dlq.park_valid Dlq.parked_record Dlq.is_parked
park-Parked r now s q b h = elim (Option-cases (lookup r.job.id s.records)) [
  | inl e ↦ (
    Dlq.parked_record r now 1,
    ground (
      arith,
      lookup-insert r.job.id r.job.id (Dlq.parked_record r now 1) s.records,
      bytes_eq_iff r.job.id r.job.id,
    ),
    refl,
  )
  | inr (x, e) ↦ elim (Bool-cases (Dlq.is_parked x.status)) [
    | inl p ↦ (x, ground arith, p)
    | inr p ↦ (
      Dlq.parked_record r now ((x.cycles + 1) % u64),
      ground (
        arith,
        lookup-insert r.job.id r.job.id (Dlq.parked_record r now ((x.cycles + 1) % u64)) s.records,
        bytes_eq_iff r.job.id r.job.id,
      ),
      refl,
    )
  ]
]

-- How the job stands after `poison`, by its report.
abbrev pub Dealt : Bytes → World × Result Error Report → Type 0
Dealt id (v, err e) = Grave e
Dealt id (v, ok r) = (r.outcome ≡ retry) ⊎ ((r.outcome ≡ poison) × Parked id v)

module _ (sha256 : Bytes → Bytes) (stamp : ℕ → Bytes) where
  park_note-Dealt :
      (t : Turn) (d : Delivery) (r : Report) (s : Bytes) (w : World)
      → r.outcome ≡ poison
      → ((park_note sha256 stamp t d r s w).0.queue ≡ w.queue)
        × Dealt d.job.id (park_note sha256 stamp t d r s w)
  unfolding park_note note_of
  park_note-Dealt t d r s w p =
      elim (Result-cases (Dlq.park (note_of sha256 stamp t d r s) (t.clock at_park) w.dead)) [
        | inr (e, f) ↦ rw (park_note, f) (refl, λ p. ground (arith, p))
        | inl ((q, b), f) ↦
            rw (park_note, f)
              (
                refl,
                inr (p, park-Parked (note_of sha256 stamp t d r s) (t.clock at_park) w.dead q b f),
              )
      ]

  park_poison-Dealt :
      (t : Turn) (d : Delivery) (q : GivenUp)
      → Ends q.1
      → ((park_poison sha256 stamp t d q).0.queue ≡ q.0.queue)
        × Dealt d.job.id (park_poison sha256 stamp t d q)
  unfolding park_poison
  park_poison-Dealt t d (w, err e) ends = (refl, ends)
  park_poison-Dealt t d (w, ok (r, s)) (inl again) = rw (park_poison, again) (refl, inl again)
  park_poison-Dealt t d (w, ok (r, s)) (inr bad) =
      rw (park_poison, bad) (park_note-Dealt t d r s w bad)

  pub poison_job-Dealt :
      (t : Turn) (d : Delivery) (w : World)
      → ((poison_job sha256 stamp t d w).0.queue ≡ w.queue)
        × Dealt d.job.id (poison_job sha256 stamp t d w)
  unfolding poison_job
  poison_job-Dealt t d w =
      let g = give_up-GaveUp sha256 stamp t d w in
      let (q, z) = park_poison-Dealt t d (give_up sha256 stamp t d w) g.ends in
      (q ∙ g.aside.same_queue, z)
