-- ===== src/Relayer/Numbers.antt =====
-- backend/internal/relayer/relayer.go: what a turn leaves of the account's line of numbers.
use stablecoin_settlement_en.Common.{
  ℕ, ◌+◌, ◌%◌, ◌≡◌, ap, ◌∙◌, ◌≢◌, ◌⊎◌, inl, inr, Bool, true, false, none, some, [], ◌∷◌, ◌++◌,
  arith, u64, ==_iff, Bytes, bytes_eq_iff, Bytes-eq, lookup, insert, lookup-insert, Result, ok, err,
  Result-cases,
}
use stablecoin_settlement_en.Intent.State.{settling}
use stablecoin_settlement_en.Intent.Machine.{Intent}
use stablecoin_settlement_en.Txseq
use stablecoin_settlement_en.Txseq.{
  Reservation, Sent, sent, not_sent, unknown, Line, Counter, reserve, line_of, take_number, settle,
  is_out, resolve_line, resolve, gap_open, context_done,
}
use stablecoin_settlement_en.Relayer.World.{
  World, Setup, Turn, Report, Error, Answer, hash, failure,
}
use stablecoin_settlement_en.Relayer.Ship.{Shipped, close_slot, ship, ship_ordered}
use stablecoin_settlement_en.Relayer.Ships.{call_of, answer_sent, ship-cases}
use stablecoin_settlement_en.Relayer.Sends.{
  close_slot_frame, ship_ordered-reserved, ship_ordered-unreserved,
}

-- How a free line without a gap stands after its next number was handed to the sender.
abbrev pub closed_line : Answer → Line → Line
closed_line (hash h) a = record a { next = (a.next + 1) % u64 }
closed_line (failure true p) a = a
closed_line (failure false p) a = record a { next = (a.next + 1) % u64; gap = some a.next }

line_of-insert : (name : Bytes) (a : Line) (c : Counter) → line_of name (insert name a c) ≡ a
unfolding line_of
line_of-insert name a c = ground (arith, lookup-insert name name a c, bytes_eq_iff name name)

reserve-none :
    (name : Bytes) (turn : Bool) (c : Counter) (e : Txseq.Error)
    → (reserve name turn c).1 ≡ err e
    → line_of name (reserve name turn c).0 ≡ line_of name c
unfolding reserve take_number
reserve-none name turn c e h = ground (arith, line_of-insert name (line_of name c) c)

reserve-some :
    (name : Bytes) (turn : Bool) (c : Counter) (r : Reservation)
    → (reserve name turn c).1 ≡ ok r
    → let a = line_of name c in
      (a.gap ≡ none)
      × (r ≡ record { account = name; value = a.next; ordered = true; fill = false })
      × ((reserve name turn c).0
          ≡ insert name (record a { free = false; next = (a.next + 1) % u64; out = some a.next }) c)
unfolding reserve take_number
reserve-some name turn c r h = ground arith

abbrev number_of : Bytes → ℕ → Reservation
number_of name v = record { account = name; value = v; ordered = true; fill = false }

abbrev taken_line : Line → Line
taken_line a = record a { free = false; next = (a.next + 1) % u64; out = some a.next }

abbrev put_back : Bytes → Line → Sent → Line
put_back name a s = record (settle (number_of name a.next) s (taken_line a)) {
  out = none;
  free = true;
}

resolve_line-taken :
    (name : Bytes) (a : Line) (s : Sent)
    → resolve_line (number_of name a.next) s (taken_line a) ≡ ok (put_back name a s)
unfolding resolve_line is_out
resolve_line-taken name a s = ground (arith, ==_iff a.next a.next)

resolve-taken :
    (name : Bytes) (a : Line) (s : Sent) (c : Counter)
    → lookup name c ≡ some (taken_line a)
    → resolve (number_of name a.next) s c ≡ ok (insert name (put_back name a s) c)
unfolding resolve
resolve-taken name a s c h = simp (resolve, h, resolve_line-taken)

close_slot-line :
    (name : Bytes) (a : Line) (s : Sent) (c : Counter) (w : World)
    → w.counter ≡ insert name (taken_line a) c
    → line_of name (close_slot (number_of name a.next) s w).counter ≡ put_back name a s
unfolding close_slot
close_slot-line name a s c w h =
    let there : lookup name w.counter ≡ some (taken_line a) =
      ground (arith, lookup-insert name name (taken_line a) c, bytes_eq_iff name name) in
    rw (
      close_slot,
      resolve-taken name a s w.counter there,
      line_of-insert name (put_back name a s) w.counter,
    )

put_back-not_sent :
    (name : Bytes) (a : Line) → a.free ≡ true → a.out ≡ none → put_back name a not_sent ≡ a
unfolding settle
put_back-not_sent name a f o = ground arith

put_back-answer :
    (name : Bytes) (a : Line) (x : Answer)
    → a.free ≡ true
    → a.out ≡ none
    → a.gap ≡ none
    → put_back name a (answer_sent x) ≡ closed_line x a
unfolding settle
put_back-answer name a (hash h) f o g = ground arith
put_back-answer name a (failure true p) f o g = ground arith
put_back-answer name a (failure false p) f o g = ground arith

module _ (sha256 : Bytes → Bytes) (stamp : ℕ → Bytes) where
  -- A turn on an account whose line is free: when nothing was handed to the sender, the line is as
  -- before; otherwise one number was, and the line is free again, as the sender's answer has it.
  pub line_returned :
      (u : Setup) (t : Turn) (account : Bytes) (it : Intent) (w : World)
      → it.state ≢ settling
      → (line_of account w.counter).free ≡ true
      → (line_of account w.counter).out ≡ none
      → let a = line_of account w.counter in
        let v = (ship_ordered sha256 stamp u t account it w).0 in
        ((v.calls ≡ w.calls) × (line_of account v.counter ≡ a))
        ⊎ ((v.calls ≡ w.calls ++ call_of it (number_of account a.next) ∷ [])
            × (line_of account v.counter ≡ closed_line t.answer a))
  line_returned u t account it w moves free out =
      let a = line_of account w.counter in
      let c = (reserve account t.turn w.counter).0 in
      elim (Result-cases (reserve account t.turn w.counter).1) [
        | inr (e, f) ↦ inl (
          ap (λ (p : World × Result Error Report). p.0.calls)
              (ship_ordered-unreserved sha256 stamp u t account it w e f),
          ap (λ (p : World × Result Error Report). line_of account p.0.counter)
                (ship_ordered-unreserved sha256 stamp u t account it w e f)
              ∙ reserve-none account t.turn w.counter e f,
        )
        | inl (res, f) ↦
            let (closed, given, taken) = reserve-some account t.turn w.counter res f in
            let q = ship sha256 stamp u t it res (record w { counter = c }) in
            let ends : (ship_ordered sha256 stamp u t account it w).0 ≡ close_slot res q.1 q.0 =
              ap (λ (p : World × Result Error Report). p.0)
                (ship_ordered-reserved sha256 stamp u t account it w res f) in
            let (d, frame) = close_slot_frame res q.1 q.0 in
            let calls : (ship_ordered sha256 stamp u t account it w).0.calls ≡ q.0.calls =
              ap (λ (o : World). o.calls) (ends ∙ frame) in
            let line : q.0.counter ≡ c
                → line_of account (ship_ordered sha256 stamp u t account it w).0.counter
                  ≡ put_back account a q.1 =
              λ k.
                ap (λ (o : World). line_of account o.counter) ends
                ∙ ap (λ r. line_of account (close_slot r q.1 q.0).counter) given
                ∙ close_slot-line account a q.1 w.counter q.0 (k ∙ taken) in
            elim (ship-cases sha256 stamp u t it res (record w { counter = c }) moves) [
              | inl (v, r, g, same, kept) ↦ inl (
                calls ∙ ap (λ (o : Shipped). o.0.calls) g ∙ same,
                line (ap (λ (o : Shipped). o.0.counter) g ∙ kept)
                    ∙ ap (λ (o : Shipped). put_back account a o.1) g
                    ∙ put_back-not_sent account a free out,
              )
              | inr k ↦ inr (
                calls ∙ k.logged ∙ ap (λ r. w.calls ++ call_of it r ∷ []) given,
                line k.same_counter
                    ∙ ap (put_back account a) k.number
                    ∙ put_back-answer account a t.answer free out closed,
              )
            ]
      ]
