-- ===== src/Txseq.antt =====
-- backend/internal/txseq: one line of sequence numbers for each sending account.
-- The semaphore of an account is `free`. Where the source waits for it or for the end of its
-- context, the argument `turn` says which came first.
use stablecoin_settlement_en.Common.{
  ℕ, ◌+◌, ◌%◌, Bool, true, false, ◌&&◌, Option, none, some, u64, ltb, ◌==◌, if◌then◌else◌, not,
  Bytes, Bytes-eq, Dict, lookup, insert, Result, ok, err, ◌>>=◌, ◌>>◌, refuse_if,
}
pub mod Spent
pub mod Flight

pub record Reservation : Type 0 where
  pub account : Bytes
  pub value : ℕ
  pub ordered : Bool
  pub fill : Bool

pub data Sent : Type 0 where
  sent not_sent unknown : Sent

pub data Error : Type 0 where
  gap_open stale busy no_gap context_done : Error

-- `account`: `out` is the number that is not resolved yet, `gap` the hole.
pub record Line : Type 0 where
  pub free : Bool
  pub next : ℕ
  pub out : Option ℕ
  pub gap : Option ℕ

unfoldable pub new_line : Line
new_line = record { free = true; next = 0; out = none; gap = none }

abbrev pub Counter : Type 0
Counter = Dict Bytes Line

-- `account`: the line of a name, made on first sight.
unfoldable pub line_of : Bytes → Counter → Line
unfolding new_line
line_of name c = elim (lookup name c) [ none ↦ new_line | some a ↦ a ]

-- The part of `Reserve` behind the semaphore; a refusal puts the token back.
unfoldable pub take_number : Bytes → Line → Result Error (Line × Reservation)
take_number name a = elim a.gap [
  | some g ↦ err gap_open
  | none ↦ ok (
    record a { free = false; next = (a.next + 1) % u64; out = some a.next },
    record { account = name; value = a.next; ordered = true; fill = false },
  )
]

unfoldable pub take_gap : Bytes → Line → Result Error (Line × Reservation)
take_gap name a = elim a.gap [
  | none ↦ err no_gap
  | some g ↦ ok (
    record a { free = false; out = some g },
    record { account = name; value = g; ordered = true; fill = true },
  )
]

-- What a call leaves behind: the account exists even if the call failed.
abbrev pub store {ℓ} :
    {R : Type ℓ} → Bytes → Line → Counter → Result Error (Line × R) → Counter × Result Error R
store name a c (ok (a', r)) = (insert name a' c, ok r)
store name a c (err e) = (insert name a c, err e)

unfoldable pub reserve : Bytes → Bool → Counter → Counter × Result Error Reservation
unfolding take_number line_of
reserve name turn c =
    let a = line_of name c in
    store name a c (if a.free && turn then take_number name a else err context_done)

unfoldable pub reserve_gap : Bytes → Bool → Counter → Counter × Result Error Reservation
unfolding take_gap line_of
reserve_gap name turn c =
    let a = line_of name c in
    store name a c (if a.free && turn then take_gap name a else err context_done)

-- The `switch` of `Resolve`.
unfoldable pub settle : Reservation → Sent → Line → Line
settle r s a = if r.fill then elim s [ sent ↦ record a { gap = none } | _ ↦ a ] else elim s [
  | sent ↦ a
  | not_sent ↦ record a { next = r.value }
  | unknown ↦ record a { gap = some r.value }
]

-- Whether the line waits for this number.
unfoldable pub is_out : ℕ → Option ℕ → Bool
is_out v none = false
is_out v (some w) = w == v

unfoldable pub resolve_line : Reservation → Sent → Line → Result Error Line
unfolding settle is_out
resolve_line r s a = do
  refuse_if (not (is_out r.value a.out)) stale
  ok (record (settle r s a) { out = none; free = true })

unfoldable pub resolve : Reservation → Sent → Counter → Result Error Counter
unfolding resolve_line
resolve r s c = if not r.ordered then ok c else elim (lookup r.account c) [
  | none ↦ err stale
  | some a ↦ resolve_line r s a >>= λ a'. ok (insert r.account a' c)
]

-- The gap that the chain has passed.
unfoldable pub pass_gap : ℕ → Option ℕ → Option ℕ
pass_gap next none = none
pass_gap next (some g) = if ltb g next then none else some g

unfoldable pub sync_line : ℕ → Line → Result Error Line
unfolding pass_gap
sync_line next a = elim a.out [
  | some v ↦ err busy
  | none ↦ ok (record a { next = next; gap = pass_gap next a.gap })
]

unfoldable pub sync : Bytes → ℕ → Counter → Counter × Result Error (Unit {0})
unfolding sync_line line_of
sync name next c = elim (sync_line next (line_of name c)) [
  | ok a ↦ (insert name a c, ok tt)
  | err e ↦ (insert name (line_of name c) c, err e)
]

pub record Status : Type 0 where
  pub account : Bytes
  pub next : ℕ
  pub in_flight : Bool
  pub gap : Option ℕ

-- `Status` does not make an account.
unfoldable pub status : Bytes → Counter → Status
status name c = elim (lookup name c) [
  | none ↦ record { account = name; next = 0; in_flight = false; gap = none }
  | some a ↦ record {
    account = name;
    next = a.next;
    in_flight = elim a.out [ none ↦ false | some v ↦ true ];
    gap = a.gap;
  }
]

-- `Unordered`: chains that number nothing.
unfoldable pub unordered_reserve : Bytes → Reservation
unordered_reserve name = record { account = name; value = 0; ordered = false; fill = false }
