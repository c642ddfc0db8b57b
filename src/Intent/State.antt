-- ===== src/Intent/State.antt =====
-- backend/internal/intent/state.go: the states, the actors and the transition table.
use stablecoin_settlement_en.Common.{
  ℕ, ◌≡◌, ap, ◌↔◌, Bool, true, false, ◌&&◌, Option, none, some, List, [], ◌∷◌, arith, ◌==◌,
  if◌then◌else◌, Bytes, ◌=?◌, bytes_eq_iff, Bytes-eq,
}

-- `State` is a string in the source; `other` is a string that is none of the eight names.
pub data State : Type 0 where
  created authorized settling confirming settled failed canceled needs_review : State
  other : Bytes → State

pub data Actor : Type 0 where
  api relayer listener operator system : Actor
  nobody : Bytes → Actor

state_rank : State → ℕ
state_rank created = 0
state_rank authorized = 1
state_rank settling = 2
state_rank confirming = 3
state_rank needs_review = 4
state_rank settled = 5
state_rank failed = 6
state_rank canceled = 7
state_rank (other n) = 8

-- The source's `==` on states.
unfoldable pub state_eq : State → State → Bool
unfolding state_rank
state_eq (other m) (other n) = m =? n
state_eq (other m) t = false
state_eq s t = state_rank s == state_rank t

actor_rank : Actor → ℕ
actor_rank api = 0
actor_rank relayer = 1
actor_rank listener = 2
actor_rank operator = 3
actor_rank system = 4
actor_rank (nobody n) = 5

unfoldable pub actor_eq : Actor → Actor → Bool
unfolding actor_rank
actor_eq (nobody m) (nobody n) = m =? n
actor_eq (nobody m) t = false
actor_eq s t = actor_rank s == actor_rank t

pub state_eq_iff : (s t : State) → (state_eq s t ≡ true) ↔ (s ≡ t)
unfolding state_eq
state_eq_iff (other m) (other n) =
    (λ h. ap other ((bytes_eq_iff m n).0 h), λ h. ground (arith, bytes_eq_iff m n))
state_eq_iff s t = (λ h. ground arith, λ h. ground arith)

pub actor_eq_iff : (s t : Actor) → (actor_eq s t ≡ true) ↔ (s ≡ t)
unfolding actor_eq
actor_eq_iff (nobody m) (nobody n) =
    (λ h. ap nobody ((bytes_eq_iff m n).0 h), λ h. ground (arith, bytes_eq_iff m n))
actor_eq_iff s t = (λ h. ground arith, λ h. ground arith)

-- In the order of the life cycle, the terminal states last.
abbrev pub states : List State
states =
    created ∷ authorized ∷ settling ∷ confirming ∷ needs_review ∷ settled ∷ failed ∷ canceled ∷ []

abbrev pub actors : List Actor
actors = api ∷ relayer ∷ listener ∷ operator ∷ system ∷ []

unfoldable pub terminal : State → Bool
terminal settled = true
terminal failed = true
terminal canceled = true
terminal _ = false

-- A loop over a list that returns true at the first hit.
unfoldable pub any_state : State → List State → Bool
any_state s [] = false
any_state s (k ∷ ks) = if state_eq s k then true else any_state s ks

unfoldable pub valid : State → Bool
unfolding any_state state_eq
valid s = any_state s states

pub record Rule : Type 0 where
  pub from : State
  pub to : State
  pub by : List Actor
  pub needs_tx_hash : Bool
  pub needs_reason : Bool

abbrev rule : State → State → List Actor → Bool → Bool → Rule
rule f t b h r = record { from = f; to = t; by = b; needs_tx_hash = h; needs_reason = r }

unfoldable pub rules : List Rule
rules =
    rule created authorized (api ∷ []) false false
    ∷ rule created canceled (api ∷ operator ∷ system ∷ []) false true
    ∷ rule authorized settling (relayer ∷ []) false false
    ∷ rule authorized canceled (api ∷ operator ∷ []) false true
    ∷ rule settling confirming (relayer ∷ listener ∷ []) true false
    ∷ rule settling failed (relayer ∷ []) false true
    ∷ rule settling needs_review (relayer ∷ []) false true
    ∷ rule confirming settled (listener ∷ []) true false
    ∷ rule confirming settling (listener ∷ []) false true
    ∷ rule confirming needs_review (listener ∷ []) false true
    ∷ rule needs_review settled (operator ∷ []) true true
    ∷ rule needs_review failed (operator ∷ []) false true
    ∷ []

unfoldable pub find_rule : State → State → List Rule → Option Rule
unfolding state_eq
find_rule f t [] = none
find_rule f t (r ∷ rs) = if state_eq r.from f && state_eq r.to t then some r else find_rule f t rs

-- `Lookup`.
unfoldable pub lookup_rule : State → State → Option Rule
unfolding find_rule rules
lookup_rule f t = find_rule f t rules

unfoldable pub any_actor : Actor → List Actor → Bool
unfolding actor_eq
any_actor a [] = false
any_actor a (b ∷ bs) = if actor_eq b a then true else any_actor a bs

unfoldable pub allows : Rule → Actor → Bool
unfolding any_actor
allows r a = any_actor a r.by
