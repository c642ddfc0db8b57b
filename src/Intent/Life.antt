-- ===== src/Intent/Life.antt =====
-- The life of an intent: what holds after any accepted requests, in any order, from any actors.
use stablecoin_settlement_en.Common.{
  ℕ, ◌+◌, ◌≡◌, refl, sym, ◌∙◌, ◌⊎◌, inl, inr, Bool, true, false, ◌&&◌, ◌||◌, List, [], ◌∷◌, ◌++◌,
  arith, if◌then◌else◌, Bytes, Bytes-eq, ok,
}
use stablecoin_settlement_en.Intent.State.{
  State, created, settling, confirming, settled, needs_review, operator, state_eq,
}
use stablecoin_settlement_en.Intent.Machine.{Transition, Intent, Request, apply}
use stablecoin_settlement_en.Intent.Legal.{Legal}

-- What `New` makes.
pub record IsNew (it : Intent) : Type 0 where
  pub starts : it.state ≡ created
  pub first : it.version ≡ 1
  pub no_hash : it.tx_hash ≡ []
  pub no_past : it.history ≡ []

-- An intent after any number of accepted changes.
pub data Life : Intent → Type 0 where
  born : (it : Intent) → IsNew it → Life it
  moved : (it x : Intent) (req : Request) → Life it → apply it req ≡ ok (x, true) → Life x

-- The history leads from one state to the other by steps of the diagram.
abbrev pub Linked : State → List Transition → State → Type 0
Linked s [] t = s ≡ t
Linked s (x ∷ xs) t = (x.from ≡ s) × Legal x.from x.to x.by x.tx_hash x.reason × Linked x.to xs t

pub Linked-snoc :
    (s u : State) (xs : List Transition) (x : Transition)
    → Linked s xs u
    → x.from ≡ u
    → Legal x.from x.to x.by x.tx_hash x.reason
    → Linked s (xs ++ x ∷ []) x.to
Linked-snoc s u [] x p e l = (e ∙ sym p, l, refl)
Linked-snoc s u (y ∷ xs) x p e l = (p.0, p.1, Linked-snoc y.to u xs x p.2 e l)

-- Someone reported the transaction in a block, or an operator named it as the payment.
abbrev pub Vouches : Bytes → Transition → Type 0
Vouches tx x = (x.tx_hash ≡ tx) × ((x.to ≡ confirming) ⊎ ((x.to ≡ settled) × (x.by ≡ operator)))

abbrev pub Vouched : Bytes → List Transition → Type 0
Vouched tx [] = ⊥
Vouched tx (x ∷ xs) = Vouches tx x ⊎ Vouched tx xs

pub Vouched-append : (tx : Bytes) (xs ys : List Transition) → Vouched tx xs → Vouched tx (xs ++ ys)
Vouched-append tx [] ys c = absurd c
Vouched-append tx (x ∷ xs) ys (inl c) = inl c
Vouched-append tx (x ∷ xs) ys (inr c) = inr (Vouched-append tx xs ys c)

pub Vouched-last :
    (tx : Bytes) (xs : List Transition) (x : Transition) → Vouches tx x → Vouched tx (xs ++ x ∷ [])
Vouched-last tx [] x c = inl c
Vouched-last tx (y ∷ xs) x c = inr (Vouched-last tx xs x c)

-- How often the history enters `settling`, and how often a reorg sends it back there.
unfoldable pub sends : List Transition → ℕ
unfolding state_eq
sends [] = 0
sends (x ∷ xs) = (if state_eq x.to settling then 1 else 0) + sends xs

unfoldable pub reorgs : List Transition → ℕ
unfolding state_eq
reorgs [] = 0
reorgs (x ∷ xs) =
    (if state_eq x.from confirming && state_eq x.to settling then 1 else 0) + reorgs xs

-- The history has been handed to a person.
unfoldable pub reviewed : List Transition → Bool
unfolding state_eq
reviewed [] = false
reviewed (x ∷ xs) = if state_eq x.to needs_review then true else reviewed xs

pub sends-append : (xs ys : List Transition) → sends (xs ++ ys) ≡ sends xs + sends ys
unfolding sends
sends-append [] ys = omega arith
sends-append (x ∷ xs) ys = omega (arith, sends-append xs ys)

pub reorgs-append : (xs ys : List Transition) → reorgs (xs ++ ys) ≡ reorgs xs + reorgs ys
unfolding reorgs
reorgs-append [] ys = omega arith
reorgs-append (x ∷ xs) ys = omega (arith, reorgs-append xs ys)

pub reviewed-append : (xs ys : List Transition) → reviewed (xs ++ ys) ≡ (reviewed xs || reviewed ys)
unfolding reviewed
reviewed-append [] ys = refl
reviewed-append (x ∷ xs) ys = ground (arith, reviewed-append xs ys)
