-- ===== src/Intent/Invariant.antt =====
-- backend/internal/intent: the invariant of an intent and what it says of its money.
use stablecoin_settlement_en.Common.{
  ℕ, ◌+◌, ◌%◌, ◌≤◌, ◌≡◌, refl, ◌≢◌, ◌⊎◌, inl, inr, Bool, true, false, ◌&&◌, ◌||◌, List, [], ◌∷◌,
  ◌++◌, arith, u64, if◌then◌else◌, length, length-append, Bytes, Bytes-eq,
}
use stablecoin_settlement_en.Intent.State.{
  State, Actor, created, authorized, settling, confirming, settled, failed, canceled, needs_review,
  state_eq,
}
use stablecoin_settlement_en.Intent.Machine.{Transition, Intent, Request, write, next_tx_hash}
use stablecoin_settlement_en.Intent.Legal.{
  Legal, Guarded, authorize, cancel_api, cancel_operator, cancel_system, settle, withdraw_api,
  withdraw_operator, include_relayer, include_listener, finalize, reorg, judge_paid,
}
use stablecoin_settlement_en.Intent.Apply.{apply-step}
use stablecoin_settlement_en.Intent.Life.{
  IsNew, Life, born, moved, Linked, Linked-snoc, Vouched, Vouched-append, Vouched-last, sends,
  sends-append, reorgs, reorgs-append, reviewed, reviewed-append,
}

-- The states in which the record holds no transaction, and those in which it holds one.
abbrev off_chain : State → Bool
off_chain created = true
off_chain authorized = true
off_chain settling = true
off_chain canceled = true
off_chain _ = false

abbrev on_chain : State → Bool
on_chain confirming = true
on_chain settled = true
on_chain _ = false

abbrev unsent : State → Bool
unsent created = true
unsent authorized = true
unsent _ = false

-- Where a person has been asked, only a verdict is left.
abbrev judged : State → Bool
judged needs_review = true
judged settled = true
judged failed = true
judged _ = false

-- The state's part of the invariant, over the hash and the history.
pub record Sound (s : State) (tx : Bytes) (past : List Transition) : Type 0 where
  pub hash_off : off_chain s ≡ true → tx ≡ []
  pub hash_on : on_chain s ≡ true → tx ≢ []
  pub seen : tx ≢ [] → Vouched tx past
  pub budget : sends past ≤ reorgs past + 1
  pub none_sent : unsent s ≡ true → sends past ≡ 0
  pub asked : reviewed past ≡ true → judged s ≡ true

pub record Wf (it : Intent) : Type 0 where
  pub linked : Linked created it.history it.state
  pub counted : it.version ≡ (1 + length it.history) % u64
  pub sound : Sound it.state it.tx_hash it.history

-- One step, with the new entry at the end of the history.
module _ (old : Bytes) (past : List Transition) (at : ℕ) (tx why : Bytes) where
  made : State → State → Actor → List Transition
  made s t a = past ++ record { from = s; to = t; by = a; at = at; tx_hash = tx; reason = why } ∷ []

  sends-made :
      (s t : State) (a : Actor)
      → sends (made s t a) ≡ sends past + (if state_eq t settling then 1 else 0)
  unfolding sends made
  sends-made s t a = omega (
    arith,
    sends-append past
        (record { from = s; to = t; by = a; at = at; tx_hash = tx; reason = why } ∷ []),
  )

  reorgs-made :
      (s t : State) (a : Actor)
      → reorgs (made s t a)
        ≡ reorgs past + (if state_eq s confirming && state_eq t settling then 1 else 0)
  unfolding reorgs made
  reorgs-made s t a = omega (
    arith,
    reorgs-append past
        (record { from = s; to = t; by = a; at = at; tx_hash = tx; reason = why } ∷ []),
  )

  reviewed-made :
      (s t : State) (a : Actor) → reviewed (made s t a) ≡ (reviewed past || state_eq t needs_review)
  unfolding reviewed made
  reviewed-made s t a = ground (
    arith,
    reviewed-append past
        (record { from = s; to = t; by = a; at = at; tx_hash = tx; reason = why } ∷ []),
  )

  step-hash :
      (s t : State) (a : Actor)
      → Legal s t a tx why
      → Sound s old past
      → (off_chain t ≡ true → next_tx_hash t old tx ≡ [])
        × (on_chain t ≡ true → next_tx_hash t old tx ≢ [])
  unfolding next_tx_hash
  step-hash s t a (include_relayer h) w = (λ e. cc, λ _. h)
  step-hash s t a (include_listener h) w = (λ e. cc, λ _. h)
  step-hash s t a (finalize h) w = (λ e. cc, λ _. h)
  step-hash s t a (judge_paid h k) w = (λ e. cc, λ _. h)
  step-hash s t a authorize w = (λ _. w.hash_off refl, λ e. cc)
  step-hash s t a (cancel_api h) w = (λ _. w.hash_off refl, λ e. cc)
  step-hash s t a (cancel_operator h) w = (λ _. w.hash_off refl, λ e. cc)
  step-hash s t a (cancel_system h) w = (λ _. w.hash_off refl, λ e. cc)
  step-hash s t a settle w = (λ _. refl, λ e. cc)
  step-hash s t a (reorg h) w = (λ _. refl, λ e. cc)
  step-hash s t a (withdraw_api h) w = (λ _. w.hash_off refl, λ e. cc)
  step-hash s t a (withdraw_operator h) w = (λ _. w.hash_off refl, λ e. cc)
  step-hash s t a _ w = (λ e. cc, λ e. cc)

  step-counts :
      (s t : State) (a : Actor)
      → Legal s t a tx why
      → Sound s old past
      → (sends (made s t a) ≤ reorgs (made s t a) + 1)
        × (unsent t ≡ true → sends (made s t a) ≡ 0)
        × (reviewed (made s t a) ≡ true → judged t ≡ true)
  unfolding state_eq
  step-counts s t a settle w =
      ground (arith, w.none_sent, w.asked, sends-made s t a, reorgs-made s t a, reviewed-made s t a)
  step-counts s t a _ w =
      ground (arith, w.none_sent, w.asked, sends-made s t a, reorgs-made s t a, reviewed-made s t a)

  step-seen :
      (s t : State) (a : Actor)
      → Legal s t a tx why
      → (t ≡ settled → old ≢ [] → old ≡ tx)
      → Sound s old past
      → next_tx_hash t old tx ≢ []
      → Vouched (next_tx_hash t old tx) (made s t a)
  unfolding next_tx_hash made
  step-seen s t a (include_relayer h) g w e = Vouched-last tx past _ (refl, inl refl)
  step-seen s t a (include_listener h) g w e = Vouched-last tx past _ (refl, inl refl)
  step-seen s t a (finalize h) g w e =
      let known : old ≢ [] = w.hash_on refl in
      rw (← g refl known) (Vouched-append old past _ (w.seen known))
  step-seen s t a (judge_paid h k) g w e = Vouched-last tx past _ (refl, inr (refl, refl))
  step-seen s t a settle g w e = absurd (e refl)
  step-seen s t a (reorg h) g w e = absurd (e refl)
  step-seen s t a _ g w e = Vouched-append old past _ (w.seen e)

  step-Sound :
      (s t : State) (a : Actor)
      → Legal s t a tx why
      → (t ≡ settled → old ≢ [] → old ≡ tx)
      → Sound s old past
      → Sound t (next_tx_hash t old tx) (made s t a)
  step-Sound s t a l g w =
      let (off, on) = step-hash s t a l w in
      let (b, n, q) = step-counts s t a l w in
      record {
        hash_off = off;
        hash_on = on;
        seen = step-seen s t a l g w;
        budget = b;
        none_sent = n;
        asked = q;
      }

IsNew-Wf : (it : Intent) → IsNew it → Wf it
unfolding sends reorgs reviewed
IsNew-Wf it n = record {
  linked = rw (n.no_past, n.starts) refl;
  counted = rw (n.no_past, n.first) refl;
  sound =
      rw (n.no_past, n.starts, n.no_hash)
        (record {
          hash_off = λ _. refl;
          hash_on = λ e. cc;
          seen = λ e. absurd (e refl);
          budget = omega arith;
          none_sent = λ _. refl;
          asked = λ e. cc;
        });
}

write-Wf :
    (it : Intent) (req : Request)
    → Legal it.state req.to req.by req.tx_hash req.reason
    → Guarded it req
    → Wf it
    → Wf (write it req)
unfolding write made
write-Wf it req l g w = record {
  linked = Linked-snoc created it.state it.history _ w.linked refl l;
  counted = omega (
    arith,
    w.counted,
    length-append it.history (
        record {
          from = it.state;
          to = req.to;
          by = req.by;
          at = req.at;
          tx_hash = req.tx_hash;
          reason = req.reason;
        }
        ∷ []),
  );
  sound =
      step-Sound it.tx_hash it.history req.at req.tx_hash req.reason it.state req.to req.by l
        g.same_hash w.sound;
}

-- Every intent that `New` made and `Apply` moved, in any order and by any actors, has a history
-- that is a walk of the diagram from `created` to its state, a version that counts its steps, and
-- a transaction hash that fits its state.
pub Life-Wf : {it : Intent} → Life it → Wf it
Life-Wf (born it n) = IsNew-Wf it n
Life-Wf (moved it x req l h) =
    let (legal, g, e) = apply-step it x req h in rw e (write-Wf it req legal g (Life-Wf l))

-- The history of an intent that `New` made and `Apply` moved enters settling at most once, and once
-- more for each of its steps from confirming back to settling.
pub sends_bounded : {it : Intent} → Life it → sends it.history ≤ reorgs it.history + 1
sends_bounded l = (Life-Wf l).sound.budget

-- An intent that `New` made and `Apply` moved, and whose history holds a step into needs_review, is
-- in needs_review, settled or failed.
pub reviewed-judged :
    {it : Intent}
    → Life it
    → reviewed it.history ≡ true
    → (it.state ≡ needs_review) ⊎ (it.state ≡ settled) ⊎ (it.state ≡ failed)
reviewed-judged {it} l r = judged_cases it.state ((Life-Wf l).sound.asked r)
  where
    judged_cases : (s : State) → judged s ≡ true → (s ≡ needs_review) ⊎ (s ≡ settled) ⊎ (s ≡ failed)
    judged_cases s h = ground arith

-- A settled intent names a transaction that was reported in a block or named by an operator.
pub settled-Vouched :
    {it : Intent} → Life it → it.state ≡ settled → (it.tx_hash ≢ []) × Vouched it.tx_hash it.history
settled-Vouched {it} l s =
    let w = (Life-Wf l).sound in
    let known : it.tx_hash ≢ [] = w.hash_on (rw s) in (known, w.seen known)
