-- ===== src/Relayer/Steps.antt =====
-- backend/internal/relayer/relayer.go: what `advance` does to a worker's world.
use stablecoin_settlement_en.Common.{
  ℕ, ◌+◌, ◌%◌, ◌≡◌, refl, sym, ap, ◌∙◌, ◌≢◌, ◌⊎◌, inl, inr, Bool, true, false, some, arith, u64,
  ==_iff, Bytes, bytes_eq_iff, Bytes-eq, lookup, lookup-insert, Result, ok, err, Result-cases,
}
use stablecoin_settlement_en.Intent.Machine.{Intent, Request, apply, write, version_conflict}
use stablecoin_settlement_en.Intent.Machine as Machine
use stablecoin_settlement_en.Intent.Store.{Store, swap_allowed, save}
use stablecoin_settlement_en.Intent.Apply.{apply-step, apply_unchanged}
use stablecoin_settlement_en.Intent.Race.{write-id, write-version, save-inv}
use stablecoin_settlement_en.Relayer.World.{World}
use stablecoin_settlement_en.Relayer.Ship.{store_applied, advance}

-- The store holds an intent of this id at another version than the one that was read.
abbrev pub Moved : Intent → Store → Type 0
Moved it s = (cur : Intent) × (lookup it.id s.m ≡ some cur) × (cur.version ≢ it.version)

module _ (sha256 : Bytes → Bytes) where
  save_stale :
      (s : Store) (it cur : Intent) (n : ℕ)
      → lookup it.id s.m ≡ some cur
      → cur.version ≢ n
      → save sha256 s it n ≡ err version_conflict
  unfolding save swap_allowed
  save_stale s it cur n f d = ground (arith, ==_iff cur.version n)

  -- Only the intents change.
  pub advance_frame :
      (it : Intent) (req : Request) (w : World)
      → (s : Store) × ((advance sha256 it req w).0 ≡ record w { intents = s })
  unfolding advance store_applied
  advance_frame it req w = from_apply (apply it req)
    where
      from_save :
          (x : Intent) (a : Result Machine.Error Store)
          → (s : Store) × ((elim a as (λ _. World × Result Machine.Error Intent) [
            | err e ↦ (w, err e)
            | ok s ↦ (record w { intents = s }, ok x)
          ]).0
              ≡ record w { intents = s })
      from_save x (err e) = (w.intents, refl)
      from_save x (ok s) = (s, refl)

      from_apply :
          (a : Result Machine.Error (Intent × Bool))
          → (s : Store) × ((store_applied sha256 it w a).0 ≡ record w { intents = s })
      from_apply (err e) = (w.intents, refl)
      from_apply (ok (x, false)) = (w.intents, refl)
      from_apply (ok (x, true)) = from_save x (save sha256 w.intents x it.version)

  -- A step to another state that went through was saved over the version that was read.
  pub advance_saved :
      (it x : Intent) (req : Request) (w v : World)
      → advance sha256 it req w ≡ (v, ok x)
      → it.state ≢ req.to
      → (x ≡ write it req) × (save sha256 w.intents x it.version ≡ ok v.intents)
  unfolding advance store_applied
  advance_saved it x req w v h moves = elim (Result-cases (apply it req)) [
    | inr (e, a) ↦ absurd (ground arith)
    | inl ((y, false), a) ↦ absurd (moves (apply_unchanged it y req a).1)
    | inl ((y, true), a) ↦ elim (Result-cases (save sha256 w.intents y it.version)) [
      | inr (e, b) ↦ absurd (ground arith)
      | inl (s, b) ↦
          let same : y ≡ x = ground arith in
          let stored : s ≡ v.intents = ground arith in
          ((sym same) ∙ (apply-step it y req a).2, rw (← same, ← stored) b)
    ]
  ]

  -- It left the intent at a version that was not read.
  pub advance-Moved :
      (it x : Intent) (req : Request) (w v : World)
      → advance sha256 it req w ≡ (v, ok x)
      → it.state ≢ req.to
      → (lookup it.id v.intents.m ≡ some x) × Moved it v.intents
  advance-Moved it x req w v h moves =
      let (made, saved) = advance_saved it x req w v h moves in
      let (_, _, m, _) = save-inv sha256 w.intents v.intents x it.version saved in
      let same : x.id ≡ it.id = ap (λ (i : Intent). i.id) made ∙ write-id it req in
      let version : x.version ≡ (it.version + 1) % u64 =
        ap (λ (i : Intent). i.version) made ∙ write-version it req in
      let there : lookup it.id v.intents.m ≡ some x =
        rw m (ground (arith, lookup-insert x.id it.id x w.intents.m, bytes_eq_iff x.id it.id)) in
      (there, (x, there, omega (arith, version)))

  -- On a store where the intent has moved, no step to another state goes through.
  pub advance_stale :
      (it : Intent) (req : Request) (w : World)
      → Moved it w.intents
      → it.state ≢ req.to
      → (e : Machine.Error) × (advance sha256 it req w ≡ (w, err e))
  unfolding advance store_applied
  advance_stale it req w (cur, f, other) moves = elim (Result-cases (apply it req)) [
    | inr (e, a) ↦ (e, ground arith)
    | inl ((y, false), a) ↦ absurd (moves (apply_unchanged it y req a).1)
    | inl ((y, true), a) ↦
        let made = (apply-step it y req a).2 in
        let same : y.id ≡ it.id = ap (λ (i : Intent). i.id) made ∙ write-id it req in
        let refused =
          save_stale w.intents y cur it.version (ap (λ i. lookup i w.intents.m) same ∙ f) other in
        (version_conflict, ground arith)
  ]

  -- A step that is refused leaves the world as it was.
  pub advance_refused :
      (it : Intent) (req : Request) (w v : World) (e : Machine.Error)
      → advance sha256 it req w ≡ (v, err e)
      → v ≡ w
  unfolding advance store_applied
  advance_refused it req w v e h = elim (Result-cases (apply it req)) [
    | inr (f, a) ↦ ground arith
    | inl ((y, false), a) ↦ absurd (ground arith)
    | inl ((y, true), a) ↦ elim (Result-cases (save sha256 w.intents y it.version)) [
      | inr (f, b) ↦ ground arith
      | inl (s, b) ↦ absurd (ground arith)
    ]
  ]

  -- The stored intent stays, or makes the step that was asked for.
  pub advance_onward :
      (it : Intent) (req : Request) (w : World)
      → lookup it.id w.intents.m ≡ some it
      → it.state ≢ req.to
      → (y : Intent) × (lookup it.id (advance sha256 it req w).0.intents.m ≡ some y)
        × ((y ≡ it) ⊎ (y ≡ write it req))
  advance_onward it req w there moves = elim (Result-cases (advance sha256 it req w).1) [
    | inr (e, a) ↦
        let same =
          advance_refused it req w (advance sha256 it req w).0 e
            (ap (λ r. ((advance sha256 it req w).0, r)) a) in
        (it, rw same there, inl refl)
    | inl (x, a) ↦
        let went : advance sha256 it req w ≡ ((advance sha256 it req w).0, ok x) =
          ap (λ r. ((advance sha256 it req w).0, r)) a in
        (
          x,
          (advance-Moved it x req w (advance sha256 it req w).0 went moves).0,
          inr (advance_saved it x req w (advance sha256 it req w).0 went moves).0,
        )
  ]
