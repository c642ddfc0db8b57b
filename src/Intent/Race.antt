-- ===== src/Intent/Race.antt =====
-- backend/internal/intent/store.go: what compare-and-swap gives to those who race for one intent.
use stablecoin_settlement_en.Common.{
  ℕ, ◌+◌, ◌%◌, ◌≡◌, refl, sym, ap, ◌∙◌, ◌≢◌, inl, inr, Bool, true, false, some, arith, u64, ==_iff,
  Option-cases, Bytes, bytes_eq_iff, Bytes-eq, lookup, insert, lookup-insert, ok, err,
}
use stablecoin_settlement_en.Paymentref.{derive}
use stablecoin_settlement_en.Intent.Machine.{Intent, Request, apply, write, version_conflict}
use stablecoin_settlement_en.Intent.Legal.{Legal}
use stablecoin_settlement_en.Intent.Apply.{apply-step}
use stablecoin_settlement_en.Intent.Create.{terms, with_ref}
use stablecoin_settlement_en.Intent.Store.{Store, get, swap_allowed, save, write_back, advance}

pub write-terms : (it : Intent) (req : Request) → terms (write it req) ≡ terms it
unfolding write terms
write-terms it req = refl

pub write-id : (it : Intent) (req : Request) → (write it req).id ≡ it.id
unfolding write
write-id it req = refl

pub write-ref : (it : Intent) (req : Request) → (write it req).ref ≡ it.ref
unfolding write
write-ref it req = refl

pub write-version : (it : Intent) (req : Request) → (write it req).version ≡ (it.version + 1) % u64
unfolding write
write-version it req = refl

module _ (sha256 : Bytes → Bytes) where
  -- What a store holds that only `Save` wrote: each intent under its own id, with its own ref.
  pub record StoreWf (s : Store) : Type 0 where
    pub under_id : (id : Bytes) (it : Intent) → lookup id s.m ≡ some it → it.id ≡ id
    pub own_ref :
        (id : Bytes) (it : Intent) → lookup id s.m ≡ some it → it.ref ≡ derive sha256 (terms it)

  pub save-inv :
      (s t : Store) (it : Intent) (n : ℕ)
      → save sha256 s it n ≡ ok t
      → (swap_allowed (lookup it.id s.m) n ≡ true)
        × (it.ref ≡ derive sha256 (terms it))
        × (t.m ≡ insert it.id it s.m)
        × (t.by_ref ≡ insert it.ref it.id s.by_ref)
  unfolding save
  save-inv s t it n h = ground (arith, bytes_eq_iff it.ref (derive sha256 (terms it)))

  save-StoreWf :
      (s t : Store) (it : Intent) (n : ℕ) → StoreWf s → save sha256 s it n ≡ ok t → StoreWf t
  save-StoreWf s t it n w h =
      let (_, own, m, _) = save-inv s t it n h in
      record {
        under_id = λ id x e.
            ground
              (arith, m, lookup-insert it.id id it s.m, bytes_eq_iff it.id id, w.under_id id x);
        own_ref = λ id x e.
            ground (arith, m, lookup-insert it.id id it s.m, bytes_eq_iff it.id id, w.own_ref id x);
      }

  -- Of two writers that read the same version, the second is refused, whatever it wants to write:
  -- the first write moved the version on.
  pub save_race :
      (s t : Store) (it other : Intent) (n : ℕ)
      → save sha256 s it n ≡ ok t
      → it.version ≢ n
      → other.id ≡ it.id
      → save sha256 t other n ≡ err version_conflict
  unfolding save
  save_race s t it other n h moved same =
      let (_, _, m, _) = save-inv s t it n h in
      ground (
        arith,
        m,
        lookup-insert it.id other.id it s.m,
        bytes_eq_iff it.id other.id,
        ==_iff it.version n,
      )

  -- Two actors read one intent, and `Apply` lets both move it: once the first has saved, the
  -- second cannot.
  pub advance_race :
      (s t : Store) (it x y : Intent) (first second : Request)
      → apply it first ≡ ok (x, true)
      → apply it second ≡ ok (y, true)
      → save sha256 s x it.version ≡ ok t
      → save sha256 t y it.version ≡ err version_conflict
  advance_race s t it x y first second p q h =
      let (_, _, e) = apply-step it x first p in
      let (_, _, f) = apply-step it y second q in
      save_race s t x y it.version h
        (omega (arith, ap (λ (i : Intent). i.version) e, write-version it first))
        (ap (λ (i : Intent). i.id) f
          ∙ write-id it second
          ∙ sym (write-id it first)
          ∙ sym (ap (λ (i : Intent). i.id) e))

  pub advance-inv :
      (s t : Store) (id : Bytes) (req : Request) (x : Intent) (b : Bool)
      → advance sha256 s id req ≡ ok (t, x, b)
      → (it : Intent) × (lookup id s.m ≡ some it)
        × (apply it req ≡ ok (x, b))
        × (b ≡ true → save sha256 s x it.version ≡ ok t)
        × (b ≡ false → t ≡ s)
  unfolding advance get write_back
  advance-inv s t id req x b h = elim (Option-cases (lookup id s.m)) [
    | inl e ↦ absurd (ground arith)
    | inr (it, e) ↦ (it, e, ground arith, ground arith, ground arith)
  ]

  -- An `Advance` that changed something made one step of the diagram on the stored intent and
  -- wrote it back under its id, and touched no other intent.
  pub advance-step :
      (s t : Store) (id : Bytes) (req : Request) (x : Intent)
      → StoreWf s
      → advance sha256 s id req ≡ ok (t, x, true)
      → (it : Intent) × (lookup id s.m ≡ some it)
        × Legal it.state req.to req.by req.tx_hash req.reason
        × (x ≡ write it req)
        × (lookup id t.m ≡ some x)
        × ((j : Bytes) → j ≢ id → lookup j t.m ≡ lookup j s.m)
  advance-step s t id req x w h =
      let (it, e, a, saved, _) = advance-inv s t id req x true h in
      let (l, _, made) = apply-step it x req a in
      let (_, _, m, _) = save-inv s t x it.version (saved refl) in
      let same : x.id ≡ id =
        ap (λ (i : Intent). i.id) made ∙ write-id it req ∙ w.under_id id it e in
      (
        it,
        e,
        l,
        made,
        ground (arith, m, lookup-insert x.id id x s.m, bytes_eq_iff x.id id),
        λ j n. ground (arith, m, lookup-insert x.id j x s.m, bytes_eq_iff x.id j),
      )

  -- `Save` compares the ref with the terms of the intent that is written, and neither with what
  -- is stored: at the right version it replaces the terms of a payment and its ref with them.
  pub save-with_ref :
      (s : Store) (cur it : Intent)
      → lookup it.id s.m ≡ some cur
      → (t : Store) × (save sha256 s (with_ref sha256 it) cur.version ≡ ok t)
        × (lookup it.id t.m ≡ some (with_ref sha256 it))
  unfolding save swap_allowed with_ref terms
  save-with_ref s cur it e = (
    record {
      m = insert it.id (with_ref sha256 it) s.m;
      by_ref = insert (derive sha256 (terms it)) it.id s.by_ref;
    },
    ground (
      arith,
      ==_iff cur.version cur.version,
      bytes_eq_iff (derive sha256 (terms it)) (derive sha256 (terms it)),
    ),
    ground (arith, lookup-insert it.id it.id (with_ref sha256 it) s.m, bytes_eq_iff it.id it.id),
  )
