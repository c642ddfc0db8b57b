-- ===== src/Intent/Reached.antt =====
-- backend/internal/intent: the stores that `New`, `Save` and `Advance` build.
use stablecoin_settlement_en.Common.{
  ℕ, ◌≡◌, refl, sym, ap, ◌∙◌, inl, inr, Bool, true, false, none, some, arith, Bool-cases,
  Option-cases, Bytes, ◌=?◌, bytes_eq_iff, Bytes-eq, lookup, insert, lookup-insert, ok,
}
use stablecoin_settlement_en.Paymentref.{Ref, derive}
use stablecoin_settlement_en.Intent.Machine.{Intent, Request}
use stablecoin_settlement_en.Intent.Apply.{apply-step}
use stablecoin_settlement_en.Intent.Life.{Life, IsNew, born, moved}
use stablecoin_settlement_en.Intent.Create.{Spec, terms, new}
use stablecoin_settlement_en.Intent.Store.{Store, empty, get_by_ref, save, advance}
use stablecoin_settlement_en.Intent.Race.{save-inv, advance-inv, write-id, write-ref}

module _ (sha256 : Bytes → Bytes) where
  -- Any number of new payments under fresh ids, and of advances of stored ones.
  pub data Reached : Store → Type 0 where
    start : Reached empty
    create :
        (s t : Store) (spec : Spec) (now : ℕ) (it : Intent)
        → Reached s
        → new sha256 spec now ≡ ok it
        → lookup it.id s.m ≡ none
        → save sha256 s it 0 ≡ ok t
        → Reached t
    advanced :
        (s t : Store) (id : Bytes) (req : Request) (x : Intent) (b : Bool)
        → Reached s
        → advance sha256 s id req ≡ ok (t, x, b)
        → Reached t

  new-IsNew : (spec : Spec) (now : ℕ) (it : Intent) → new sha256 spec now ≡ ok it → IsNew it
  unfolding new
  new-IsNew spec now it h = ground arith

  -- What is true of each stored intent, and of the index.
  pub record Kept (s : Store) : Type 0 where
    pub lives : (id : Bytes) (it : Intent) → lookup id s.m ≡ some it → Life it
    pub under_id : (id : Bytes) (it : Intent) → lookup id s.m ≡ some it → it.id ≡ id
    pub own_ref :
        (id : Bytes) (it : Intent) → lookup id s.m ≡ some it → it.ref ≡ derive sha256 (terms it)
    pub indexed :
        (ref id : Bytes)
        → lookup ref s.by_ref ≡ some id
        → (it : Intent) × (lookup id s.m ≡ some it) × (it.ref ≡ ref)

  save-indexed :
      (s t : Store) (x : Intent)
      → Kept s
      → ((cur : Intent) → lookup x.id s.m ≡ some cur → cur.ref ≡ x.ref)
      → t.m ≡ insert x.id x s.m
      → t.by_ref ≡ insert x.ref x.id s.by_ref
      → (ref id : Bytes) → lookup ref t.by_ref ≡ some id
      → (it : Intent) × (lookup id t.m ≡ some it) × (it.ref ≡ ref)
  save-indexed s t x k same m r ref id h = elim (Bool-cases (x.ref =? ref)) [
    | inl new ↦ (
      x,
      ground (
        arith,
        m,
        r,
        lookup-insert x.ref ref x.id s.by_ref,
        lookup-insert x.id id x s.m,
        bytes_eq_iff x.id id,
      ),
      (bytes_eq_iff x.ref ref).0 new,
    )
    | inr old ↦
        let before : lookup ref s.by_ref ≡ some id =
          ground (arith, r, lookup-insert x.ref ref x.id s.by_ref) in
        let (it, e, own) = k.indexed ref id before in
        elim (Bool-cases (x.id =? id)) [
          | inl here ↦ (
            x,
            ground (arith, m, lookup-insert x.id id x s.m),
            ground (arith, same it, bytes_eq_iff x.id id),
          )
          | inr there ↦ (it, ground (arith, m, lookup-insert x.id id x s.m), own)
        ]
  ]

  save-Kept :
      (s t : Store) (x : Intent) (n : ℕ)
      → Kept s
      → Life x
      → ((cur : Intent) → lookup x.id s.m ≡ some cur → cur.ref ≡ x.ref)
      → save sha256 s x n ≡ ok t
      → Kept t
  save-Kept s t x n k life same h =
      let (_, own, m, r) = save-inv sha256 s t x n h in
      record {
        lives = λ id it e. elim (Bool-cases (x.id =? id)) [
          | inl here ↦
              let same_it : x ≡ it = ground (arith, m, lookup-insert x.id id x s.m) in
              rw (← same_it) life
          | inr there ↦ k.lives id it (ground (arith, m, lookup-insert x.id id x s.m))
        ];
        under_id = λ id it e.
            ground (arith, m, lookup-insert x.id id x s.m, bytes_eq_iff x.id id, k.under_id id it);
        own_ref = λ id it e. ground (arith, m, lookup-insert x.id id x s.m, k.own_ref id it);
        indexed = save-indexed s t x k same m r;
      }

  advanced-Kept :
      (s t : Store) (id : Bytes) (req : Request) (x : Intent) (b : Bool)
      → Kept s
      → advance sha256 s id req ≡ ok (t, x, b)
      → Kept t
  advanced-Kept s t id req x false k h =
      let (_, _, _, _, unchanged) = advance-inv sha256 s t id req x false h in rw (unchanged refl) k
  advanced-Kept s t id req x true k h =
      let (it, e, a, saved, _) = advance-inv sha256 s t id req x true h in
      let (_, _, made) = apply-step it x req a in
      let same_id : x.id ≡ id =
        ap (λ (i : Intent). i.id) made ∙ write-id it req ∙ k.under_id id it e in
      let same_ref : x.ref ≡ it.ref = ap (λ (i : Intent). i.ref) made ∙ write-ref it req in
      save-Kept s t x it.version k (moved it x req (k.lives id it e) a) (λ cur c. ground arith)
        (saved refl)

  empty-Kept : Kept empty
  unfolding empty lookup
  empty-Kept = record {
    lives = λ id it e. absurd (ground arith);
    under_id = λ id it e. absurd (ground arith);
    own_ref = λ id it e. absurd (ground arith);
    indexed = λ ref id e. absurd (ground arith);
  }

  -- In every store that the payments' own operations build, each intent lies under its id, has
  -- the life that the diagram allows, and keeps the ref of its terms; the index by ref is right.
  pub Reached-Kept : {s : Store} → Reached s → Kept s
  Reached-Kept start = empty-Kept
  Reached-Kept (create s t spec now it r made fresh h) =
      save-Kept s t it 0 (Reached-Kept r) (born it (new-IsNew spec now it made))
        (λ cur c. absurd (ground arith)) h
  Reached-Kept (advanced s t id req x b r h) = advanced-Kept s t id req x b (Reached-Kept r) h

  -- What a ref finds is the payment of that ref, and it still has the terms that the ref commits to.
  pub get_by_ref_sound :
      {s : Store} (ref : Ref) (it : Intent)
      → Reached s
      → get_by_ref s ref ≡ ok it
      → (it.ref ≡ ref) × (ref ≡ derive sha256 (terms it)) × Life it
  unfolding get_by_ref
  get_by_ref_sound {s} ref it r h =
      let k = Reached-Kept r in
      elim (Option-cases (lookup ref s.by_ref)) [
        | inl e ↦ absurd (ground arith)
        | inr (id, e) ↦
            let (x, f, own) = k.indexed ref id e in
            let same : x ≡ it = ground arith in
            rw (← same) (own, sym own ∙ k.own_ref id x f, k.lives id x f)
      ]
