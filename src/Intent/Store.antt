-- ===== src/Intent/Store.antt =====
-- backend/internal/intent/store.go: the compare-and-swap store, in memory.
-- `Clone` keeps callers from sharing a stored intent; values have no aliases here.
use stablecoin_settlement_en.Common.{
  ℕ, Bool, true, false, ◌&&◌, ◌||◌, Option, none, some, List, [], ◌∷◌, ltb, ◌==◌, if◌then◌else◌,
  not, Bytes, ◌=?◌, Bytes-eq, Dict, lookup, insert, Result, ok, err, ◌>>=◌, ◌>>◌, refuse_if,
}
use stablecoin_settlement_en.Paymentref.{Ref, derive}
use stablecoin_settlement_en.Intent.State.{State, any_state}
use stablecoin_settlement_en.Intent.Machine.{
  Intent, Request, Error, apply, not_found, version_conflict, ref_mismatch,
}
use stablecoin_settlement_en.Intent.Create.{terms}

pub record Store : Type 0 where
  pub m : Dict Bytes Intent
  pub by_ref : Dict Ref Bytes

-- `NewMemoryStore`.
unfoldable pub empty : Store
empty = record { m = []; by_ref = [] }

abbrev pub found {ℓ} : {A : Type ℓ} → Option A → Result Error A
found none = err not_found
found (some a) = ok a

unfoldable pub get : Store → Bytes → Result Error Intent
get s id = found (lookup id s.m)

-- The second lookup's nil would be cloned to nil; `none` there is `not_found` here.
unfoldable pub get_by_ref : Store → Ref → Result Error Intent
get_by_ref s ref = do id ← found (lookup ref s.by_ref); found (lookup id s.m)

-- The order of Go's strings, by bytes.
unfoldable pub bytes_lt : Bytes → Bytes → Bool
bytes_lt [] [] = false
bytes_lt [] (y ∷ ys) = true
bytes_lt (x ∷ xs) [] = false
bytes_lt (x ∷ xs) (y ∷ ys) = ltb x y || (x == y && bytes_lt xs ys)

insert_by_id : Intent → List Intent → List Intent
unfolding bytes_lt
insert_by_id it [] = it ∷ []
insert_by_id it (x ∷ xs) = if bytes_lt x.id it.id then x ∷ insert_by_id it xs else it ∷ x ∷ xs

-- The loop over the map, its results sorted by id.
unfoldable pub select : List State → Dict Bytes Intent → List Intent
unfolding insert_by_id any_state
select states [] = []
select states ((id, it) ∷ m) =
    let rest = select states m in if any_state it.state states then insert_by_id it rest else rest

unfoldable pub by_state : Store → List State → List Intent
unfolding select
by_state s states = select states s.m

-- The test of `Save`: what is stored against what the writer read.
unfoldable pub swap_allowed : Option Intent → ℕ → Bool
swap_allowed none expected = expected == 0
swap_allowed (some cur) expected = cur.version == expected

module _ (sha256 : Bytes → Bytes) where
  unfoldable pub save : Store → Intent → ℕ → Result Error Store
  unfolding swap_allowed
  save s it expected = do
    refuse_if (not (swap_allowed (lookup it.id s.m) expected)) version_conflict
    refuse_if (not (it.ref =? derive sha256 (terms it))) ref_mismatch
    ok (record { m = insert it.id it s.m; by_ref = insert it.ref it.id s.by_ref })

  -- The write of `Advance`, and of the relayer's `advance`, after `Apply`.
  unfoldable pub write_back : Store → ℕ → Intent × Bool → Result Error (Store × Intent × Bool)
  unfolding save
  write_back s expected (it, false) = ok (s, it, false)
  write_back s expected (it, true) = do s' ← save s it expected; ok (s', it, true)

  -- An error leaves the store as it was.
  unfoldable pub advance : Store → Bytes → Request → Result Error (Store × Intent × Bool)
  unfolding get write_back
  advance s id req = do it ← get s id; r ← apply it req; write_back s it.version r
