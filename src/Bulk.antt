-- ===== src/Bulk.antt =====
-- backend/internal/bulk: a payout run is cut into batches that each fit one transaction.
-- A uint64 sum wraps at 2 ^ 64, as in the source. Lengths stay far below 2 ^ 63. `no_plan` is what
-- becomes of an Align of 2 ^ 63 or more, whose int is negative: the code does not end, panics, or
-- refuses, and makes no plan.
use stablecoin_settlement_en.Common.{
  ℕ, zero, suc, ◌+◌, ◌-◌, ◌*◌, ◌/◌, ◌%◌, ◌^◌, Bool, true, false, ◌&&◌, ◌||◌, Option, none, some,
  List, [], ◌∷◌, ◌++◌, map, u64, ltb, leb, ◌==◌, if◌then◌else◌, not, length, take, drop, Bytes,
  Result, ok, err, ◌>>=◌, ◌>>◌, refuse_if,
}
use stablecoin_settlement_en.Common.Int.{ℤ}
use stablecoin_settlement_en.Paymentref.{Ref}
pub mod Joins
pub mod Caps

pub record Payout : Type 0 where
  pub ref : Ref
  pub merchant : Bytes
  pub amount : Option ℤ
  pub new_token_account : Bool

pub record Usage : Type 0 where
  pub unit : Bytes
  pub used : ℕ
  pub cap : ℕ

pub record Batch : Type 0 where
  pub index : ℕ
  pub items : List Payout
  pub used : List Usage
  pub prep : Bool
  pub new_accounts : ℕ

pub record Rule : Type 0 where
  pub unit : Bytes
  pub cap : ℕ
  pub base : ℕ
  pub item : ℕ
  pub per_level : ℕ

pub record Limits : Type 0 where
  pub chain : Bytes
  pub rules : List Rule
  pub align : ℕ
  pub prepare_rules : List Rule
  pub new_account_rent : ℕ
  pub rent_unit : Bytes

pub record Plan : Type 0 where
  pub chain : Bytes
  pub payouts : ℕ
  pub prepare : List Batch
  pub batches : List Batch
  pub levels : ℕ
  pub proof_hashes : ℕ
  pub new_accounts : ℕ
  pub rent : ℕ
  pub rent_unit : Bytes

pub data Error : Type 0 where
  empty_run no_rules item_too_large block_too_large no_plan : Error

-- A rule that one item alone breaks.
unfoldable pub too_large : List Rule → Bool
too_large [] = false
too_large (r ∷ rs) = ltb r.cap ((r.base + r.item) % u64) || too_large rs

-- `fitsRules`: one more item does not break a rule. `used` goes along with the rules.
unfoldable pub fits_rules : List ℕ → List Rule → Bool
fits_rules (u ∷ us) (r ∷ rs) =
    let rest = fits_rules us rs in
    if ltb r.cap (((r.base + u) % u64 + r.item) % u64) then false else rest
fits_rules us rs = true

-- One more item in the current batch.
unfoldable pub add_item : List ℕ → List Rule → List ℕ
add_item (u ∷ us) (r ∷ rs) = (u + r.item) % u64 ∷ add_item us rs
add_item us rs = []

abbrev pub unused : List Rule → List ℕ
unused rs = map (λ r. 0) rs

unfoldable pub usages : List ℕ → List Rule → List Usage
usages (u ∷ us) (r ∷ rs) =
    record { unit = r.unit; used = (r.base + u) % u64; cap = r.cap } ∷ usages us rs
usages us rs = []

-- `seal` and `sealPrep`.
unfoldable pub seal : Bool → List Payout → List ℕ → List Rule → ℕ → Batch
unfolding usages
seal prep items used rules index = record {
  index = index;
  items = items;
  used = usages used rules;
  prep = prep;
  new_accounts = if prep then length items else 0;
}

abbrev pub started : List Payout → Bool
started [] = false
started (it ∷ its) = true

abbrev pub cons_batch : Batch → Result Error (List Batch) → Result Error (List Batch)
cons_batch b (err e) = err e
cons_batch b (ok bs) = ok (b ∷ bs)

-- The loop of `packGreedy` and of `packPrepare`: `current` is the batch that is being filled, with
-- its `used` and its index.
unfoldable pub greedy :
    Bool → List Rule → List Payout → List Payout → List ℕ → ℕ → Result Error (List Batch)
unfolding too_large fits_rules add_item seal
greedy prep rules [] current used index = ok (seal prep current used rules index ∷ [])
greedy prep rules (it ∷ its) current used index =
    let cut = greedy prep rules its (it ∷ []) (add_item (unused rules) rules) (index + 1) in
    let filled = greedy prep rules its (current ++ it ∷ []) (add_item used rules) index in
    if too_large rules
    then err item_too_large
    else if started current && not (fits_rules used rules)
    then cons_batch (seal prep current used rules index) cut
    else filled

-- `packGreedy`.
unfoldable pub pack_greedy : List Payout → Limits → Result Error (List Batch)
unfolding greedy
pack_greedy items l = greedy false l.rules items [] (unused l.rules) 1

-- The loop that doubles the width, with how often it still runs at most.
unfoldable pub widen : ℕ → ℕ → ℕ → ℕ
widen zero n width = width
widen (suc k) n width =
    let further = widen k n (width * 2) in if ltb width n then further else width

-- `bits.Len` of a number below 2 ^ fuel.
unfoldable pub bit_length : ℕ → ℕ → ℕ
bit_length zero n = 0
bit_length (suc k) n = let rest = bit_length k (n / 2) in if n == 0 then 0 else rest + 1

unfoldable pub overhead : ℕ → Rule → ℕ
overhead hashes r = (r.base + hashes * r.per_level % u64) % u64

-- The loop of `packAligned` over the rules.
unfoldable pub check_block : ℕ → ℕ → List Rule → Result Error (Unit {0})
unfolding overhead
check_block align hashes [] = ok tt
check_block align hashes (r ∷ rs) = do
  refuse_if (ltb r.cap ((overhead hashes r + r.item) % u64)) item_too_large
  refuse_if (ltb r.cap ((overhead hashes r + align * r.item % u64) % u64)) block_too_large
  check_block align hashes rs

unfoldable pub block_usages : ℕ → ℕ → List Rule → List Usage
unfolding overhead
block_usages n hashes [] = []
block_usages n hashes (r ∷ rs) =
    record { unit = r.unit; used = (overhead hashes r + n * r.item % u64) % u64; cap = r.cap }
    ∷ block_usages n hashes rs

unfoldable pub block_batch : ℕ → List Rule → List Payout → ℕ → Batch
unfolding block_usages
block_batch hashes rules items index = record {
  index = index;
  items = items;
  used = block_usages (length items) hashes rules;
  prep = false;
  new_accounts = 0;
}

-- The loop of `packAligned` over the blocks, with how often it still runs at most.
unfoldable pub blocks : ℕ → ℕ → ℕ → List Rule → List Payout → ℕ → List Batch
unfolding block_batch
blocks zero align hashes rules items index = []
blocks (suc k) align hashes rules [] index = []
blocks (suc k) align hashes rules (it ∷ its) index =
    block_batch hashes rules (take align (it ∷ its)) index
    ∷ blocks k align hashes rules (drop align (it ∷ its)) (index + 1)

-- What `packAligned` writes into the plan.
unfoldable pub pack_aligned : List Payout → Limits → Result Error (ℕ × ℕ × List Batch)
unfolding check_block blocks widen bit_length
pack_aligned items l =
    let levels = bit_length 64 (widen (length items) (length items) l.align) - 1 in
    let hashes = levels - (bit_length 64 l.align - 1) in
    refuse_if (leb (2 ^ 63) l.align) no_plan
    >> check_block l.align hashes l.rules
    >> ok (levels, hashes, blocks (length items) l.align hashes l.rules items 1)

unfoldable pub creations : List Payout → List Payout
creations [] = []
creations (it ∷ its) = if it.new_token_account then it ∷ creations its else creations its

-- `packPrepare`.
unfoldable pub pack_prepare : List Payout → Limits → Result Error (List Batch)
unfolding greedy creations
pack_prepare items l = if not (started (creations items)) then ok [] else elim l.prepare_rules [
  | [] ↦ ok []
  | (r ∷ rs) ↦ greedy true (r ∷ rs) (creations items) [] (unused (r ∷ rs)) 1
]

abbrev pub no_tree : Result Error (List Batch) → Result Error (ℕ × ℕ × List Batch)
no_tree (err e) = err e
no_tree (ok bs) = ok (0, 0, bs)

-- What the cut of the payments writes into the plan.
unfoldable pub cut_run : List Payout → Limits → Result Error (ℕ × ℕ × List Batch)
unfolding pack_greedy pack_aligned
cut_run items l = if l.align == 0 then no_tree (pack_greedy items l) else pack_aligned items l

-- `Pack`.
unfoldable pub pack : List Payout → Limits → Result Error Plan
unfolding cut_run pack_prepare
pack items l = do
  refuse_if (not (started items)) empty_run
  elim l.rules [ [] ↦ err no_rules | (r ∷ rs) ↦ ok tt ]
  c ← cut_run items l
  p ← pack_prepare items l
  ok (record {
    chain = l.chain;
    payouts = length items;
    prepare = p;
    batches = c.2;
    levels = c.0;
    proof_hashes = c.1;
    new_accounts = length (creations items);
    rent = length (creations items) * l.new_account_rent % u64;
    rent_unit = l.rent_unit;
  })

-- `MaxItems`: the smallest of the numbers of items that single rules allow; `none` is Go's -1.
unfoldable pub best_of : Option ℕ → ℕ → Option ℕ
best_of none n = some n
best_of (some best) n = if ltb n best then some n else some best

unfoldable pub smallest : List Rule → Option ℕ → Option ℕ
unfolding best_of
smallest [] best = best
smallest (r ∷ rs) best =
    let rest = smallest rs best in
    let next = smallest rs (best_of best ((r.cap - r.base) / r.item)) in
    if r.item == 0 then rest else if ltb r.cap r.base then some 0 else next

unfoldable pub max_items : Limits → ℕ
unfolding smallest
max_items l = elim (smallest l.rules none) [
  | none ↦ 0
  | some best ↦ if ltb 0 l.align && ltb l.align best then l.align else best
]
