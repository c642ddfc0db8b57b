-- ===== src/Tests/Intents.antt =====
-- Tests of backend/internal/intent and backend/internal/paymentref: one payment through its life.
use stablecoin_settlement_en.Common.{
  ◌+◌, ◌≤◌, ◌<◌, ◌≡◌, refl, ap, ◌≢◌, ◌↔◌, ◌⊎◌, true, some, [], ◌∷◌, ◌++◌, arith, replicate, All,
  Bytes, str, bytes_eq, Bytes-eq, is_empty, lookup, insert, ok, err,
}
use stablecoin_settlement_en.Common.Int.{pos}
use stablecoin_settlement_en.Common.Encode.{put, uvarint, decimal, signed_decimal}
use stablecoin_settlement_en.Paymentref.{Ref, Terms, derive, preimage, put_all}
use stablecoin_settlement_en.Paymentref.Binding.{Collision, InMemory, derive-binding}
use stablecoin_settlement_en.Paymentref.Hex.{to_string, parse, parse-to_string}
use stablecoin_settlement_en.Intent.State.{
  State, Actor, created, authorized, settling, confirming, settled, failed, canceled, needs_review,
  api, relayer, listener, system, valid, terminal, lookup_rule, allows,
}
use stablecoin_settlement_en.Intent.Machine.{Intent, Request, apply, write, guard, version_conflict}
use stablecoin_settlement_en.Intent.Legal.{Legal, Guarded}
use stablecoin_settlement_en.Intent.Apply.{apply-Legal_iff}
use stablecoin_settlement_en.Intent.Life.{Life, born, moved, Vouched, sends, reorgs, reviewed}
use stablecoin_settlement_en.Intent.Invariant.{sends_bounded, reviewed-judged, settled-Vouched}
use stablecoin_settlement_en.Intent.Create.{Spec, terms, with_ref, new}
use stablecoin_settlement_en.Intent.Store.{Store, empty, get_by_ref, save, advance}
use stablecoin_settlement_en.Intent.Race.{advance_race, StoreWf, advance-step}
use stablecoin_settlement_en.Intent.Reached.{Reached, start, create, get_by_ref_sound, Reached-Kept}

-- A hash for the tests: it keeps the bytes.
abbrev keep_bytes : Bytes → Bytes
keep_bytes b = b

abbrev bare : Intent
bare = record {
  id = str "pi_1";
  ref = [];
  chain = str "evm:1";
  token = str "0xT";
  payer = str "0xP";
  merchant = str "0xM";
  amount = some (pos 100);
  state = created;
  version = 1;
  tx_hash = [];
  created_at = 10;
  updated_at = 10;
  expires_at = 0;
  history = [];
}

abbrev fresh : Intent
fresh = with_ref keep_bytes bare

abbrev request : State → Actor → Bytes → Bytes → Request
request t a tx why = record { to = t; by = a; tx_hash = tx; reason = why; at = 20 }

abbrev authorize_it : Request
authorize_it = request authorized api [] []

abbrev settle_it : Request
settle_it = request settling relayer [] []

abbrev include_it : Request
include_it = request confirming relayer (str "0xaa") []

abbrev reorg_it : Request
reorg_it = request settling listener [] (str "reorged out")

abbrev finalize_it : Request
finalize_it = request settled listener (str "0xaa") []

abbrev signed : Intent
signed = write fresh authorize_it

abbrev sending : Intent
sending = write signed settle_it

abbrev included : Intent
included = write sending include_it

abbrev paid : Intent
paid = write included finalize_it

abbrev ask_it : Request
ask_it = request needs_review listener [] (str "amount differs")

abbrev asked_about : Intent
asked_about = write included ask_it

fresh-Life : Life fresh
unfolding with_ref
fresh-Life = born fresh (record { starts = refl; first = refl; no_hash = refl; no_past = refl })

signed-Life : Life signed
unfolding with_ref apply write valid terminal lookup_rule allows guard is_empty
signed-Life = moved fresh signed authorize_it fresh-Life refl

sending-Life : Life sending
unfolding with_ref apply write valid terminal lookup_rule allows guard is_empty
sending-Life = moved signed sending settle_it signed-Life refl

included-Life : Life included
unfolding with_ref apply write valid terminal lookup_rule allows guard is_empty
included-Life = moved sending included include_it sending-Life refl

paid-Life : Life paid
unfolding with_ref apply write valid terminal lookup_rule allows guard bytes_eq is_empty
paid-Life = moved included paid finalize_it included-Life refl

asked_about-Life : Life asked_about
unfolding with_ref apply write valid terminal lookup_rule allows guard is_empty
asked_about-Life = moved included asked_about ask_it included-Life refl

apply-Legal_iff_example :
    (apply signed settle_it ≡ ok (write signed settle_it, true))
    ↔ (Legal signed.state settling relayer [] [] × Guarded signed settle_it)
apply-Legal_iff_example = apply-Legal_iff signed settle_it

sends_bounded_example : sends paid.history ≤ reorgs paid.history + 1
sends_bounded_example = sends_bounded paid-Life

settled-Vouched_example : (paid.tx_hash ≢ []) × Vouched paid.tx_hash paid.history
unfolding write
settled-Vouched_example = settled-Vouched paid-Life refl

reviewed-judged_example :
    (asked_about.state ≡ needs_review)
    ⊎ (asked_about.state ≡ settled)
    ⊎ (asked_about.state ≡ failed)
unfolding write with_ref reviewed
reviewed-judged_example = reviewed-judged asked_about-Life refl

-- The store.
abbrev stored : Store
stored = record { m = insert fresh.id fresh []; by_ref = insert fresh.ref fresh.id [] }

abbrev signed_store : Store
signed_store = record {
  m = insert signed.id signed stored.m;
  by_ref = insert signed.ref signed.id stored.by_ref;
}

abbrev canceled_by_clock : Request
canceled_by_clock = request canceled system [] (str "expired")

-- The signature and the clock race for one intent.
advance_race_example :
    save keep_bytes signed_store (write fresh canceled_by_clock) fresh.version
    ≡ err version_conflict
unfolding with_ref apply write valid terminal lookup_rule allows guard save insert lookup bytes_eq
    derive preimage terms put_all signed_decimal decimal put uvarint is_empty
advance_race_example =
    advance_race keep_bytes stored signed_store fresh signed (write fresh canceled_by_clock)
      authorize_it canceled_by_clock refl refl refl

abbrev spec : Spec
spec = record {
  id = bare.id;
  chain = bare.chain;
  token = bare.token;
  payer = bare.payer;
  merchant = bare.merchant;
  amount = bare.amount;
  expires_at = 0;
}

stored-Reached : Reached keep_bytes stored
unfolding new empty save insert lookup bytes_eq derive preimage terms put_all signed_decimal decimal
    put uvarint is_empty with_ref
stored-Reached = create empty stored spec 10 fresh start refl refl refl

get_by_ref_sound_example :
    (fresh.ref ≡ fresh.ref) × (fresh.ref ≡ derive keep_bytes (terms fresh)) × Life fresh
unfolding get_by_ref insert lookup bytes_eq derive preimage terms put_all signed_decimal decimal put
    uvarint with_ref
get_by_ref_sound_example = get_by_ref_sound keep_bytes fresh.ref fresh stored-Reached refl

stored-StoreWf : StoreWf keep_bytes stored
stored-StoreWf =
    let k = Reached-Kept keep_bytes stored-Reached in
    record { under_id = k.under_id; own_ref = k.own_ref }

advance-step_example :
    (it : Intent) × (lookup bare.id stored.m ≡ some it)
    × Legal it.state authorized api [] []
    × (signed ≡ write it authorize_it)
    × (lookup bare.id signed_store.m ≡ some signed)
    × ((j : Bytes) → j ≢ bare.id → lookup j signed_store.m ≡ lookup j stored.m)
unfolding advance apply write valid terminal lookup_rule allows guard save insert lookup bytes_eq
    derive preimage terms put_all signed_decimal decimal put uvarint is_empty with_ref
advance-step_example =
    advance-step keep_bytes stored signed_store bare.id authorize_it signed stored-StoreWf refl

-- The same payment at nine times the amount.
abbrev inflated : Intent
inflated = record bare { amount = some (pos 900) }

abbrev terms_a : Terms
terms_a = record {
  intent_id = str "a";
  chain = str "bc";
  token = str "t";
  payer = str "p";
  merchant = str "m";
  amount = str "1";
}

-- The same bytes, split otherwise.
abbrev terms_b : Terms
terms_b = record terms_a { intent_id = str "ab"; chain = str "c" }

-- A hash that collides everywhere.
abbrev no_hash : Bytes → Bytes
no_hash b = []

terms-InMemory : (InMemory terms_a) × (InMemory terms_b)
terms-InMemory = (record { fits = omega arith }, record { fits = omega arith })

terms_a-ne-terms_b : terms_a ≢ terms_b
terms_a-ne-terms_b h = ground (arith, ap (λ (t : Terms). t.chain) h)

derive-binding_example : Collision no_hash
unfolding derive
derive-binding_example =
    derive-binding no_hash terms_a terms_b terms-InMemory.0 terms-InMemory.1 terms_a-ne-terms_b refl

abbrev some_ref : Ref
some_ref = replicate 31 171 ++ 9 ∷ []

some_ref-bytes : All (λ b. b < 256) some_ref
some_ref-bytes = omega arith

parse-to_string_example : parse (to_string some_ref) ≡ ok some_ref
parse-to_string_example = parse-to_string some_ref refl some_ref-bytes

parse_upper :
    parse (str "0xABABABABABABABABABABABABABABABABABABABABABABABABABABABABABABAB09") ≡ ok some_ref
unfolding parse
parse_upper = refl
