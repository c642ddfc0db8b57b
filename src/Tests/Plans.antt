-- ===== src/Tests/Plans.antt =====
-- Tests of backend/internal/txfee, backend/internal/txfail and backend/internal/finality.
use stablecoin_settlement_en.Common.{
  ◌*◌, ◌^◌, ◌≤◌, ◌<◌, ◌≡◌, refl, ◌≢◌, ◌↔◌, ◌⊎◌, inl, true, false, none, some, arith, leb,
  if◌then◌else◌, Bytes-eq,
}
use stablecoin_settlement_en.Txseq.{unknown, not_sent}
use stablecoin_settlement_en.Fee
use stablecoin_settlement_en.Fee.{Stuck, Plan, decide, bump, speed_up, new_fee}
use stablecoin_settlement_en.Fee.Plans.{Outbids, decide-Outbids}
use stablecoin_settlement_en.Finality
use stablecoin_settlement_en.Finality.{Observation, judge, final, failed}
use stablecoin_settlement_en.Finality.Verdicts.{
  Irreversible, Grown, judge-Irreversible_iff, judge_stable,
}
use stablecoin_settlement_en.Retry
use stablecoin_settlement_en.Retry.{Fault, backoff, retryable, positive, less, capped, double}
use stablecoin_settlement_en.Retry.Backoff.{backoff_capped, judge_again}

-- A payment that was broadcast once at 30 gwei and has been stuck for as long as it takes.
abbrev stuck : Stuck
stuck = record { sent = unknown; fee = new_fee 30 2; tries = 1; age = 300; stuck_after = 300 }

abbrev raised : Plan
raised = record {
  kind = speed_up;
  fee = record { cap = some (33 * 10 ^ 9); tip = some (22 * 10 ^ 8) };
}

decide-Outbids_example :
    (300 ≤ 300)
    × ((speed_up ≡ speed_up) ↔ (1 < 3))
    × (unknown ≢ not_sent → Outbids Fee.default_policy (30 * 10 ^ 9) (2 * 10 ^ 9) raised.fee)
unfolding decide
decide-Outbids_example =
    decide-Outbids Fee.default_policy stuck raised (30 * 10 ^ 9) (2 * 10 ^ 9) refl (inl refl) refl
      (omega arith) (omega arith) (omega arith)

abbrev two_deep : Finality.Policy
two_deep = record { require_marker = false; confirmations = 2; lost_after = 0 }

abbrev in_block : Observation
in_block = record { included = true; height = 100; head = 101; final = false; succeeded = true }

judge-Irreversible_iff_example :
    ((judge two_deep in_block 0 ≡ final) ↔ (Irreversible two_deep in_block × (true ≡ true)))
    × ((judge two_deep in_block 0 ≡ failed) ↔ (Irreversible two_deep in_block × (true ≡ false)))
judge-Irreversible_iff_example = judge-Irreversible_iff two_deep in_block 0

abbrev later_on : Observation
later_on = record in_block { head = 200; final = true }

in_block-Grown : Grown in_block later_on
in_block-Grown = record {
  included = refl;
  height = refl;
  head = omega arith;
  final = λ h. refl;
  succeeded = refl;
}

judge_stable_example :
    (judge two_deep in_block 0 ≡ final → judge two_deep later_on 60 ≡ final)
    × (judge two_deep in_block 0 ≡ failed → judge two_deep later_on 60 ≡ failed)
judge_stable_example = judge_stable two_deep in_block later_on 0 60 in_block-Grown (omega arith)

-- Seconds here stand for the nanoseconds of the source: 5, doubled up to 120.
abbrev ladder : Retry.Policy
ladder = record { max_attempts = 10; max_backoff = 120; jitter = none }

abbrev no_cap : Retry.Policy
no_cap = record ladder { max_backoff = 0 }

backoff_capped_example : backoff ladder 5 6 ≡ (if leb (5 * 2 ^ 5) 120 then 5 * 2 ^ 5 else 120)
backoff_capped_example =
    backoff_capped ladder 5 6 refl (omega arith) (omega arith) (omega arith) (omega arith)

abbrev third : Fault
third = record { poison = false; attempt = 3; base = 5 }

judge_again_example :
    (third.poison ≡ false)
    × ((ladder.max_attempts ≡ 0) ⊎ (third.attempt < ladder.max_attempts))
    × (0 < 20)
    × (20 ≤ ladder.max_backoff)
unfolding Retry.judge
judge_again_example =
    judge_again ladder third 20 refl (omega arith) (omega arith) (omega arith) (omega arith) refl
