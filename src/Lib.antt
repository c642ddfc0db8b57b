-- ===== src/Lib.antt =====
-- A model of the Go back end of the stablecoin settlement engine (backend/internal), with the
-- theorems that make its parts correct.
--
-- How the parts meet: the API makes an intent and queues a job for it; a relayer worker leases the
-- job, moves the intent to settling, writes a hold into the ledger, takes a sequence number and
-- sends the transaction; a listener settles the intent and resolves the hold, once the chain's word
-- is final. A job that fails is tried again with growing waits and parked in the end; a stuck
-- payment is sent again at a higher fee. The idempotency layer stands before the API.
--
-- Common (Tests, Lists, Text, Maps, Outcome, Int, Encode): Boolean tests, lists, Go's strings as
--   lists of bytes, maps as association lists, (value, error), big.Int, and the encodings that go
--   into hashed bytes.
-- Paymentref: backend/internal/paymentref/ref.go. `preimage`, `derive`, and in Hex `to_string` and
--   `parse`; Binding has what a ref commits to.
-- Intent: backend/internal/intent. State is state.go (`rules`, `lookup_rule`, `allows`), Machine is
--   machine.go (`apply`, `guard`), Create is `New` of intent.go, Store is store.go (`save`,
--   `advance`). Legal, Apply, Life, Invariant, Race and Reached hold the proofs.
-- Ledger: backend/internal/ledger. Entry is ledger.go (`validate`, `same`), Journal is journal.go and
--   hash.go (`append`, `verify`), Balances is the projection; Legs, Chain, Bookkeeping, Sheets and
--   Conservation hold the proofs.
-- Queue: backend/internal/queue (`enqueue`, `lease`, `ack`, `nack`), with Laws, Lease and Exclusive.
-- Txseq: backend/internal/txseq (`reserve`, `reserve_gap`, `resolve`, `sync`), with Spent and Flight.
-- Idempotency: backend/internal/idempotency. key.go and store.go (`claim`, `complete`, `sweep`), and
--   in Serve the wrapper of handler.go in two halves, `begin` and `finish`; Kept and Answers hold
--   the proofs.
-- Deadletter: backend/internal/dlq (`park`, `resolve`, `redrive`, `drop_job`), with Books and Cycles.
-- Fee: backend/internal/txfee (`bump_fee`, `decide`), with Plans.
-- Retry: backend/internal/txfail (`backoff`, `judge`), with Backoff; durations are int64 words there.
-- Finality: backend/internal/finality (`depth`, `judge`), with Verdicts.
-- Relayer: backend/internal/relayer. World is what a worker works on and what the world answers it in
--   one turn, with the rows of broadcast.go; Ship is relayer.go from an authorized intent to the
--   sender (`process_authorized`, `advance`), Rescue is replace.go, GiveUp is poison.go, and Worker has
--   `process` and `run_once`. Steps, Ships, Sends, Numbers, Tame, Process, Parking, Fates, Jobs and
--   Failing hold the proofs. The others, who share the stores with a worker, come in at three
--   points of its turn (`Moment`): behind the lease, before a job is given up, and before the ack
--   or nack; between these a turn is one step, so that a race in the middle of `process` is two
--   turns on one intent that was read before. World keeps a log of the calls of the sender, which
--   the source does not have.
-- Listener: backend/internal/listener (`check`, `push`), with Checks; the watcher is a parameter.
-- Merkle: backend/internal/merkle (`build`, `block_proof`, `verify_block`), with Pairs, Complete and
--   Binding.
-- Bulk: backend/internal/bulk (`pack`, `max_items`), with Joins and Caps.
-- Tests: runs on concrete data, and the theorems at concrete inputs.
--
-- A method that changes its receiver returns the new state; an error is a constructor, one for each
-- of the source's sentinel errors, and its text is left out. A mutex makes a method one step. Times
-- and durations are numbers of nanoseconds, 0 being Go's zero time, so times before it and negative
-- durations have no counterpart unless a file says so. A uint64 that the code increments wraps at
-- 2 ^ 64. Most loops are over lists, or counted; those of merkle
-- and the blocks of bulk run on fuel, the number of hashes or items, which the proofs show to be enough. SHA-256 and the text form of a time are parameters of the definitions that use them.
-- Not modelled: HTTP, JSON and printing, goroutines and contexts beyond what a file says; the
-- limiters, the pool and the endless loop of relayer; the packages recon, intake, boc, chain and
-- api; the contracts.
pub mod Bulk
pub mod Common
pub mod Deadletter
pub mod Fee
pub mod Finality
pub mod Idempotency
pub mod Intent
pub mod Ledger
pub mod Listener
pub mod Merkle
pub mod Paymentref
pub mod Queue
pub mod Relayer
pub mod Retry
mod Tests
pub mod Txseq
