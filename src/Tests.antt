-- ===== src/Tests.antt =====
-- Concrete payments, entries, jobs and lines on which the theorems are applied and the code is run.
mod Answers
mod Bulks
mod Intents
mod Ledgers
mod Listeners
mod Merkles
mod Plans
mod Queues
mod Relayers
