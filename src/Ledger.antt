-- ===== src/Ledger.antt =====
-- backend/internal/ledger: the append-only, hash-chained, double-entry journal.
pub mod Entry
pub mod Legs
pub mod Journal
pub mod Chain
pub mod Bookkeeping
pub mod Balances
pub mod Sheets
pub mod Conservation
