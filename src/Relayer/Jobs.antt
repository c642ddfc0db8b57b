-- ===== src/Relayer/Jobs.antt =====
-- backend/internal/relayer/relayer.go: what becomes of a leased job in one turn of `RunOnce`, whatever
-- the others do to the queue meanwhile.
use stablecoin_settlement_en.Common.{Bytes-eq}
use stablecoin_settlement_en.Queue as Jobs
use stablecoin_settlement_en.Queue.{Queue, Slot, stale_receipt}
use stablecoin_settlement_en.Retry.{negative}
use stablecoin_settlement_en.Retry as Faults
use stablecoin_settlement_en.Relayer.World.{World}
