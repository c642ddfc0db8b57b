-- ===== src/Relayer.antt =====
-- backend/internal/relayer: the workers that take jobs and send payments.
pub mod World
pub mod Ship
pub mod Steps
pub mod Ships
pub mod Sends
pub mod Numbers
pub mod Tame
pub mod Process
pub mod Parking
pub mod Fates
pub mod Jobs
pub mod Failing
pub mod Rescue
pub mod GiveUp
pub mod Worker
