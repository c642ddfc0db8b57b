-- ===== src/Intent.antt =====
-- backend/internal/intent: the Payment Intent state machine and its store.
pub mod State
pub mod Machine
pub mod Legal
pub mod Apply
pub mod Life
pub mod Invariant
pub mod Create
pub mod Store
pub mod Race
pub mod Reached
