-- ===== src/Gate.antt =====
-- internal/core/auth.go and admission.go: which requests reach a handler.
mod Identify
mod Slots
pub mod Revoked
pub mod Bounded
pub use Identify.{Claims, Request, RequestOutcome, served, answered}
unfoldable pub use Identify.{authenticate, authorize, management, handle}
pub use Slots.{Admission, Arrival, enters, waits, turned_away}
unfoldable pub use Slots.{arrive, granted, gives_up, finish}
