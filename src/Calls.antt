-- ===== src/Calls.antt =====
-- internal/modules/calls.go: signalling of direct calls between two participants.
mod Types
mod Media
mod Signal
mod Lifecycle
pub mod Transitions
pub mod Liveness
pub use Types.{
  CallState, ringing, active, ended, Kind, accept, reject, hangup, offer, answer, ice, Call,
  CallOperation, World, ℤ, pos, negsuc, Payload, SignalInput, Notice, Wire, Reply,
}
unfoldable pub use Types.{is_live_state, is_media, kind_of, find_call, find_call_operation}
unfoldable pub use Media.{valid_payload, media_notice}
pub use Media.{is_some}
unfoldable pub use Signal.{
  transition, call_permission, peer_of, peer_device, basic_notice, signal_notice, set_state,
  persist_signal, replayed, event_kind, fresh_signal, answered, signal,
}
pub use Signal.{epoch_settled, signal_event, same_state}
unfoldable pub use Lifecycle.{
  live_calls, active_members, create_call, expired, end_expired, end_all, cleanup_calls,
}
pub use Lifecycle.{other_member, event_of}
