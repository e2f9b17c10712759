-- ===== src/Realtime.antt =====
-- internal/core/realtime.go, sharedreplay.go and admission.go: the connections, their notifications, and
-- the events that they are sent.
mod Notify
mod Registry
mod Admit
mod Flush
pub mod Wakeups
pub mod Connections
pub mod Places
pub mod Delivery
pub mod Replayed
pub mod Heads
pub mod Polling
pub mod Tickets
pub use Notify.{Connection}
unfoldable pub use Notify.{insert_text, delete_text, mark, signal, notify, take_pending, forget}
pub use Registry.{Subscription, Head, Hub, has_subscriber, is_news, observed}
unfoldable pub use Registry.{
  is_subscribed, subscribe, close, disconnect_user, disconnect_device, wake_chat, head_of, set_head,
  prune, observe, observe_batch, durable_heads, batches, poll_batches, subscribed_chats, poll,
}
pub use Flush.{
  Ending, caught_up, again, broken, dropped, Flushed, Position, Session, Command, Verdict,
  unsubscribed, refused, denied, subscribed,
}
unfoldable pub use Flush.{
  write_events, last_seq, flush_pages, position_of, drop_position, set_position, after_flush, flush,
  react, command,
}
pub use Admit.{Ticket, redeems, origin_allowed}
unfoldable pub use Admit.{
  device_active, issue, redeem, take_place, admit, give_back, register, unsubscribe_all, leave,
}
