-- ===== src/Messages.antt =====
-- internal/core/messages.go: sending a message once.
mod Types
mod Persist
mod Prepare
mod View
mod Replay
pub use Types.*
unfoldable pub use Types.{job_bytes}
unfoldable pub use Persist.{
  is_none, new_message, message_row, operation_row, insert_message, run_hooks, persist_fresh,
  replay, settle, persist_message, reply_hook, forward_hook,
}
pub use Prepare.{Limits, Prepared, job, saved}
unfoldable pub use Prepare.{
  open_payload, run_prepare, prepare_fresh, answer_prepared, prepare_message, accessible,
  send_result, send_message,
}
pub use View.{Reader, ProjectHook, Item, visible_to, with_item, last_key, items_of, history_limit}
unfoldable pub use View.{
  item_of, run_project, deliver, reveal, project_one, project_stored, readable, readable_rows,
  unique, project_messages, view_message, history, hidden_hook, reactions_hook,
}
pub use Replay.{
  EventData, of_message, of_bytes, no_content, Event, PageItem, in_chat_event, covers, raised,
  page_rows,
}
unfoldable pub use Replay.{
  min_event, check_cursor, page_items, project_items, output_events, read_page, events,
}
pub mod Access
pub mod Admission
pub mod Contiguous
pub mod Gapless
pub mod Idempotency
pub mod Retry
pub mod Opening
pub mod Pages
pub mod RoundTrip
pub mod Withheld
