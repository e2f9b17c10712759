-- ===== src/Store.antt =====
-- internal/core/store.go: the tables, the queries that the components share, and the journal.
mod Schema
mod Sealing
mod Queries
mod Append
mod Journal
mod Paging
pub use Schema.*
pub use Sealing.*
unfoldable pub use Queries.{
  find_user, find_device, find_chat, find_member, find_message, find_operation, find_cursor,
  find_seat, is_live, find_live_seat, member, head_seq,
}
pub use Queries.{Seat}
unfoldable pub use Append.{storage_error, storage, written, bump_seq, has_event, push_event, append}
pub use Journal.*
unfoldable pub use Paging.{least_above, page, has_key}
pub use Paging.{IsDense, IsRun, page-IsRun, IsRun-numbers, numbers_after, has_key-narrowed}
