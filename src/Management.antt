-- ===== src/Management.antt =====
-- The management handlers of internal/core/management.go: users, devices, chats and memberships.
mod Names
mod Accounts
mod Chats
pub mod Revocation
pub mod Joining
pub use Names.{safe_char}
unfoldable pub use Names.{valid_id}
pub use Accounts.{Keys}
unfoldable pub use Accounts.{put_user, put_device, revoke_device, set_revoked, set_pending, in_chat}
pub use Chats.{ChatInput, MemberInput}
unfoldable pub use Chats.{
  create_chat, all_distinct, add_members, put_member, put_member_row, joined_at,
}
