-- ===== src/Mls.antt =====
-- internal/modules/e2ee.go: the relay of MLS groups, which keeps rosters, epochs, key packages and
-- commits, and no group secret.
mod Types
mod Roster
mod Packages
mod Commits
mod Confirm
mod Sending
mod Steps
mod Effects
pub mod Epochs
pub mod Barrier
pub mod OneTransition
pub mod Taken
pub mod OneTime
pub use Types.*
unfoldable pub use Types.{find_group, find_roster}
pub use Roster.{is_new, Seen}
unfoldable pub use Roster.{
  live_device, same_bytes, check_members, all_covered, validate_roster, insert_roster, save_roster,
  valid_context, set_epoch, init_relay,
}
pub use Packages.{registered, is_unclaimed, first_of, Claimed, handed_out, retired}
unfoldable pub use Packages.{upload_package, oldest_unclaimed, claim_row, claim_package}
pub use Commits.{WelcomeInput, CommitInput, is_open, Sender, pending_row}
unfoldable pub use Commits.{
  use_package, store_welcome, welcome_one, welcome_all, set_barrier, find_sender, insert_transition,
  check_commit, submit_commit,
}
pub use Confirm.{
  Previous, initial, below, at_epoch, ConfirmInput, max_epoch, is_pending, conflict, conflict-eq-ok,
  referenced, applied,
}
unfoldable pub use Confirm.{
  open_transition, set_context, confirm_row, confirm_transition, advance_epoch, check_confirm,
  confirm_epoch,
}
pub use Steps.{Step, elsewhere, uploaded, claimed, submitted, confirmed, Run, rests, goes_on}
unfoldable pub use Sending.{group_of, prepare_private, e2ee_prepare, e2ee_hook}
