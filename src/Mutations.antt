-- ===== src/Mutations.antt =====
-- Edits, deletions and reactions: internal/modules/mutations.go, edit.go, delete.go and reactions.go.
mod Mutate
mod Actions
pub mod Once
pub use Mutate.{Action, edit, deletion, reaction, Target, Writes}
unfoldable pub use Mutate.{find_target, allowed, fresh_mutation, mutate, mutation_row}
pub use Actions.{Edit}
unfoldable pub use Actions.{
  edit_fn, delete_fn, reaction_fn, edit_message, delete_message, react, edit_row, clear_row,
  put_reaction,
}
