-- ===== src/Policy.antt =====
-- Token usage, costs and budgets of AI requests: internal/modules/ai_policy_usage.go and ai_policy.go.
mod Counters
mod Cost
mod Budget
mod Settle
pub mod Ceiling
pub mod Within
pub mod Totals
pub mod Balanced
pub mod Reserved
pub use Counters.{Decoded, number, other, malformed, trailing, Json, Usage, Seen}
unfoldable pub use Counters.{
  strict_counter, counter, first_counter, usage_add, read_openai, read_anthropic,
}
pub use Counters.{max_usage_counter, rejected, known_if, digits_value, with_details}
pub use Cost.{max_int64, Effect}
unfoldable pub use Cost.{ceil_rate, policy_cost}
pub use Budget.{
  Amounts, Account, LedgerRow, Ledger, Caps, no_amounts, amounts_of, scopes_of, reserve_of,
}
unfoldable pub use Budget.{
  cap_of, find_account, put_account, reserve_scope, reserve_all, reserve_budget,
}
pub use Settle.{PolicyRequest, Books, is_known, settled_row, may_settle}
unfoldable pub use Settle.{
  find_request, actual_cost, settle_account, settle_row, settle_rows, settle_open, settle_budget,
}
