-- ===== src/Writer.antt =====
-- internal/core/writer_queue.go: the single writer behind a bounded queue.
mod Sqlite
mod Batch
pub mod Serial
pub mod Atomic
pub mod Queue
pub use Sqlite.*
unfoldable pub use Batch.{
  checked, undo, keep, after_run, run_job, batch_step, batch_loop, invalidate, committing,
  rolled_back, finish_at, finish_batch, final_results, execute_batch,
}
pub use Batch.{
  Job, TxState, live, broken, Loop, Counters, BatchResult, Finish, fresh, counted, saved, in_state,
  in_context, opened, start_loop,
}
