-- ===== src/Capacity.antt =====
-- DeriveCapacity and EstimateResources of internal/config/capacity.go, on limits that are not negative.
use qgramm.Common.{
  ℕ, ◌+◌, ◌-◌, ◌*◌, ◌/◌, ◌≤◌, ◌<◌, ◌≡◌, ◌⊎◌, inl, inr, refl, Bool, true, false, arith, ltb, ◌==◌,
  Bool-cases, if◌then◌else◌,
}
use native.Mathlib.Nat.{div-add-mod'}
pub mod Derived

pub record Resources : Type 0 where
  pub cpus : ℕ
  pub memory_bytes : ℕ

pub record Capacity : Type 0 where
  pub expected_concurrent_users : ℕ
  pub workers : ℕ
  pub max_connections : ℕ
  pub queue_depth : ℕ

abbrev pub usable : Resources → Resources
usable r = record {
  cpus = if ltb r.cpus 1 then 1 else r.cpus;
  memory_bytes = if ltb r.memory_bytes 1 then 536870912 else r.memory_bytes;
}

abbrev pub at_most : ℕ → ℕ → ℕ
at_most limit n = if ltb limit n then limit else n

abbrev pub at_least : ℕ → ℕ → ℕ
at_least limit n = if ltb n limit then limit else n

abbrev pub derived_workers : Capacity → Resources → ℕ
derived_workers c r = if c.workers == 0 then at_most 64 (r.cpus * 2) else c.workers

abbrev pub derived_connections : Capacity → ℕ
derived_connections c =
    if c.max_connections == 0
    then at_least (c.expected_concurrent_users + 1)
        (c.expected_concurrent_users + c.expected_concurrent_users / 5)
    else c.max_connections

-- The 64 KiB messages that a quarter of the memory holds for each connection, between 1 and 64.
abbrev pub derived_depth : Capacity → Resources → ℕ → ℕ
derived_depth c r connections =
    if c.queue_depth == 0
    then at_most 64 (at_least 1 (r.memory_bytes / 4 / connections / 65536))
    else c.queue_depth

unfoldable pub derive_capacity : Capacity → Resources → Capacity
derive_capacity c r =
    let connections = derived_connections c in
    record {
      expected_concurrent_users = c.expected_concurrent_users;
      workers = derived_workers c (usable r);
      max_connections = connections;
      queue_depth = derived_depth c (usable r) connections;
    }

-- Policy.MaxMessageBytes and Policy.MaxBatch come with the capacity; the assumptions are fixed text.
unfoldable pub estimate_resources : Capacity → ℕ → ℕ → Resources
estimate_resources c max_message_bytes max_batch = record {
  cpus = at_least 1 ((c.expected_concurrent_users + 1999) / 2000);
  memory_bytes =
      134217728
      + c.max_connections * (131072 + c.queue_depth * max_message_bytes)
      + c.workers * max_message_bytes * max_batch;
}
