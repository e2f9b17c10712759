-- ===== src/Capacity/Derived.antt =====
-- What the derived limits promise.
use qgramm.Common.{ℕ, ◌*◌, ◌/◌, ◌≤◌, ◌<◌, ◌≡◌, ◌⊎◌, inl, inr, arith, ltb, Bool-cases}
use native.Mathlib.Nat.{div-add-mod', mul-le-mul_right}
use qgramm.Capacity.{
  Resources, Capacity, usable, derived_workers, derived_connections, derived_depth, derive_capacity,
}

-- The queues of all connections fit the quarter of memory that they are derived from.
depth-fits : (quarter n d : ℕ) → d ≤ quarter / n / 65536 → n * (d * 65536) ≤ quarter
depth-fits quarter n d h =
    let all : d * 65536 ≤ quarter / n = omega arith in
    omega (arith, mul-le-mul_right n all, div-add-mod' quarter n)

derived_workers-positive : (c : Capacity) (r : Resources) → 1 ≤ derived_workers c (usable r)
derived_workers-positive c r = ground arith

derived_connections-room :
    (c : Capacity)
    → (1 ≤ derived_connections c)
      × (c.max_connections ≡ 0 → c.expected_concurrent_users < derived_connections c)
derived_connections-room c = (ground arith, λ h. ground (arith, h))

derived_depth-range :
    (c : Capacity) (r : Resources) (n : ℕ)
    → (1 ≤ derived_depth c r n) × (c.queue_depth ≡ 0 → derived_depth c r n ≤ 64)
derived_depth-range c r n = (ground arith, λ h. ground (arith, h))

derived_depth-share :
    (c : Capacity) (r : Resources) (n : ℕ)
    → c.queue_depth ≡ 0
    → (derived_depth c r n ≡ 1) ⊎ (derived_depth c r n ≤ r.memory_bytes / 4 / n / 65536)
derived_depth-share c r n h = elim (Bool-cases (ltb (r.memory_bytes / 4 / n / 65536) 1)) [
  | inl e ↦ inl (ground (arith, h, e))
  | inr e ↦ inr (ground (arith, h, e))
]

derived_depth-quarter :
    (c : Capacity) (r : Resources) (n : ℕ)
    → c.queue_depth ≡ 0
    → (derived_depth c r n ≡ 1) ⊎ (n * (derived_depth c r n * 65536) ≤ r.memory_bytes / 4)
derived_depth-quarter c r n h = elim (derived_depth-share c r n h) [
  | inl e ↦ inl e
  | inr e ↦ inr (depth-fits (r.memory_bytes / 4) n (derived_depth c r n) e)
]

-- Whatever is left to be derived, the limits in force are usable: at least one worker, more
-- connections than expected users, and a depth of at least one; a derived depth is at most 64, and
-- unless it is the minimum of one message, 64 KiB messages in all queues take at most a quarter of memory.
pub derive_capacity-bounds :
    (c : Capacity) (r : Resources)
    → let d = derive_capacity c r in
      (1 ≤ d.workers)
      × (1 ≤ d.max_connections)
      × (1 ≤ d.queue_depth)
      × (c.max_connections ≡ 0 → c.expected_concurrent_users < d.max_connections)
      × (c.queue_depth ≡ 0 → d.queue_depth ≤ 64)
      × (c.queue_depth ≡ 0
          → (d.queue_depth ≡ 1)
            ⊎ (d.max_connections * (d.queue_depth * 65536) ≤ (usable r).memory_bytes / 4))
unfolding derive_capacity
derive_capacity-bounds c r =
    let n = derived_connections c in
    let (room, more) = derived_connections-room c in
    let (one, many) = derived_depth-range c (usable r) n in
    (derived_workers-positive c r, room, one, more, many, derived_depth-quarter c (usable r) n)
