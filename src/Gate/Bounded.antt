-- ===== src/Gate/Bounded.antt =====
-- Running and waiting requests are bounded, and every arrival is counted once.
use qgramm.Common.{ℕ, ◌+◌, ◌≤◌, ◌<◌, ◌≡◌, arith}
use qgramm.Gate.{Admission, arrive, granted, gives_up, finish}

-- The counters after some arrivals and some requests that finished.
pub data Traffic (slots places : ℕ) : ℕ → ℕ → Admission → Type 0 where
  idle : Traffic slots places 0 0 (record { active = 0; pending = 0; admitted = 0; rejected = 0 })
  arrives :
      (n k : ℕ) (a : Admission)
      → Traffic slots places n k a
      → Traffic slots places (n + 1) k (arrive slots places a).1
  is_granted :
      (n k : ℕ) (a : Admission)
      → Traffic slots places n k a
      → 0 < a.pending
      → a.active < slots
      → Traffic slots places n k (granted a)
  times_out :
      (n k : ℕ) (a : Admission)
      → Traffic slots places n k a
      → 0 < a.pending
      → Traffic slots places n k (gives_up a)
  finishes :
      (n k : ℕ) (a : Admission)
      → Traffic slots places n k a
      → 0 < a.active
      → Traffic slots places n (k + 1) (finish a)

-- Whatever arrives, waits, is granted a slot, gives up and finishes, no more requests run than there are
-- slots and no more wait than there are places; every arrival is admitted, rejected or waiting, and every
-- admitted request runs or has finished.
pub Traffic-bounds :
    (slots places n k : ℕ) (a : Admission)
    → Traffic slots places n k a
    → (a.active ≤ slots)
      × (a.pending ≤ places)
      × (n ≡ a.admitted + a.rejected + a.pending)
      × (a.admitted ≡ a.active + k)
unfolding arrive granted gives_up finish
Traffic-bounds slots places n k a idle = ground arith
Traffic-bounds slots places n k a (arrives m _ b past) =
    ground (arith, Traffic-bounds slots places m k b past)
Traffic-bounds slots places n k a (is_granted _ _ b past some_wait free) =
    ground (arith, some_wait, free, Traffic-bounds slots places n k b past)
Traffic-bounds slots places n k a (times_out _ _ b past some_wait) =
    ground (arith, some_wait, Traffic-bounds slots places n k b past)
Traffic-bounds slots places n k a (finishes _ j b past some_run) =
    ground (arith, some_run, Traffic-bounds slots places n j b past)
