-- ===== src/Gate/Slots.antt =====
-- admitHTTP: the slots of running requests, and the bounded wait for one.
use qgramm.Common.{ℕ, ◌+◌, ◌-◌, ltb, if◌then◌else◌}

-- AdmissionMetrics, without the time waited.
pub record Admission : Type 0 where
  pub active : ℕ
  pub pending : ℕ
  pub admitted : ℕ
  pub rejected : ℕ

pub data Arrival : Type 0 where
  enters waits turned_away : Arrival

-- A slot at once, or a place among the waiting, or none. The channels' capacities are `slots` and `places`.
unfoldable pub arrive : ℕ → ℕ → Admission → Arrival × Admission
arrive slots places a =
    if ltb a.active slots
    then (enters, record a { active = a.active + 1; admitted = a.admitted + 1 })
    else (if ltb a.pending places
        then (waits, record a { pending = a.pending + 1 })
        else (turned_away, record a { rejected = a.rejected + 1 }))

-- The wait ends with a slot.
unfoldable pub granted : Admission → Admission
granted a = record a { active = a.active + 1; pending = a.pending - 1; admitted = a.admitted + 1 }

-- The wait ends by the timer, or by a context.
unfoldable pub gives_up : Admission → Admission
gives_up a = record a { pending = a.pending - 1; rejected = a.rejected + 1 }

-- The handler returned.
unfoldable pub finish : Admission → Admission
finish a = record a { active = a.active - 1 }
