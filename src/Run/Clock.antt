-- ===== src/Run/Clock.antt =====
-- Times: milliseconds, and the whole seconds that a run is charged for.
use agent_reliability_platfo.Base.{ℕ, ◌+◌, ◌-◌, ◌/◌, Bool, false, Option, none, some, leb}

-- `Math.ceil(ms / 1000)`
unfoldable pub ceil_seconds : ℕ → ℕ
ceil_seconds ms = (ms + 999) / 1000

-- The seconds since a run was started, rounded up; 0 while its clock stands still. The clock is
-- taken not to run backwards.
unfoldable pub elapsed_seconds : Option ℕ → ℕ → ℕ
unfolding ceil_seconds
elapsed_seconds none now = 0
elapsed_seconds (some started) now = ceil_seconds (now - started)

-- `t && t <= new Date()`
abbrev pub has_passed : Option ℕ → ℕ → Bool
has_passed none now = false
has_passed (some t) now = leb t now
