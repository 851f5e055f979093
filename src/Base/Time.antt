-- ===== src/Base/Time.antt =====
-- `Instant` and `Duration` of the standard library, in nanoseconds. Adding to an `Instant` past the
-- end of the platform's clock is a panic there, and is left out; a saturating difference is `-`.
use netd.Base.{ℕ, ◌*◌, ◌/◌}

abbrev pub Instant : Type 0
Instant = ℕ

abbrev pub Duration : Type 0
Duration = ℕ

abbrev pub from_secs : ℕ → Duration
from_secs s = s * 1000000000

abbrev pub from_millis : ℕ → Duration
from_millis ms = ms * 1000000

abbrev pub as_secs : Duration → ℕ
as_secs d = d / 1000000000

abbrev pub as_millis : Duration → ℕ
as_millis d = d / 1000000
