-- ===== src/Base/Instant.antt =====
-- Python's `datetime`, as far as the code looks into it: whether it is timezone-aware, the
-- instant in UTC, and the wall clock of a zone, in microseconds since datetime.min.
use Prim.Native.Nat.{ℕ, ◌+◌, ◌-◌, ◌*◌}
use mathlib.Core.Bool.{Bool, true, false}
use Prim.Native.String.{String}
use state_wake.Base.Text.{◌=ₛ◌}
use state_wake.Base.Tests.{ltb, if◌then◌else◌}
use state_wake.Base.Outcome.{Result, ok, err, overflow_error}

-- `naive` has no tzinfo; `aware` is in UTC; `zoned` is in the zone of that name, with its wall clock
-- and `value.astimezone(UTC)`. The wall clock of a zone is not monotonic: it goes back when summer
-- time ends.
pub data Datetime : Type 0 where
  naive : ℕ → Datetime
  aware : ℕ → Datetime
  zoned : (zone : String) (wall utc : ℕ) → Datetime

-- `value.tzinfo is None`
abbrev pub is_naive : Datetime → Bool
is_naive (naive _) = true
is_naive (aware _) = false
is_naive (zoned _ _ _) = false

-- `value.astimezone(UTC)`; the code calls it on aware values only, and a naive one would be read
-- in the zone of the machine, here UTC.
abbrev pub instant : Datetime → ℕ
instant (naive t) = t
instant (aware t) = t
instant (zoned _ _ utc) = utc

-- `a < b` on aware values: two values of one zone are compared by their wall clocks, others by
-- their instants
unfoldable pub is_before : Datetime → Datetime → Bool
is_before (zoned zone wall utc) (zoned zone' wall' utc') =
    if zone =ₛ zone' then ltb wall wall' else ltb utc utc'
is_before a b = ltb (instant a) (instant b)

abbrev pub day : ℕ
day = 86400000000

-- datetime.max: 9999-12-31 23:59:59.999999
abbrev pub max_instant : ℕ
max_instant = 3652059 * day - 1

-- `t + timedelta(days=n)`, which raises past year 9999
unfoldable pub add_days : ℕ → ℕ → Result ℕ
add_days t n =
    if ltb max_instant (t + n * day)
    then err (overflow_error "date value out of range")
    else ok (t + n * day)
