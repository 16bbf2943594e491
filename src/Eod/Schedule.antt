-- ===== src/Eod/Schedule.antt =====
-- eod/scheduler.go: New, nextFire, PriorDay, CurrentDay and runOnce. The calendar of the location is
-- a parameter over instants in nanoseconds and days by number; the pool is the parameter `call`.
pub mod Daily
use core_wallet.Prelude.{
  ℕ, ◌+◌, ◌-◌, String, Bool, true, false, ◌||◌, Option, none, some, str_eq, str_append, ltb,
  if◌then◌else◌,
}
use core_wallet.Prelude.Ints.{ℤ, is_positive}
use core_wallet.Errors.{GoError, nil}
use core_wallet.Eod.{parse_clock}

-- `day t` is the local date of an instant, `at d h m s` is `time.Date` on it, `next_day` is
-- `AddDate(0, 0, 1)`, and `format d` is the date as "2006-01-02".
pub record Calendar : Type 0 where
  pub day : ℕ → ℕ
  pub at : ℕ → ℕ → ℕ → ℕ → ℕ
  pub next_day : ℕ → ℕ
  pub format : ℕ → String

pub record Scheduler : Type 0 where
  pub calendar : Calendar
  pub clock : ℕ × ℕ × ℕ
  pub run_timeout : ℤ
  pub label : String
  pub proc : String
  pub date_of : ℕ → String

-- Why `New` refuses.
pub data Refusal : Type 0 where
  bad_timezone bad_clock bad_timeout no_proc : Refusal

pub data Built : Type 0 where
  built : Scheduler → Built
  refused : Refusal → Built

abbrev scheduler : Calendar → ℕ × ℕ × ℕ → ℤ → String → String → (ℕ → String) → Scheduler
scheduler cal clock run_timeout label proc date_of = record {
  calendar = cal;
  clock = clock;
  run_timeout = run_timeout;
  label = if str_eq label "" then proc else label;
  proc = proc;
  date_of = date_of;
}

abbrev last_checks : Calendar → ℕ × ℕ × ℕ → ℤ → String → String → Option (ℕ → String) → Built
last_checks cal clock run_timeout label proc none =
    if is_positive run_timeout then refused no_proc else refused bad_timeout
last_checks cal clock run_timeout label proc (some date_of) =
    if is_positive run_timeout
    then if str_eq proc ""
      then refused no_proc
      else built (scheduler cal clock run_timeout label proc date_of)
    else refused bad_timeout

abbrev with_clock :
    Calendar → Option (ℕ × ℕ × ℕ) → ℤ → String → String → Option (ℕ → String) → Built
with_clock cal none run_timeout label proc date_of = refused bad_clock
with_clock cal (some clock) run_timeout label proc date_of =
    last_checks cal clock run_timeout label proc date_of

-- `New`; the calendar is `none` where the timezone does not load, `date_of` where it is nil.
unfoldable pub new : Option Calendar → String → String → Option (ℕ → String) → String → ℤ → Built
new none label proc date_of run_at run_timeout = refused bad_timezone
new (some cal) label proc date_of run_at run_timeout =
    with_clock cal (parse_clock run_at) run_timeout label proc date_of

-- `PriorDay`, for days that are counted from 1, and `CurrentDay`.
unfoldable pub prior_day : Calendar → ℕ → String
prior_day cal now = cal.format (cal.day now - 1)

unfoldable pub current_day : Calendar → ℕ → String
current_day cal now = cal.format (cal.day now)

-- `nextFire`.
unfoldable pub next_fire : Scheduler → ℕ → ℕ
next_fire s now =
    let (h, m, sec) = s.clock in
    let today = s.calendar.at (s.calendar.day now) h m sec in
    if ltb now today then today else s.calendar.next_day today

abbrev done : {W : Type 0} → GoError × W → Bool × W
done (nil, w) = (true, w)
done (e, w) = (false, w)

-- `runOnce` at an instant, with whether the call succeeded.
unfoldable pub run_once : {W : Type 0} → Scheduler → (String → W → GoError × W) → ℕ → W → Bool × W
run_once s call now w = done (
    call
      (str_append "CALL "
        (str_append s.proc (str_append "(DATE '" (str_append (s.date_of now) "')"))))
      w)
