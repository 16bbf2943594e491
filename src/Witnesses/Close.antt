-- ===== src/Witnesses/Close.antt =====
-- Configured times of the scheduler (eod/scheduler.go).
use core_wallet.Prelude.{ℕ, ◌+◌, ◌*◌, ◌/◌, ◌<◌, ◌≤◌, arith, ◌≡◌, refl, some, none, trim_space}
use core_wallet.Prelude.Ints.{pos}
use core_wallet.Eod.{parse_clock}
use core_wallet.Eod.Schedule.{Calendar, Scheduler, next_fire}
use core_wallet.Eod.Schedule.Daily.{IsRegular, on_day, next_fire-first}
use core_wallet.Eod.Clock.{IsTime, parse_clock-IsTime}

late : parse_clock " 23:59:07 " ≡ some (23, 59, 7)
unfolding parse_clock trim_space
late = refl

signed_minute : parse_clock "0:+5" ≡ some (0, 5, 0)
unfolding parse_clock trim_space
signed_minute = refl

too_late : parse_clock "24:00" ≡ none
unfolding parse_clock trim_space
too_late = refl

parse_clock-IsTime_example : IsTime (23, 59, 7)
parse_clock-IsTime_example = parse_clock-IsTime " 23:59:07 " (23, 59, 7) late

-- Days of 86400 seconds.
abbrev calendar : Calendar
calendar = record {
  day = λ t. t / 86400;
  at = λ d h m s. d * 86400 + (h * 3600 + (m * 60 + s));
  next_day = λ t. t + 86400;
  format = λ d. "2026-01-01";
}

regular : IsRegular calendar
regular = record {
  stands = λ d h m s time. omega (arith, time.0, time.1, time.2);
  aligned = λ d h m s time. omega arith;
  grows = λ t u h. omega (arith, h);
}

abbrev close : Scheduler
close = record {
  calendar = calendar;
  clock = (18, 0, 0);
  run_timeout = pos 3600;
  label = "gl-close";
  proc = "run_gl_close";
  date_of = λ t. "2026-01-01";
}

-- One second past the close of day 3.
next_fire-first_example :
    (d : ℕ) × (next_fire close 324001 ≡ on_day close d)
    × (324001 < on_day close d)
    × (d ≤ calendar.day 324001 + 1)
    × ((e : ℕ) → 324001 < on_day close e → d ≤ e)
    × (next_fire close (next_fire close 324001) ≡ on_day close (d + 1))
next_fire-first_example =
    next_fire-first close 324001 regular (omega arith, omega arith, omega arith)
