-- ===== src/Eod/Schedule/Daily.antt =====
-- eod/scheduler.go: the close fires once a day.
use core_wallet.Prelude.{
  ℕ, ◌+◌, ◌≤◌, ◌<◌, ◌≡◌, refl, ap, ◌∙◌, subst, Bool, true, false, ltb, ltb→lt, arith, Bool-cases,
  inl, inr, ◌==◌, ==_iff,
}
use core_wallet.Eod.Clock.{IsTime}
use core_wallet.Eod.Schedule.{Calendar, Scheduler, next_fire}

-- A calendar without clock changes: a clock time stands on its day, the next day has the same one,
-- and days go with time.
pub record IsRegular (cal : Calendar) : Type 0 where
  pub stands : (d h m s : ℕ) → IsTime (h, m, s) → cal.day (cal.at d h m s) ≡ d
  pub aligned :
      (d h m s : ℕ) → IsTime (h, m, s) → cal.next_day (cal.at d h m s) ≡ cal.at (d + 1) h m s
  pub grows : (t u : ℕ) → t ≤ u → cal.day t ≤ cal.day u

-- The occurrence of the configured time on a day.
abbrev pub on_day : Scheduler → ℕ → ℕ
on_day s d = s.calendar.at d s.clock.0 s.clock.1 s.clock.2

ltb_irrefl : (n : ℕ) → ltb n n ≡ false
ltb_irrefl n = ground arith

module _ (s : Scheduler) (regular : IsRegular s.calendar) (time : IsTime s.clock) where
  -- The day of the first occurrence after an instant.
  abbrev First : ℕ → ℕ → Type 0
  First now d =
      (next_fire s now ≡ on_day s d)
      × (now < on_day s d)
      × (d ≤ s.calendar.day now + 1)
      × ((e : ℕ) → now < on_day s e → d ≤ e)

  not_before : (now e : ℕ) → now < on_day s e → s.calendar.day now ≤ e
  not_before now e h =
      let grown = regular.grows now (on_day s e) (omega (arith, h)) in
      let same = regular.stands e s.clock.0 s.clock.1 s.clock.2 time in omega (arith, grown, same)

  today : (now : ℕ) → now < on_day s (s.calendar.day now) → First now (s.calendar.day now)
  unfolding next_fire
  today now h = (ground (arith, h), h, omega arith, λ e after. not_before now e after)

  -- An instant at which the time of its day is past lies before the time of the next day.
  past :
      (now : ℕ) (later : Bool)
      → ltb now (on_day s (s.calendar.day now + 1)) ≡ later
      → now < on_day s (s.calendar.day now + 1)
  past now true h = ltb→lt _ _ h
  past now false h =
      let d = s.calendar.day now in
      let stands = regular.stands (d + 1) s.clock.0 s.clock.1 s.clock.2 time in
      let grown = regular.grows (on_day s (d + 1)) now (ground (arith, h)) in
      absurd (omega (arith, grown, stands))

  not_today :
      (now e : ℕ)
      → ltb now (on_day s (s.calendar.day now)) ≡ false
      → now < on_day s e
      → (e == s.calendar.day now) ≡ false
  not_today now e h after = elim (Bool-cases (e == s.calendar.day now)) [
    | inl same ↦
        let still = subst (λ x. now < on_day s x) ((==_iff e (s.calendar.day now)).0 same) after in
        absurd (ground (arith, h, still))
    | inr other ↦ other
  ]

  tomorrow :
      (now : ℕ)
      → ltb now (on_day s (s.calendar.day now)) ≡ false
      → First now (s.calendar.day now + 1)
  unfolding next_fire
  tomorrow now h =
      let same = regular.aligned (s.calendar.day now) s.clock.0 s.clock.1 s.clock.2 time in
      (
        rw (h) same,
        past now _ refl,
        omega arith,
        λ e after.
            let from = not_before now e after in
            let other = not_today now e h after in ground (arith, from, other),
      )

  first : (now : ℕ) → (d : ℕ) × First now d
  first now = elim (Bool-cases (ltb now (on_day s (s.calendar.day now)))) [
    | inl ahead ↦ (s.calendar.day now, today now (ltb→lt _ _ ahead))
    | inr behind ↦ (s.calendar.day now + 1, tomorrow now behind)
  ]

  -- At the time of a day, the next fire is at the time of the day after it.
  from_fire : (d : ℕ) → next_fire s (on_day s d) ≡ on_day s (d + 1)
  from_fire d =
      let stands = regular.stands d s.clock.0 s.clock.1 s.clock.2 time in
      let (fires, _, _, _) = tomorrow (on_day s d) (rw (stands) (ltb_irrefl (on_day s d))) in
      fires ∙ ap (λ x. on_day s (x + 1)) stands

-- In a location without clock changes and at a configured time of day, the next fire is the first occurrence of the configured time
-- after now, on the day of now or on the next one, and the fire behind it comes on the day after it.
pub next_fire-first :
    (s : Scheduler) (now : ℕ)
    → IsRegular s.calendar
    → IsTime s.clock
    → (d : ℕ) × (next_fire s now ≡ on_day s d)
      × (now < on_day s d)
      × (d ≤ s.calendar.day now + 1)
      × ((e : ℕ) → now < on_day s e → d ≤ e)
      × (next_fire s (next_fire s now) ≡ on_day s (d + 1))
next_fire-first s now regular time =
    let (d, occurs) = first s regular time now in
    let (fires, after, soon, least) = occurs in
    (d, fires, after, soon, least, ap (next_fire s) fires ∙ from_fire s regular time d)
