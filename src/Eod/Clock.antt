-- ===== src/Eod/Clock.antt =====
-- The configured time of eod/scheduler.go is a time of day.
use core_wallet.Prelude.{
  subst, ℕ, ◌≤◌, ◌≡◌, refl, String, Bool, true, false, Option, none, some, List, [], ◌∷◌, arith,
}
use core_wallet.Eod.{
  in_range, atoi_range, with_second, with_minute, with_hour, parts, split_colon, parse_clock, atoi,
  trim_space,
}

in_range_le :
    (lo hi n : ℕ) (o : Option (Bool × ℕ))
    → in_range lo hi o ≡ some n
    → lo ≤ hi
    → (lo ≤ n) × (n ≤ hi)
unfolding in_range
in_range_le lo hi n none h le = absurd cc
in_range_le lo hi n (some (true, k)) h le = ground arith
in_range_le lo hi n (some (false, k)) h le = ground arith

-- `atoiRange` hands out a number between its bounds, where the lower one is not above the upper.
pub atoi_range_bounds :
    (v : String) (lo hi n : ℕ) → lo ≤ hi → atoi_range v lo hi ≡ some n → (lo ≤ n) × (n ≤ hi)
unfolding atoi_range
atoi_range_bounds v lo hi n le h = in_range_le lo hi n (atoi v) h le

-- A time of day.
abbrev pub IsTime : ℕ × ℕ × ℕ → Type 0
IsTime t = (t.0 ≤ 23) × (t.1 ≤ 59) × (t.2 ≤ 59)

some-inj : {A : Type 0} {a b : A} → some a ≡ some b → a ≡ b
some-inj h = cc

with_second-IsTime :
    (h m : ℕ) (second : Option ℕ) (t : ℕ × ℕ × ℕ)
    → h ≤ 23
    → m ≤ 59
    → ((s : ℕ) → second ≡ some s → s ≤ 59)
    → with_second h m second ≡ some t
    → IsTime t
unfolding with_second
with_second-IsTime h m none t a b c e = absurd cc
with_second-IsTime h m (some s) t a b c e = subst IsTime (some-inj e) (a, b, c s refl)

with_minute-IsTime :
    (h : ℕ) (minute : Option ℕ) (second : Option String) (t : ℕ × ℕ × ℕ)
    → h ≤ 23
    → ((m : ℕ) → minute ≡ some m → m ≤ 59)
    → with_minute h minute second ≡ some t
    → IsTime t
unfolding with_minute
with_minute-IsTime h none second t a b e = absurd cc
with_minute-IsTime h (some m) none t a b e = subst IsTime (some-inj e) (a, b m refl, omega arith)
with_minute-IsTime h (some m) (some s) t a b e =
    with_second-IsTime h m (atoi_range s 0 59) t a (b m refl)
      (λ n f. (atoi_range_bounds s 0 59 n (omega arith) f).1) e

with_hour-IsTime :
    (hour : Option ℕ) (minute : String) (second : Option String) (t : ℕ × ℕ × ℕ)
    → ((h : ℕ) → hour ≡ some h → h ≤ 23)
    → with_hour hour minute second ≡ some t
    → IsTime t
unfolding with_hour
with_hour-IsTime none minute second t a e = absurd cc
with_hour-IsTime (some h) minute second t a e =
    with_minute-IsTime h (atoi_range minute 0 59) second t (a h refl)
      (λ n f. (atoi_range_bounds minute 0 59 n (omega arith) f).1) e

hour_bound : (v : String) (h : ℕ) → atoi_range v 0 23 ≡ some h → h ≤ 23
hour_bound v h f = (atoi_range_bounds v 0 23 h (omega arith) f).1

parts-IsTime : (ps : List String) (t : ℕ × ℕ × ℕ) → parts ps ≡ some t → IsTime t
unfolding parts
parts-IsTime (h ∷ m ∷ []) t e = with_hour-IsTime _ m none t (hour_bound h) e
parts-IsTime (h ∷ m ∷ s ∷ []) t e = with_hour-IsTime _ m (some s) t (hour_bound h) e
parts-IsTime ps t e = absurd cc

-- Whatever text is configured, a clock that `parseClock` accepts is a time of day: the hour is at most
-- 23, the minute and the second are at most 59.
pub parse_clock-IsTime : (v : String) (t : ℕ × ℕ × ℕ) → parse_clock v ≡ some t → IsTime t
unfolding parse_clock
parse_clock-IsTime v t h = parts-IsTime (split_colon (trim_space v)) t h
