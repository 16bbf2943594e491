-- ===== src/Eod.antt =====
-- services/wallet-service/internal/eod/scheduler.go: the wall-clock time at which the close of day
-- fires, read from its configuration. The sleep, the calendar and the CALL of the procedure are not
-- modelled.
pub mod Clock
pub mod Schedule
use Prim.Native.Char.{Char, code}
use core_wallet.Prelude.{
  ℕ, ◌+◌, ◌-◌, ◌*◌, ◌^◌, String, Bool, true, false, ◌&&◌, Option, none, some, List, [], ◌∷◌, codes,
  trim_space, leb, ltb, ◌==◌, if◌then◌else◌,
}

put : Char → List String → List String
put c [] = String.◌∷◌ c "" ∷ []
put c (w ∷ words) = String.◌∷◌ c w ∷ words

-- `strings.Split(s, ":")`.
unfoldable pub split_colon : String → List String
unfolding put
split_colon String.[] = "" ∷ []
split_colon (String.◌∷◌ c s) =
    let rest = split_colon s in if code c == b':' then "" ∷ rest else put c rest

-- The decimal digits, added to what was read before.
digits : ℕ → List ℕ → Option ℕ
digits n [] = some n
digits n (d ∷ ds) =
    let rest = digits (n * 10 + (d - b'0')) ds in if leb b'0' d && leb d b'9' then rest else none

some_digits : List ℕ → Option ℕ
unfolding digits
some_digits [] = none
some_digits (d ∷ ds) = digits 0 (d ∷ ds)

-- The sign and the magnitude that `strconv.Atoi` accepts, if an int64 holds them.
in_int64 : Bool → Option ℕ → Option (Bool × ℕ)
in_int64 negative none = none
in_int64 true (some n) = if leb n (2 ^ 63) then some (true, n) else none
in_int64 false (some n) = if ltb n (2 ^ 63) then some (false, n) else none

signed : List ℕ → Option (Bool × ℕ)
unfolding in_int64 some_digits
signed [] = none
signed (c ∷ cs) =
    if c == b'-'
    then in_int64 true (some_digits cs)
    else if c == b'+'
    then in_int64 false (some_digits cs)
    else in_int64 false (some_digits (c ∷ cs))

unfoldable pub atoi : String → Option (Bool × ℕ)
unfolding signed
atoi s = signed (codes s)

-- The range check; a negative zero is 0.
in_range : ℕ → ℕ → Option (Bool × ℕ) → Option ℕ
in_range lo hi none = none
in_range lo hi (some (true, n)) = if n == 0 && lo == 0 then some 0 else none
in_range lo hi (some (false, n)) = if leb lo n && leb n hi then some n else none

-- `atoiRange`, for bounds that are not negative.
unfoldable pub atoi_range : String → ℕ → ℕ → Option ℕ
unfolding in_range atoi
atoi_range v lo hi = in_range lo hi (atoi v)

with_second : ℕ → ℕ → Option ℕ → Option (ℕ × ℕ × ℕ)
with_second h m none = none
with_second h m (some s) = some (h, m, s)

with_minute : ℕ → Option ℕ → Option String → Option (ℕ × ℕ × ℕ)
unfolding with_second atoi_range
with_minute h none second = none
with_minute h (some m) none = some (h, m, 0)
with_minute h (some m) (some second) = with_second h m (atoi_range second 0 59)

with_hour : Option ℕ → String → Option String → Option (ℕ × ℕ × ℕ)
unfolding with_minute atoi_range
with_hour none minute second = none
with_hour (some h) minute second = with_minute h (atoi_range minute 0 59) second

parts : List String → Option (ℕ × ℕ × ℕ)
unfolding with_hour atoi_range
parts (h ∷ m ∷ []) = with_hour (atoi_range h 0 23) m none
parts (h ∷ m ∷ s ∷ []) = with_hour (atoi_range h 0 23) m (some s)
parts _ = none

-- `parseClock`: hour, minute and second.
unfoldable pub parse_clock : String → Option (ℕ × ℕ × ℕ)
unfolding parts split_colon
parse_clock v = parts (split_colon (trim_space v))
