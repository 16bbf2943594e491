-- ===== src/Relay.antt =====
-- services/outbox-relay/internal/config/config.go: LoadConfig and the readers of the environment. The
-- environment is a function; time.ParseDuration and strconv.ParseFloat are parameters, the former by
-- the nanoseconds it returns. An error is a value of its kind with the key and what it complains of.
pub mod Load
pub mod Loaded
use Prim.Native.Char.{Char, code}
use core_wallet.Prelude.{
  ℕ, ◌+◌, ◌-◌, ◌*◌, ◌%◌, ◌^◌, String, Bool, true, false, ◌&&◌, ◌||◌, not, Option, none, some, List,
  [], ◌∷◌, str_eq, trim_space, ltb, ◌==◌, if◌then◌else◌, suc,
}
use core_wallet.Prelude.Ints.{ℤ, pos, negsuc, ltz}
use core_wallet.Eod.{atoi}

pub data ConfigError : Type 0 where
  bad_mode : String → ConfigError
  not_integer not_float not_duration : String → String → ConfigError
  out_of_range too_small : String → ℤ → ConfigError
  no_brokers : ConfigError
  cap_below_base : ℤ → ℤ → ConfigError

-- `(T, error)`.
pub data Result (T : Type 0) : Type 0 where
  ok : T → Result T
  err : ConfigError → Result T

infixl 5 ◌>>=◌ ◌>>◌
abbrev pub ◌>>=◌ : {A B : Type 0} → Result A → (A → Result B) → Result B
ok a >>= f = f a
err e >>= f = err e

abbrev pub ◌>>◌ : {B : Type 0} → Result (Unit {0}) → Result B → Result B
m >> k = m >>= λ _. k

-- `if broken { return nil, e }`.
abbrev pub refuse : Bool → ConfigError → Result (Unit {0})
refuse true e = err e
refuse false e = ok tt

abbrev pub Env : Type 0
Env = String → Option String

-- A variable that is set to more than the empty text.
unfoldable pub present : Option String → Option String
present none = none
present (some v) = if str_eq v "" then none else some v

abbrev or_default : Option String → String → String
or_default none def = def
or_default (some v) def = v

-- `getEnv`.
unfoldable pub get_env : Env → String → String → String
unfolding present
get_env env key def = or_default (present (env key)) def

-- `strconv.Atoi` as an integer.
unfoldable pub to_int : Option (Bool × ℕ) → Option ℤ
to_int none = none
to_int (some (true, suc n)) = some (negsuc n)
to_int (some (_, n)) = some (pos n)

-- A value that is present is parsed; one that does not parse is the error.
unfoldable pub parsed :
    {A : Type 0} → (String → Option A) → (String → ConfigError) → A → Option String → Result A
parsed parse wrong def none = ok def
parsed parse wrong def (some v) = elim (parse (trim_space v)) [
  | none ↦ err (wrong v)
  | some a ↦ ok a
]

-- `getEnvInt`.
unfoldable pub get_env_int : Env → String → ℤ → Result ℤ
unfolding parsed present to_int
get_env_int env key def = parsed (λ v. to_int (atoi v)) (not_integer key) def (present (env key))

put : Char → List String → List String
put c [] = String.◌∷◌ c "" ∷ []
put c (w ∷ words) = String.◌∷◌ c w ∷ words

-- `strings.Split(v, ",")`.
unfoldable pub split_comma : String → List String
unfolding put
split_comma String.[] = "" ∷ []
split_comma (String.◌∷◌ c s) =
    let rest = split_comma s in if code c == b',' then "" ∷ rest else put c rest

-- The loop of `splitCSV`.
unfoldable pub trimmed : List String → List String
trimmed [] = []
trimmed (p ∷ parts) =
    let rest = trimmed parts in if str_eq (trim_space p) "" then rest else trim_space p ∷ rest

unfoldable pub split_csv : String → List String
unfolding split_comma trimmed
split_csv v = trimmed (split_comma v)

-- The bits of an int32 as an integer, and the narrowing of an int.
unfoldable pub signed32 : ℕ → ℤ
signed32 n = if ltb n (2 ^ 31) then pos n else negsuc (2 ^ 32 - 1 - n)

unfoldable pub narrow : ℤ → ℤ
unfolding signed32
narrow (pos n) = signed32 (n % 2 ^ 32)
narrow (negsuc n) = signed32 (2 ^ 32 - 1 - n % 2 ^ 32)

-- `v < lo || v > math.MaxInt32`.
unfoldable pub outside : ℤ → ℤ → Bool
outside lo v = ltz v lo || ltz (pos (2 ^ 31 - 1)) v
