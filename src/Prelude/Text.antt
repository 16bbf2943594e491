-- ===== src/Prelude/Text.antt =====
-- Go strings as native texts: equality, `strings.HasSuffix`, `strings.TrimSpace`, the two slices
-- around `strings.IndexByte`, and comparison after `strings.ToUpper`.
use Prim.Native.Nat.{ℕ, ◌-◌}
use Prim.Native.Char.{code}
use Prim.Native.String.{String}
use mathlib.Core.Path.{◌≡◌, refl}
use mathlib.Core.Bool.{Bool, true, false, ◌&&◌, ◌||◌}
use mathlib.Core.Option
use mathlib.Core.Option.{Option, none, some}
use mathlib.Core.List.{List, [], ◌∷◌, map}
use core_wallet.Prelude.Tests.{◌==◌, leb, if◌then◌else◌}
pub use text.Mathlib.Text.{◌==◌ as str_eq, starts_with}
pub use text.Mathlib.TextEquality.{eq_iff}
pub use text.Mathlib.TextPositions.{eq_refl}
pub use Prim.Native.String.{◌++◌ as str_append, len}

-- The code points of a text.
abbrev pub codes : String → List ℕ
codes String.[] = []
codes (String.◌∷◌ c s) = code c ∷ codes s

-- `strings.HasSuffix`: some tail of the text is the suffix.
unfoldable pub has_suffix : String → String → Bool
has_suffix String.[] suffix = str_eq "" suffix
has_suffix (String.◌∷◌ c s) suffix =
    if str_eq (String.◌∷◌ c s) suffix then true else has_suffix s suffix

-- `unicode.IsSpace`.
unfoldable pub is_space : ℕ → Bool
is_space n =
    (leb 9 n && leb n 13)
    || n == 32
    || n == 0x85
    || n == 0xa0
    || n == 0x1680
    || (leb 0x2000 n && leb n 0x200a)
    || n == 0x2028
    || n == 0x2029
    || n == 0x202f
    || n == 0x205f
    || n == 0x3000

unfoldable pub trim_left : String → String
unfolding is_space
trim_left String.[] = ""
trim_left (String.◌∷◌ c s) = if is_space (code c) then trim_left s else String.◌∷◌ c s

-- Drops the character in front of an empty rest if it is white space.
unfoldable pub trim_right : String → String
unfolding is_space
trim_right String.[] = ""
trim_right (String.◌∷◌ c s) =
    let rest = trim_right s in if str_eq rest "" && is_space (code c) then "" else String.◌∷◌ c rest

-- `strings.TrimSpace`.
unfoldable pub trim_space : String → String
unfolding trim_left trim_right
trim_space s = trim_right (trim_left s)

-- The slices before and behind the first byte `b`, an ASCII character; `none` where it is missing.
unfoldable pub cut : ℕ → String → Option (String × String)
cut b String.[] = none
cut b (String.◌∷◌ c s) =
    if code c == b then some ("", s) else Option.map (λ p. (String.◌∷◌ c p.0, p.1)) (cut b s)

-- `unicode.ToUpper`, for the code points whose upper case is an ASCII character.
unfoldable pub to_upper : ℕ → ℕ
to_upper n =
    if leb b'a' n && leb n b'z'
    then n - 32
    else if n == 0x131
    then b'I'
    else if n == 0x17f
    then b'S'
    else n

same_codes : List ℕ → List ℕ → Bool
same_codes [] [] = true
same_codes (a ∷ as') (b ∷ bs) = (a == b) && same_codes as' bs
same_codes _ _ = false

-- `strings.ToUpper(s) == t` for an ASCII text `t`. A code point whose upper case is no ASCII
-- character is no ASCII character itself, so leaving it alone does not change the answer.
unfoldable pub upper_eq : String → String → Bool
unfolding to_upper same_codes
upper_eq s t = same_codes (map to_upper (codes s)) (codes t)

trim_test : trim_space " \tab c \n" ≡ "ab c"
unfolding trim_space
trim_test = refl

suffix_test : has_suffix "FROM_ACCT_NOT_FOUND" "_NOT_FOUND" ≡ true
unfolding has_suffix
suffix_test = refl

cut_test : cut b':' "A: b:c" ≡ some ("A", " b:c")
unfolding cut
cut_test = refl

upper_test : upper_eq "opsUı" "OPSUI" ≡ true
unfolding upper_eq
upper_test = refl
