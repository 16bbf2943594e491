-- ===== src/Requests/Formats.antt =====
-- services/wallet-service/internal/http/server.go: the patterns `moneyRE` and `acctNoRE` of the custom
-- validators, as matchers on the code points of a text.
pub mod Patterns
use core_wallet.Prelude.{
  ℕ, String, Bool, true, false, ◌&&◌, ◌||◌, List, [], ◌∷◌, codes, length, leb, ◌==◌, all,
  if◌then◌else◌,
}

-- `\d` of RE2.
abbrev pub is_digit : ℕ → Bool
is_digit c = leb b'0' c && leb c b'9'

-- The digits in front, and the rest.
unfoldable pub span_digits : List ℕ → List ℕ × List ℕ
span_digits [] = ([], [])
span_digits (c ∷ cs) =
    let (front, rest) = span_digits cs in if is_digit c then (c ∷ front, rest) else ([], c ∷ cs)

-- Between `lo` and `hi` digits, and nothing behind them.
abbrev pub counts : ℕ → ℕ → List ℕ → Bool
counts lo hi front = leb lo (length front) && leb (length front) hi

abbrev pub is_end : List ℕ → Bool
is_end [] = true
is_end _ = false

-- `(\.\d{1,2})?$`.
unfoldable pub is_fraction : List ℕ → Bool
unfolding span_digits
is_fraction [] = true
is_fraction (c ∷ cs) =
    let (front, rest) = span_digits cs in c == b'.' && (counts 1 2 front && is_end rest)

-- `^\d{1,18}(\.\d{1,2})?$`.
unfoldable pub money_matches : List ℕ → Bool
unfolding span_digits is_fraction
money_matches cs = let (front, rest) = span_digits cs in counts 1 18 front && is_fraction rest

-- `validateMoney`.
unfoldable pub is_money : String → Bool
unfolding money_matches
is_money s = money_matches (codes s)

-- `[A-Z0-9]`.
abbrev pub is_acct_char : ℕ → Bool
is_acct_char c = (leb b'A' c && leb c b'Z') || is_digit c

-- `validateAcctNo`: `^[A-Z0-9]{8,20}$`.
unfoldable pub is_acct_no : String → Bool
is_acct_no s = all is_acct_char (codes s) && counts 8 20 (codes s)
