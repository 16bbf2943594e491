-- ===== src/Pages.antt =====
-- The keyset pages of services/wallet-service/internal: the clamp of usecase/restraint.go and
-- manual_je.go, the statement of repo/restraint.go and manual_je.go as a function on the rows, which
-- are listed from the greatest key down, and the cursor of http/dto/restraint.go and manual_je.go.
pub mod Walk
pub mod Single
pub mod Restraints
pub mod Journals
use core_wallet.Prelude.{
  ℕ, zero, suc, String, Bool, true, false, ◌&&◌, Option, none, some, List, [], ◌∷◌, length, take,
  ltb, leb, ◌==◌, if◌then◌else◌, ◌>>=◌,
}
use core_wallet.Eod.{atoi}

abbrev pub default_page_size : ℕ
default_page_size = 100

abbrev pub max_page_size : ℕ
max_page_size = 200

-- The clamp of a limit in front of the repository call.
unfoldable pub clamp : ℕ → ℕ
clamp n =
    let m = if n == 0 then default_page_size else n in
    if ltb max_page_size m then max_page_size else m

-- What becomes of a query parameter: absent, a number, or a refusal.
pub data Param : Type 0 where
  absent : Param
  number : ℕ → Param
  invalid : Param

abbrev positive : Option (Bool × ℕ) → Param
positive none = invalid
positive (some (true, n)) = invalid
positive (some (false, n)) = if n == 0 then invalid else number n

abbrev natural : Option (Bool × ℕ) → Param
natural none = invalid
natural (some (true, n)) = if n == 0 then number 0 else invalid
natural (some (false, n)) = number n

-- `limit`: empty, or a positive integer.
unfoldable pub limit_param : String → Param
limit_param String.[] = absent
limit_param v = positive (atoi v)

-- `before_seq` and `before_id`: empty, or an integer that is not negative.
unfoldable pub before_param : String → Param
before_param String.[] = absent
before_param v = natural (atoi v)

module _ {V : Type 0} (key : V → ℕ) where
  -- `$2::bigint IS NULL OR key < $2`.
  unfoldable pub is_before : Option ℕ → V → Bool
  is_before none v = true
  is_before (some c) v = ltb (key v) c

  unfoldable pub filter : (V → Bool) → List V → List V
  filter p [] = []
  filter p (v ∷ vs) = let rest = filter p vs in if p v then v ∷ rest else rest

  -- The rows behind the cursor, up to the limit.
  unfoldable pub select : Option ℕ → ℕ → List V → List V
  select cursor limit rows = take limit (filter (is_before cursor) rows)

  unfoldable pub last_key : List V → Option ℕ
  last_key [] = none
  last_key (v ∷ []) = some (key v)
  last_key (v ∷ vs) = last_key vs

  -- The cursor of a response: the last key of a page that is full.
  unfoldable pub next_cursor : ℕ → List V → Option ℕ
  next_cursor limit views = if ltb 0 limit && length views == limit then last_key views else none
