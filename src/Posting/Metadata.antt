-- ===== src/Posting/Metadata.antt =====
-- repo/postgres.go: `orEmpty` and `withNarrative`, on a metadata map that is an association list.
pub mod Narrative
use core_wallet.Prelude.{String, Option, none, some, List, [], ◌∷◌, str_eq, if◌then◌else◌}

-- A value of the map: a text, or any other JSON value by its encoding.
pub data Json : Type 0 where
  text : String → Json
  raw : String → Json

abbrev pub Meta : Type 0
Meta = List (String × Json)

unfoldable pub lookup : String → Meta → Option Json
lookup key [] = none
lookup key ((k, v) ∷ m) = if str_eq k key then some v else lookup key m

-- `merged[key] = v` on a copy.
unfoldable pub put : String → Json → Meta → Meta
put key v [] = (key, v) ∷ []
put key v ((k, old) ∷ m) =
    let rest = put key v m in if str_eq k key then (k, v) ∷ m else (k, old) ∷ rest

-- `orEmpty`; a nil map is `none`.
unfoldable pub or_empty : Option Meta → Meta
or_empty none = []
or_empty (some m) = m

-- `withNarrative`.
unfoldable pub with_narrative : Option Meta → String → Meta
unfolding or_empty put
with_narrative m narrative =
    if str_eq narrative "" then or_empty m else put "narrative" (text narrative) (or_empty m)
