-- ===== src/Auth/Tokens.antt =====
-- What middleware/gateway.go and middleware/jwt.go read from a token: the scheme, the payload segment
-- with its padding, and the claims.
pub mod Padding
use core_wallet.Prelude.{
  ℕ, zero, suc, ◌%◌, String, Bool, true, false, ◌&&◌, not, Option, none, some, List, [], ◌∷◌,
  str_eq, str_append, len, cut, trim_space, upper_eq, is_space, leb, if◌then◌else◌,
}
use Prim.Native.Char.{Char, code}
use package.text.Mathlib.Text.{get?}
use core_wallet.Auth.{Claim, text, items, Claims}

-- `h[:7]` folds to the scheme; a slice through a character does not.
is_scheme : Option String → Bool
is_scheme none = false
is_scheme (some prefix) = upper_eq prefix "BEARER "

or_empty : Option String → String
or_empty none = ""
or_empty (some s) = s

-- `bearerToken` of the `Authorization` header.
unfoldable pub bearer_token : String → String
unfolding is_scheme or_empty
bearer_token h =
    if not (leb (len h) 7) && is_scheme (get? h 0 7)
    then trim_space (or_empty (get? h 7 (len h)))
    else ""

-- `claimString`.
text_of : Option Claim → String
text_of (some (text s)) = trim_space s
text_of _ = ""

unfoldable pub claim_string : Claims → String → String
unfolding text_of
claim_string claims key = if str_eq key "" then "" else text_of (claims key)

pad : ℕ → String
pad zero = ""
pad (suc zero) = "==="
pad (suc (suc zero)) = "=="
pad _ = "="

-- The text that `b64urlDecode` decodes.
unfoldable pub padded : String → String
unfolding pad
padded s = str_append s (pad (len s % 4))

segment_of : String → Option (String × String) → String
segment_of rest none = rest
segment_of rest (some (before, after)) = before

-- `strings.Split(token, ".")[1]`, where there are two parts at least.
second_part : Option (String × String) → Option String
unfolding segment_of
second_part none = none
second_part (some (before, rest)) = some (segment_of rest (cut b'.' rest))

unfoldable pub payload_segment : String → Option String
unfolding second_part
payload_segment token = second_part (cut b'.' token)

non_empty : List (Option String) → List String
non_empty [] = []
non_empty (none ∷ rest) = non_empty rest
non_empty (some s ∷ rest) = if str_eq s "" then non_empty rest else s ∷ non_empty rest

-- Whether a word ends in front of the rest.
word_ends : String → Bool
word_ends String.[] = true
word_ends (String.◌∷◌ c s) = is_space (code c)

put : Char → Bool → List String → List String
put c true words = String.◌∷◌ c "" ∷ words
put c false [] = String.◌∷◌ c "" ∷ []
put c false (w ∷ words) = String.◌∷◌ c w ∷ words

-- `strings.Fields`.
unfoldable pub fields : String → List String
unfolding word_ends put
fields String.[] = []
fields (String.◌∷◌ c s) =
    let words = fields s in if is_space (code c) then words else put c (word_ends s) words

roles_of : Option Claim → List String
unfolding non_empty
roles_of (some (items elements)) = non_empty elements
roles_of (some (text s)) = fields s
roles_of _ = []

-- `extractRoles`; the claims come from JSON, where no value is a `[]string`.
unfoldable pub extract_roles : Claims → String → List String
unfolding roles_of
extract_roles claims key = roles_of (claims key)

module _ (b64_decode : String → Option String) (unmarshal : String → Option Claims) where
  parsed : Option String → Option Claims
  parsed none = none
  parsed (some bytes) = unmarshal bytes

  decoded : Option String → Option Claims
  unfolding parsed padded
  decoded none = none
  decoded (some segment) = parsed (b64_decode (padded segment))

  -- `decodeJWTPayload`: base64 and JSON are the standard library's.
  unfoldable pub decode_jwt_payload : String → Option Claims
  unfolding decoded payload_segment
  decode_jwt_payload token = decoded (payload_segment token)

  actor_in : String → String → Option Claims → String
  actor_in actor_claim fallback_claim none = ""
  actor_in actor_claim fallback_claim (some claims) =
      let actor = claim_string claims actor_claim in
      if str_eq actor "" then claim_string claims fallback_claim else actor

  -- The header's value without its scheme.
  unfoldable pub strip_scheme : String → String
  unfolding is_scheme or_empty
  strip_scheme raw =
      if leb 7 (len raw) && is_scheme (get? raw 0 7)
      then trim_space (or_empty (get? raw 7 (len raw)))
      else raw

  -- `gatewayActorFromRequest` of the value of the configured header.
  unfoldable pub gateway_actor_from : String → String → String → String
  unfolding actor_in decode_jwt_payload strip_scheme
  gateway_actor_from value actor_claim fallback_claim =
      let raw = trim_space value in
      if str_eq raw ""
      then ""
      else actor_in actor_claim fallback_claim (decode_jwt_payload (strip_scheme raw))
