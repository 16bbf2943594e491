-- ===== src/Requests.antt =====
-- services/wallet-service/internal/http: how a request body is bound and validated. The `binding` tags
-- of the structs in dto/dto.go are lists of rules; the two custom validators of server.go are in the
-- child `Formats`; the engine that runs the rules (go-playground/validator behind gin) is a parameter.
pub mod Formats
pub mod Finance
pub mod Treasury
pub mod Reversals
pub mod Decisions
pub mod Binding
use core_wallet.Prelude.{
  ℕ, String, Bool, true, false, ◌&&◌, not, ◌≡◌, ◌↔◌, Option, none, some, List, [], ◌∷◌, str_eq,
  length, codes, leb, any, all, map, str_append, if◌then◌else◌,
}
use core_wallet.Errors.Codes
use core_wallet.Problem.{FieldError, ProblemDetails, new_problem}
use core_wallet.Requests.Formats.{is_money, is_acct_no}

-- The tags that the requests use. `ne_field` carries the value of the field it names,
-- `layout` the reader of a date.
pub data Rule : Type 0 where
  required omitempty money acct_no : Rule
  min_len max_len : ℕ → Rule
  one_of : List String → Rule
  ne_field : String → Rule
  layout : (String → Bool) → Rule

-- A field of the struct: its name, its value and its tags in order.
pub record Field : Type 0 where
  pub name : String
  pub value : String
  pub rules : List Rule

-- What a tag of the requests asks of a text, by the documentation of the engine; `min` and `max` count
-- code points, not bytes.
unfoldable pub satisfies : Rule → String → Bool
satisfies required v = not (str_eq v "")
satisfies omitempty v = true
satisfies money v = is_money v
satisfies acct_no v = is_acct_no v
satisfies (min_len n) v = leb n (length (codes v))
satisfies (max_len n) v = leb (length (codes v)) n
satisfies (one_of words) v = any (str_eq v) words
satisfies (layout parses) v = parses v
satisfies (ne_field other) v = not (str_eq v other)

-- `omitempty` ends the rules of an empty text.
unfoldable pub passes : List Rule → String → Bool
unfolding satisfies
passes [] v = true
passes (omitempty ∷ rules) v = let rest = passes rules v in if str_eq v "" then true else rest
passes (rule ∷ rules) v = satisfies rule v && passes rules v

abbrev pub field_passes : Field → Bool
field_passes f = passes f.rules f.value

-- The engine: the name and the failed tag of each field at fault, none exactly when every field
-- passes its rules.
pub record Engine : Type 0 where
  pub validate : List Field → List (String × String)
  pub validate_iff :
      (fields : List Field) → (validate fields ≡ []) ↔ (all field_passes fields ≡ true)

-- An entry of `fieldErrors`.
unfoldable pub field_error : String × String → FieldError
field_error (name, tag) = record {
  path = name;
  code = tag;
  message = str_append "failed '" (str_append tag "' validation");
}

-- The body of `renderValidationError`, on the errors of the engine; a body that is no JSON of the
-- request's type has none.
unfoldable pub validation_problem : List (String × String) → String → ProblemDetails
unfolding field_error
validation_problem errors now =
    record (new_problem Codes.invalid_request 400 "request validation failed" now) {
      errors = map field_error errors;
    }

-- What `ShouldBindJSON` leaves: a request, or the errors to render.
pub data Bound (Q : Type 0) : Type 0 where
  bound : Q → Bound Q
  invalid : List (String × String) → Bound Q

abbrev judged : {Q : Type 0} → Q → List (String × String) → Bound Q
judged req [] = bound req
judged req errors = invalid errors

-- `ShouldBindJSON`: the decoded body, `none` where it is malformed, and its validation.
unfoldable pub should_bind_json : {Q : Type 0} → Engine → (Q → List Field) → Option Q → Bound Q
should_bind_json engine fields none = invalid []
should_bind_json engine fields (some req) = judged req (engine.validate (fields req))
