-- ===== src/Problem/Raised.antt =====
-- An exception that a stored procedure raises, from the driver's error to the response body.
use core_wallet.Prelude.{
  ℕ, subst, ==_iff, String, ◌≡◌, refl, ap, ◌≢◌, true, false, none, some, [], str_eq, eq_iff,
  str_append, starts_with, trim_space, cut, ◌==◌, Bool-cases, Option-cases, inl, inr, sym, ◌∙◌,
}
use Prim.Native.String.append
use mathlib.Core.Option
use Prim.Native.Char.{Char, char, IsScalar, code as char_code}
use core_wallet.Errors.{GoError, PgError, of_domain, internal_error}
use core_wallet.Errors.Meta.{meta_for, is_client_safe}
use core_wallet.PgErrors.{map_pg_error, parse_sp_message, pg_domain_error}
use core_wallet.PgErrors.Status.{http_status_for}
use core_wallet.PgErrors.Mapping.{
  IsPgChain, map_pg_error_of_pg, map_sql_state_raised, map_sql_state_codeless,
}
use core_wallet.Problem.{fallback, new_problem_from_error, render_error}
use core_wallet.Problem.Leaks.{render-of_domain, problem-internal_error}

-- What a message says by the convention of the procedures: a bare code, or a code in front of the first
-- colon and a detail behind it, each without the white space around it.
pub data Says : String → String → String → Type 0 where
  bare : (code : String) → cut b':' code ≡ none → Says code code ""
  detailed :
      (code detail : String)
      → cut b':' code ≡ none
      → Says (str_append code (str_append ":" detail)) (trim_space code) (trim_space detail)

colon-append : (detail : String) → str_append ":" detail ≡ String.◌∷◌ ":" detail
colon-append detail = rw (append.cons ":" "" detail, append.nil detail)

-- The first byte is no colon, and there is none behind it.
cut-cons-none :
    (c : Char) (s : String)
    → cut b':' (String.◌∷◌ c s) ≡ none
    → ((char_code c == b':') ≡ false) × (cut b':' s ≡ none)
unfolding cut
cut-cons-none c s h = elim (Bool-cases (char_code c == b':')) [
  | inl colon ↦ cc (rw colon at h)
  | inr other ↦ (other, (Option.map-eq-none_iff _ _).0 (rw other at h))
]

cut-append :
    (code detail : String)
    → cut b':' code ≡ none
    → cut b':' (str_append code (str_append ":" detail)) ≡ some (code, detail)
unfolding cut
cut-append String.[] detail h = rw (append.nil (str_append ":" detail), colon-append detail)
cut-append (String.◌∷◌ c s) detail h =
    let (other, later) = cut-cons-none c s h in
    rw (append.cons c s (str_append ":" detail), other) (rw (cut-append s detail later))

parse-Says :
    (msg code detail : String) → Says msg code detail → parse_sp_message msg ≡ (code, detail)
unfolding parse_sp_message
parse-Says msg code detail (bare _ c) = rw (c) refl
parse-Says msg code detail (detailed before after c) = rw (cut-append before after c) refl

not-safe-empty : (c : String) → is_client_safe c ≡ true → c ≢ ""
unfolding is_client_safe
not-safe-empty c h e = cc (rw e at h)

p0-ne-empty : (s : String) → starts_with s "P0" ≡ true → str_eq s "" ≡ false
p0-ne-empty s h = elim (Bool-cases (str_eq s "")) [
  | inl empty ↦ cc (ap (λ t. starts_with t "P0") ((eq_iff s "").0 empty))
  | inr other ↦ other
]

cons-ne-empty : (c : Char) (s : String) → String.◌∷◌ c s ≢ ""
cons-ne-empty c s h = cc

append-ne-empty : (code detail : String) → str_append code (str_append ":" detail) ≢ ""
append-ne-empty String.[] detail h =
    cons-ne-empty ":" detail (sym (append.nil (str_append ":" detail) ∙ colon-append detail) ∙ h)
append-ne-empty (String.◌∷◌ c s) detail h =
    cons-ne-empty c _ (sym (append.cons c s (str_append ":" detail)) ∙ h)

not_empty : (s : String) → s ≢ "" → str_eq s "" ≡ false
not_empty s ne = elim (Bool-cases (str_eq s "")) [
  | inl empty ↦ absurd (ne ((eq_iff s "").0 empty))
  | inr other ↦ other
]

-- A message with a code is not empty.
Says-ne-empty :
    (msg code detail : String) → Says msg code detail → code ≢ "" → str_eq msg "" ≡ false
Says-ne-empty msg code detail (bare _ c) ne = not_empty msg ne
Says-ne-empty msg code detail (detailed before after c) ne =
    not_empty _ (append-ne-empty before after)

mapped_raised :
    (err : GoError) (p : PgError) (code detail : String)
    → IsPgChain err p
    → starts_with p.code "P0" ≡ true
    → Says p.message code detail
    → code ≢ ""
    → map_pg_error err ≡ of_domain (pg_domain_error code (http_status_for code) detail p)
mapped_raised err p code detail chain p0 says ne =
    rw (map_pg_error_of_pg err p chain, parse-Says p.message code detail says)
      (rw (map_sql_state_raised code detail p err p0 ne))

-- An exception of the class 'P0', in a chain without a domain error or an end of the context, whose
-- message says a code that the client may see, with a detail or without, is answered with the status of
-- the code, the procedure's own SQLSTATE and its whole message.
pub render_raised :
    (err : GoError) (p : PgError) (code detail now : String)
    → IsPgChain err p
    → starts_with p.code "P0" ≡ true
    → Says p.message code detail
    → is_client_safe code ≡ true
    → render_error (map_pg_error err) now ≡ record {
      status = http_status_for code;
      detail = detail;
      error_code = p.code;
      error_message = p.message;
      iso_reason = (meta_for code).iso_reason;
      transaction_status = (meta_for code).tx_status;
      timestamp = now;
      errors = [];
    }
unfolding new_problem_from_error pg_domain_error
render_raised err p code detail now chain p0 says safe =
    let ne = not-safe-empty code safe in
    rw (mapped_raised err p code detail chain p0 says ne, render-of_domain _)
      (rw (safe, p0-ne-empty p.code p0, Says-ne-empty p.message code detail says ne))

-- An exception of the class 'P0', in a chain without a domain error or an end of the context, whose
-- message says a code that the client may not see, be it empty, is answered by the fallback body,
-- whatever status `httpStatusFor` gives the code.
pub render_raised_hidden :
    (err : GoError) (p : PgError) (code detail now : String)
    → IsPgChain err p
    → starts_with p.code "P0" ≡ true
    → Says p.message code detail
    → is_client_safe code ≡ false
    → render_error (map_pg_error err) now ≡ fallback now
unfolding new_problem_from_error pg_domain_error
render_raised_hidden err p code detail now chain p0 says hidden =
    elim (Bool-cases (str_eq code "")) [
      | inl empty ↦
          rw
            (
              map_pg_error_of_pg err p chain,
              parse-Says p.message code detail says,
              (eq_iff code "").0 empty,
              map_sql_state_codeless detail p err p0,
              render-of_domain (internal_error err),
            )
            (problem-internal_error err now)
      | inr other ↦
          rw
            (
              mapped_raised err p code detail chain p0 says (λ e. cc ((eq_iff code "").1 e)),
              render-of_domain _,
            )
            (rw hidden)
    ]

colon-code : (n : ℕ) (p : IsScalar n) → n ≡ 58 → char n p ≡ ":"
colon-code n p e = subst (λ m. (q : IsScalar m) → char m q ≡ ":") (sym e) (λ q. refl) p

colon-char : (c : Char) → (char_code c == b':') ≡ true → c ≡ ":"
colon-char (char n p) h = colon-code n p ((==_iff n 58).0 h)

some-inj : {A : Type 0} {a b : A} → some a ≡ some b → a ≡ b
some-inj h = cc

-- The parts of a message around its first colon.
cut-whole :
    (s : String) (p : String × String)
    → cut b':' s ≡ some p
    → (s ≡ str_append p.0 (str_append ":" p.1)) × (cut b':' p.0 ≡ none)
unfolding cut
cut-whole String.[] p h = absurd cc
cut-whole (String.◌∷◌ c s) p h = elim (Bool-cases (char_code c == b':')) [
  | inl colon ↦
      let e = some-inj (sym (rw colon at h)) in
      rw (e) (
        ap (λ d. String.◌∷◌ d s) (colon-char c colon)
            ∙ sym (append.nil (str_append ":" s) ∙ colon-append s),
        refl,
      )
  | inr other ↦
      let (q, found, e) = (Option.map-eq-some_iff _ _).0 (rw other at h) in
      let (whole, clean) = cut-whole s q found in
      rw (← e, append.cons c q.0 (str_append ":" q.1))
        (ap (λ t. String.◌∷◌ c t) whole, rw (other, clean) refl)
]

-- Every message says something.
says_something : (msg : String) → (code detail : String) × Says msg code detail
says_something msg = elim (Option-cases (cut b':' msg)) [
  | inl none_left ↦ (msg, "", bare msg none_left)
  | inr (p, found) ↦
      let (whole, clean) = cut-whole msg p found in
      (
        trim_space p.0,
        trim_space p.1,
        subst (λ m. Says m (trim_space p.0) (trim_space p.1)) (sym whole) (detailed p.0 p.1 clean),
      )
]
