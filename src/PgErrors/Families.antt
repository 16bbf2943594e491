-- ===== src/PgErrors/Families.antt =====
-- The families of raised codes: what `httpStatusFor` and `IsClientSafeCode` say of every code with a
-- given suffix, named in the `switch` or not.
use core_wallet.Prelude.{
  String, ◌≡◌, refl, Bool, true, false, not, List, [], ◌∷◌, all, arith, str_eq, eq_iff, has_suffix,
  Bool-cases, ap, inl, inr, none,
}
use core_wallet.Errors.Codes
use core_wallet.Errors.Meta.{is_client_safe, is_some, find_meta, code_meta}
use core_wallet.PgErrors.Status.{
  http_status_for, one_of, family_status, bad_request, maker_check, tier, locked, rule, conflict,
  unprocessable, server_fault, query_range, gone, closed,
}

-- No `case` matches a code with a property that none of its values has.
not-one_of :
    (p : String → Bool) (cases : List String) (code : String)
    → p code ≡ true
    → all (λ c. not (p c)) cases ≡ true
    → one_of cases code ≡ false
unfolding one_of
not-one_of p [] code h a = refl
not-one_of p (c ∷ cs) code h a = elim (Bool-cases (str_eq code c)) [
  | inl same ↦ ground (arith, ap p ((eq_iff code c).0 same))
  | inr other ↦ rw other (not-one_of p cs code h (ground arith))
]

module _ (p : String → Bool) (code : String) (h : p code ≡ true) where
  -- A code outside every `case` gets the status of its family.
  status-family :
      all (λ c. not (p c)) bad_request ≡ true
      → all (λ c. not (p c)) maker_check ≡ true
      → all (λ c. not (p c)) tier ≡ true
      → all (λ c. not (p c)) locked ≡ true
      → all (λ c. not (p c)) rule ≡ true
      → all (λ c. not (p c)) conflict ≡ true
      → all (λ c. not (p c)) unprocessable ≡ true
      → all (λ c. not (p c)) server_fault ≡ true
      → all (λ c. not (p c)) query_range ≡ true
      → all (λ c. not (p c)) gone ≡ true
      → all (λ c. not (p c)) closed ≡ true
      → http_status_for code ≡ family_status code
  unfolding http_status_for
  status-family a b c d e f g i j k l = rw (
    not-one_of p bad_request code h a,
    not-one_of p maker_check code h b,
    not-one_of p tier code h c,
    not-one_of p locked code h d,
    not-one_of p rule code h e,
    not-one_of p conflict code h f,
    not-one_of p unprocessable code h g,
    not-one_of p server_fault code h i,
    not-one_of p query_range code h j,
    not-one_of p gone code h k,
    not-one_of p closed code h l,
  )

safe_of_suffix :
    (suffix code : String)
    → has_suffix code suffix ≡ true
    → has_suffix "" suffix ≡ false
    → has_suffix Codes.internal suffix ≡ false
    → (str_eq code "" ≡ false) × (str_eq code Codes.internal ≡ false)
safe_of_suffix suffix code h a b = (
  elim (Bool-cases (str_eq code "")) [
    | inl same ↦ cc (ap (λ c. has_suffix c suffix) ((eq_iff code "").0 same))
    | inr other ↦ other
  ],
  elim (Bool-cases (str_eq code Codes.internal)) [
    | inl same ↦ cc (ap (λ c. has_suffix c suffix) ((eq_iff code Codes.internal).0 same))
    | inr other ↦ other
  ],
)

-- Every code that ends in _NOT_FOUND is answered with 404 and shown to the client.
not_found_family :
    (code : String)
    → has_suffix code "_NOT_FOUND" ≡ true
    → (http_status_for code ≡ 404) × (is_client_safe code ≡ true)
unfolding family_status is_client_safe has_suffix
not_found_family code h =
    let (full, other) = safe_of_suffix "_NOT_FOUND" code h refl refl in
    (
      rw
          (status-family (λ c. has_suffix c "_NOT_FOUND") code h refl refl refl refl refl refl refl
            refl refl refl refl)
          (rw h),
      ground arith,
    )

-- A code with no entry in `codeMeta` stands in no `case`.
unregistered : String → Bool
unregistered code = not (is_some (find_meta code code_meta))

status_unregistered :
    (code : String) → find_meta code code_meta ≡ none → http_status_for code ≡ family_status code
unfolding unregistered find_meta code_meta
status_unregistered code h =
    status-family unregistered code (rw h) refl refl refl refl refl refl refl refl refl refl refl

-- A code outside the registry that ends in _CONFLICT, and in no other suffix of a family, has the
-- status 409 but is not shown to the client.
pub conflict_family_hidden :
    (code : String)
    → find_meta code code_meta ≡ none
    → has_suffix code "_CONFLICT" ≡ true
    → has_suffix code "_NOT_FOUND" ≡ false
    → has_suffix code "_NOT_ACTIVE" ≡ false
    → has_suffix code "_RESTRAINT_ACTIVE" ≡ false
    → (http_status_for code ≡ 409) × (is_client_safe code ≡ false)
unfolding family_status is_client_safe
conflict_family_hidden code h c f a r =
    (rw (status_unregistered code h) (rw (f, a, c)), rw (h, f, a, r) (ground arith))

-- A code outside the registry that ends in _RESTRAINT_ACTIVE, and in no other suffix of a family, is
-- shown to the client but has the status 500.
pub restraint_family_unmapped :
    (code : String)
    → find_meta code code_meta ≡ none
    → has_suffix code "_RESTRAINT_ACTIVE" ≡ true
    → has_suffix code "_NOT_FOUND" ≡ false
    → has_suffix code "_NOT_ACTIVE" ≡ false
    → has_suffix code "_CONFLICT" ≡ false
    → (http_status_for code ≡ 500) × (is_client_safe code ≡ true)
unfolding family_status is_client_safe has_suffix
restraint_family_unmapped code h r f a c =
    let (full, other) = safe_of_suffix "_RESTRAINT_ACTIVE" code r refl refl in
    (rw (status_unregistered code h) (rw (f, a, c)), rw (full, other, h, f, a, r))
