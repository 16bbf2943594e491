-- ===== src/Requests/Formats/Patterns.antt =====
-- server.go: the matchers against the patterns they stand for.
use core_wallet.Prelude.{
  ℕ, String, true, false, ◌≡◌, refl, ap, ◌↔◌, List, [], ◌∷◌, ◌++◌, codes, ◌==◌, all, arith,
  and_true, subst, sym, ◌∙◌, ==_iff,
}
use mathlib.Core.List.{append-nil}
use core_wallet.Requests.Formats.{
  is_digit, span_digits, counts, is_end, is_fraction, money_matches, is_money,
}

span_digits-append : (cs : List ℕ) → (span_digits cs).0 ++ (span_digits cs).1 ≡ cs
unfolding span_digits
span_digits-append [] = refl
span_digits-append (c ∷ cs) = ground (arith, span_digits-append cs)

span_digits-all : (cs : List ℕ) → all is_digit (span_digits cs).0 ≡ true
unfolding span_digits
span_digits-all [] = refl
span_digits-all (c ∷ cs) = ground (arith, span_digits-all cs)

-- The matcher takes every digit, so a rest never begins with one.
abbrev Stops : List ℕ → Type 0
Stops [] = Unit
Stops (c ∷ cs) = is_digit c ≡ false

span_digits_of :
    (front rest : List ℕ)
    → all is_digit front ≡ true
    → Stops rest
    → span_digits (front ++ rest) ≡ (front, rest)
unfolding span_digits
span_digits_of [] [] h s = refl
span_digits_of [] (c ∷ cs) h s = ground arith
span_digits_of (c ∷ front) rest h s =
    let (digit, digits) = and_true (is_digit c) (all is_digit front) h in
    ground (arith, digit, span_digits_of front rest digits s)

-- What `^\d{1,18}(\.\d{1,2})?$` says of a text: a whole part, and perhaps a point with a fraction.
pub data IsMoney : List ℕ → Type 0 where
  whole : (front : List ℕ) → all is_digit front ≡ true → counts 1 18 front ≡ true → IsMoney front
  parts :
      (front cents : List ℕ)
      → all is_digit front ≡ true
      → counts 1 18 front ≡ true
      → all is_digit cents ≡ true
      → counts 1 2 cents ≡ true
      → IsMoney (front ++ b'.' ∷ cents)

end_append : (cents rest cs : List ℕ) → is_end rest ≡ true → cents ++ rest ≡ cs → cents ≡ cs
end_append cents [] cs h e = sym (append-nil cents) ∙ e
end_append cents (c ∷ rest) cs h e = absurd cc

of_point :
    (front cs : List ℕ)
    → all is_digit front ≡ true
    → counts 1 18 front ≡ true
    → counts 1 2 (span_digits cs).0 ≡ true
    → is_end (span_digits cs).1 ≡ true
    → IsMoney (front ++ b'.' ∷ cs)
of_point front cs digits many few ends =
    let cents = (span_digits cs).0 in
    subst (λ t. IsMoney (front ++ b'.' ∷ t))
      (end_append cents (span_digits cs).1 cs ends (span_digits-append cs))
      (parts front cents digits many (span_digits-all cs) few)

of_rest :
    (front rest : List ℕ)
    → all is_digit front ≡ true
    → counts 1 18 front ≡ true
    → is_fraction rest ≡ true
    → IsMoney (front ++ rest)
unfolding is_fraction
of_rest front [] digits many f = subst IsMoney (sym (append-nil front)) (whole front digits many)
of_rest front (c ∷ cs) digits many f =
    let (point, more) = and_true (c == b'.') _ f in
    let (few, ends) = and_true (counts 1 2 (span_digits cs).0) _ more in
    subst (λ x. IsMoney (front ++ x ∷ cs)) (sym ((==_iff c b'.').0 point))
      (of_point front cs digits many few ends)

money_matches_to : (cs : List ℕ) → money_matches cs ≡ true → IsMoney cs
unfolding money_matches
money_matches_to cs h =
    let (many, f) = and_true (counts 1 18 (span_digits cs).0) _ h in
    subst IsMoney (span_digits-append cs)
      (of_rest (span_digits cs).0 (span_digits cs).1 (span_digits-all cs) many f)

all_digits : (front : List ℕ) → all is_digit front ≡ true → span_digits front ≡ (front, [])
all_digits front digits =
    ap span_digits (sym (append-nil front)) ∙ span_digits_of front [] digits tt

fraction_of :
    (cents : List ℕ)
    → all is_digit cents ≡ true
    → counts 1 2 cents ≡ true
    → is_fraction (b'.' ∷ cents) ≡ true
unfolding is_fraction
fraction_of cents digits few =
    let e = all_digits cents digits in rw (ap (λ p. p.0) e, ap (λ p. p.1) e, few) refl

split_money :
    (cs front rest : List ℕ)
    → span_digits cs ≡ (front, rest)
    → counts 1 18 front ≡ true
    → is_fraction rest ≡ true
    → money_matches cs ≡ true
unfolding money_matches
split_money cs front rest e many f = rw (ap (λ p. p.0) e, ap (λ p. p.1) e, many) f

money_matches_of : (cs : List ℕ) → IsMoney cs → money_matches cs ≡ true
unfolding is_fraction
money_matches_of _ (whole front digits many) =
    split_money front front [] (all_digits front digits) many refl
money_matches_of _ (parts front cents digits many cent_digits few) =
    split_money (front ++ b'.' ∷ cents) front (b'.' ∷ cents)
      (span_digits_of front (b'.' ∷ cents) digits refl) many (fraction_of cents cent_digits few)

-- The validator `money` accepts exactly the texts of one to eighteen digits, followed by nothing or
-- by a point and one or two digits.
pub is_money_iff : (s : String) → (is_money s ≡ true) ↔ IsMoney (codes s)
unfolding is_money
is_money_iff s = (money_matches_to (codes s), money_matches_of (codes s))
