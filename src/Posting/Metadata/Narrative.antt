-- ===== src/Posting/Metadata/Narrative.antt =====
-- repo/postgres.go: what the metadata that a posting sends holds under each key.
use core_wallet.Prelude.{
  ◌&&◌, String, ◌≡◌, ap, ◌∙◌, subst, false, not, Option, some, [], ◌∷◌, str_eq, eq_iff, eq_refl,
  Bool-cases, inl, inr, arith, if◌then◌else◌,
}
use core_wallet.Posting.Metadata.{Json, text, Meta, lookup, put, or_empty, with_narrative}

lookup-put_same : (k : String) (v : Json) (m : Meta) → lookup k (put k v m) ≡ some v
unfolding lookup put
lookup-put_same k v [] = ground (arith, eq_refl k)
lookup-put_same k v ((k', old) ∷ m) = ground (arith, eq_refl k, lookup-put_same k v m)

-- Two keys that differ.
lookup-put_other :
    (k key : String) (v : Json) (m : Meta)
    → str_eq k key ≡ false
    → lookup key (put k v m) ≡ lookup key m
unfolding lookup put
lookup-put_other k key v [] h = ground arith
lookup-put_other k key v ((k', old) ∷ m) h = elim (Bool-cases (str_eq k' k)) [
  | inl same ↦
      let apart = ap (λ x. str_eq x key) ((eq_iff k' k).0 same) ∙ h in ground (arith, apart)
  | inr other ↦ ground (arith, lookup-put_other k key v m h)
]

lookup-put :
    (k key : String) (v : Json) (m : Meta)
    → lookup key (put k v m) ≡ (if str_eq k key then some v else lookup key m)
lookup-put k key v m = elim (Bool-cases (str_eq k key)) [
  | inl same ↦
      rw (same)
        (subst (λ x. lookup x (put k v m) ≡ some v) ((eq_iff k key).0 same) (lookup-put_same k v m))
  | inr other ↦ rw (other) (lookup-put_other k key v m other)
]

-- What is read back from the metadata of a request: under "narrative" the narrative, where there is
-- one, and under every other key, as with an empty narrative, what the caller put there.
pub lookup-with_narrative :
    (m : Option Meta) (narrative key : String)
    → lookup key (with_narrative m narrative) ≡ (
        if not (str_eq narrative "") && str_eq "narrative" key
        then some (text narrative)
        else lookup key (or_empty m))
unfolding with_narrative
lookup-with_narrative m narrative key =
    ground (arith, lookup-put "narrative" key (text narrative) (or_empty m))
