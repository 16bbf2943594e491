-- ===== src/Tx/Success.antt =====
-- A transaction of repo/postgres.go that `withTx` reports as done: some attempt of it committed.
use core_wallet.Prelude.{
  ℕ, zero, suc, ◌+◌, ◌≡◌, ◌≢◌, refl, ap, sym, ◌∙◌, Bool, true, false, ◌&&◌, not, if◌then◌else◌,
  Bool-cases, inl, inr, arith, ◌⊎◌,
}
use core_wallet.Errors.{GoError, nil, as_domain}
use core_wallet.Tx.{Driver, Settings, AuditContext, run_tx, attempts, with_tx, is_conflict, backoff}

conflict_not_nil : is_conflict nil ≢ true
unfolding is_conflict as_domain
conflict_not_nil h = cc

and_left : (a b : Bool) → (a && b) ≡ true → a ≡ true
and_left a b h = ground arith

skip : {A : Type 0} (b : Bool) (x y : A) → b ≡ false → (if b then x else y) ≡ y
skip b x y h = rw (h) refl

take : {A : Type 0} (b : Bool) (x y : A) → b ≡ true → (if b then x else y) ≡ x
take b x y h = rw (h) refl

module _ {W : Type 0} (d : Driver W) (r : Settings) (audit : AuditContext)
    (fn : W → GoError × W) where
  -- The choice behind one attempt, on its values.
  chosen :
      (one rest want : GoError × W) (w₂ : W) (again ended : Bool)
      → want.0 ≡ nil
      → (if is_conflict one.0 && again then (if ended then (one.0, w₂) else rest) else one) ≡ want
      → (one ≡ want) ⊎ (rest ≡ want)
  chosen one rest want w₂ again true z h = elim (Bool-cases (is_conflict one.0 && again)) [
    | inl on ↦ absurd (
        conflict_not_nil (
          ap is_conflict (sym (ap (λ q. q.0) (sym (take _ (one.0, w₂) one on) ∙ h) ∙ z))
          ∙ and_left _ again on))
    | inr off ↦ inl (sym (skip _ _ _ off) ∙ h)
  ]
  chosen one rest want w₂ again false z h = elim (Bool-cases (is_conflict one.0 && again)) [
    | inl on ↦ inr (sym (take _ _ _ on) ∙ h)
    | inr off ↦ inl (sym (skip _ _ _ off) ∙ h)
  ]

  attempts_success :
      (left attempt : ℕ) (w w' : W)
      → attempts d r left attempt audit fn w ≡ (nil, w')
      → (w₀ : W) × (run_tx d r audit fn w₀ ≡ (nil, w'))
  unfolding attempts
  attempts_success zero attempt w w' h = (w, h)
  attempts_success (suc left) attempt w w' h =
      let one = run_tx d r audit fn w in
      let waited = d.wait (backoff d r attempt one.1) one.1 in
      let rest = attempts d r left (attempt + 1) audit fn waited.1 in
      elim (chosen one rest (nil, w') waited.1 (not (d.ctx_done one.1)) waited.0 refl h) [
        | inl done ↦ (w, done)
        | inr later ↦ attempts_success left (attempt + 1) waited.1 w' later
      ]

  -- Where `withTx` reports success, one of its attempts began, did its work and committed, and its
  -- end is the end of the whole.
  pub with_tx_success :
      (w w' : W)
      → with_tx d r audit fn w ≡ (nil, w')
      → (w₀ : W) × (run_tx d r audit fn w₀ ≡ (nil, w'))
  unfolding with_tx
  with_tx_success w w' h = attempts_success r.tx_max_retries 0 w w' h
