-- ===== src/Tx/Retry.antt =====
-- The retry loop `withTx`: how often it runs, when it stops, and what it hands to its caller.
use core_wallet.Prelude.{
  ℕ, zero, suc, ◌+◌, ◌≤◌, String, ◌≡◌, refl, ◌∙◌, ap, sym, subst, ◌⊎◌, ◌↔◌, Bool, true, false, not,
  ◌&&◌, if◌then◌else◌, ◌-◌, arith, starts_with, List,
}
use core_wallet.Errors.{GoError, nil, PgError}
use core_wallet.Errors.Codes
use core_wallet.PgErrors.{map_pg_error, map_sql_state, parse_sp_message}
use core_wallet.PgErrors.Mapping.{
  IsPgChain, map_pg_error_of_pg, map_sql_state-retriable, as_domain-of_domain,
}
use core_wallet.Tx.{
  Driver, Settings, AuditContext, run_tx, on_ok, attempts, with_tx, backoff, is_conflict, abort,
}
use core_wallet.Tx.Attempt.{IsMapped, run_tx-IsMapped}

-- The errors that `withTx` retries: a serialization failure, a deadlock, and a VERSION_CONFLICT that
-- a procedure raised with a SQLSTATE of the class 'P0'.
pub is_conflict_iff :
    (err : GoError) (p : PgError)
    → IsPgChain err p
    → (is_conflict (map_pg_error err) ≡ true) ↔ (
        (p.code ≡ "40001")
        ⊎ (p.code ≡ "40P01")
        ⊎ ((starts_with p.code "P0" ≡ true)
            × ((parse_sp_message p.message).0 ≡ Codes.version_conflict)))
unfolding is_conflict
is_conflict_iff err p c =
    let (code, detail) = parse_sp_message p.message in
    rw (map_pg_error_of_pg err p c, as_domain-of_domain (map_sql_state code detail p err))
      (map_sql_state-retriable code detail p err)

if-IsMapped :
    {W : Type 0} (b : Bool) (s t : GoError × W)
    → IsMapped s.0
    → IsMapped t.0
    → IsMapped (if b then s else t).0
if-IsMapped true s t h k = h
if-IsMapped false s t h k = k

module _ {W : Type 0} (d : Driver W) (r : Settings) (audit : AuditContext)
    (fn : W → GoError × W) where
  abbrev once : W → GoError × W
  once = run_tx d r audit fn

  abbrev loop : ℕ → ℕ → W → GoError × W
  loop left attempt = attempts d r left attempt audit fn

  attempts-IsMapped : (left attempt : ℕ) (w : W) → IsMapped (loop left attempt w).0
  unfolding attempts
  attempts-IsMapped zero attempt w = run_tx-IsMapped d r audit fn w
  attempts-IsMapped (suc left) attempt w =
      let here = run_tx-IsMapped d r audit fn w in
      let w₁ = (once w).1 in
      let (ended, w₂) = d.wait (backoff d r attempt w₁) w₁ in
      let rest = loop left (attempt + 1) w₂ in
      let waited : GoError × W = ((once w).0, w₂) in
      let later = if-IsMapped ended waited rest here (attempts-IsMapped left (attempt + 1) w₂) in
      if-IsMapped (is_conflict (once w).0 && not (d.ctx_done w₁)) (if ended then waited else rest)
        (once w) later here

  -- `k` attempts in a row from `w` lose a conflict while the context lives, and lead to `w'`.
  abbrev pub Conflicts : ℕ → ℕ → W → W → Type 0
  Conflicts zero attempt w w' = w ≡ w'
  Conflicts (suc k) attempt w w' =
      let (err, w₁) = once w in
      let (ended, w₂) = d.wait (backoff d r attempt w₁) w₁ in
      (is_conflict err ≡ true)
      × (d.ctx_done w₁ ≡ false)
      × (ended ≡ false)
      × Conflicts k (attempt + 1) w₂ w'

  -- The reasons for which the loop stops behind an attempt.
  abbrev pub Stops : ℕ → W → Type 0
  Stops left w = (left ≡ 0) ⊎ (is_conflict (once w).0 ≡ false) ⊎ (d.ctx_done (once w).1 ≡ true)

  attempts_stop : (left attempt : ℕ) (w : W) → Stops left w → loop left attempt w ≡ once w
  unfolding attempts
  attempts_stop zero attempt w h = refl
  attempts_stop (suc left) attempt w h = ground arith

  attempts_step :
      (left attempt : ℕ) (w : W)
      → is_conflict (once w).0 ≡ true
      → d.ctx_done (once w).1 ≡ false
      → (d.wait (backoff d r attempt (once w).1) (once w).1).0 ≡ false
      → loop (suc left) attempt w
        ≡ loop left (attempt + 1) (d.wait (backoff d r attempt (once w).1) (once w).1).1
  unfolding attempts
  attempts_step left attempt w c l e = rw (c, l, e)

  attempts_resume :
      (k left attempt : ℕ) (w w' : W)
      → Conflicts k attempt w w'
      → k ≤ left
      → Stops (left - k) w'
      → loop left attempt w ≡ once w'
  attempts_resume zero left attempt w w' c h s =
      attempts_stop left attempt w
        (subst (λ v. Stops left v) (sym c) (subst (λ n. Stops n w') (omega arith) s))
      ∙ ap once c
  attempts_resume (suc k) zero attempt w w' c h s = absurd (omega arith)
  attempts_resume (suc k) (suc left) attempt w w' (lost, lives, waited, later) h s =
      attempts_step left attempt w lost lives waited
      ∙ attempts_resume k left (attempt + 1) _ w' later (omega arith)
          (subst (λ n. Stops n w') (omega arith) s)

  -- Up to the configured number of retries, `withTx` absorbs conflicts: behind `k` lost attempts it
  -- hands out the result of the next one, be it a success, another error, a conflict behind the last
  -- retry or one behind the end of the context.
  pub with_tx_resumes :
      (k : ℕ) (w w' : W)
      → Conflicts k 0 w w'
      → k ≤ r.tx_max_retries
      → Stops (r.tx_max_retries - k) w'
      → with_tx d r audit fn w ≡ run_tx d r audit fn w'
  unfolding with_tx
  with_tx_resumes k w w' c h s = attempts_resume k r.tx_max_retries 0 w w' c h s

  -- What `withTx` hands out is a success or a domain error.
  pub with_tx-IsMapped : (w : W) → IsMapped (with_tx d r audit fn w).0
  unfolding with_tx
  with_tx-IsMapped w = attempts-IsMapped r.tx_max_retries 0 w

  -- A measure of the state that counts the transactions begun.
  pub record CountsBegins (count : W → ℕ) : Type 0 where
    pub begins : (w : W) → count (d.begin w).1 ≡ count w + 1
    pub times : (s l : ℕ) (w : W) → count (d.set_timeouts s l w).1 ≡ count w
    pub audits : (g : List (String × String)) (w : W) → count (d.set_config g w).1 ≡ count w
    pub works : (w : W) → count (fn w).1 ≡ count w
    pub commits : (w : W) → count (d.commit w).1 ≡ count w
    pub rolls_back : (w : W) → count (d.rollback w) ≡ count w
    pub waits : (t : ℕ) (w : W) → count (d.wait t w).1 ≡ count w

  module _ (count : W → ℕ) (c : CountsBegins count) where
    on_ok-count :
        (n : ℕ) (s : GoError × W) (fail : GoError → W → GoError × W) (k : W → GoError × W)
        → ((e : GoError) (w : W) → count w ≡ n → count (fail e w).1 ≡ n)
        → ((w : W) → count w ≡ n → count (k w).1 ≡ n)
        → count s.1 ≡ n
        → count (on_ok s fail k).1 ≡ n
    unfolding on_ok
    on_ok-count n (nil, w) fail k f g h = g w h
    on_ok-count n (e, w) fail k f g h = f _ w h

    abort-count : (n : ℕ) (e : GoError) (w : W) → count w ≡ n → count (abort d r e w).1 ≡ n
    abort-count n e w h = c.rolls_back w ∙ h

    run_tx-count : (w : W) → count (once w).1 ≡ count w + 1
    unfolding run_tx
    run_tx-count w =
        let n = count w + 1 in
        on_ok-count n _ _ _ (λ e w h. h)
          (λ w h.
            on_ok-count n _ _ _ (abort-count n)
              (λ w h.
                on_ok-count n _ _ _ (abort-count n)
                  (λ w h.
                    on_ok-count n _ _ _ (abort-count n)
                      (λ w h.
                        on_ok-count n _ _ _ (abort-count n) (λ w h. c.rolls_back w ∙ h)
                          (c.commits w ∙ h))
                      (c.works w ∙ h))
                  (c.audits _ w ∙ h))
              (c.times _ _ w ∙ h))
          (c.begins w)

    attempts-count :
        (left attempt : ℕ) (w : W)
        → (count w + 1 ≤ count (loop left attempt w).1)
          × (count (loop left attempt w).1 ≤ count w + 1 + left)
    unfolding attempts
    attempts-count zero attempt w = omega (arith, run_tx-count w)
    attempts-count (suc left) attempt w =
        let w₁ = (once w).1 in
        let pause = backoff d r attempt w₁ in
        ground (
          arith,
          run_tx-count w,
          c.waits pause w₁,
          attempts-count left (attempt + 1) (d.wait pause w₁).1,
        )

    -- `withTx` begins at least one transaction and at most one more than there are retries.
    pub with_tx-count :
        (w : W)
        → (count w + 1 ≤ count (with_tx d r audit fn w).1)
          × (count (with_tx d r audit fn w).1 ≤ count w + 1 + r.tx_max_retries)
    unfolding with_tx
    with_tx-count w = attempts-count r.tx_max_retries 0 w
