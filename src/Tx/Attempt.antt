-- ===== src/Tx/Attempt.antt =====
-- One attempt of a transaction: its result, its rollback, and when it commits.
use core_wallet.Prelude.{◌≡◌, refl, ap, ◌≢◌, ◌⊎◌, inl, inr, ◌↔◌, ◌∙◌, sym}
use core_wallet.Errors.{GoError, nil, Error, of_domain}
use core_wallet.PgErrors.{map_pg_error}
use core_wallet.PgErrors.Mapping.{map_pg_error_domain}
use core_wallet.Tx.{Driver, Settings, AuditContext, run_tx, on_ok, audit_gucs}

-- Success, or a domain error.
abbrev pub IsMapped : GoError → Type 0
IsMapped e = (e ≡ nil) ⊎ ((de : Error) × (e ≡ of_domain de))

map_pg_error-IsMapped : (e : GoError) → IsMapped (map_pg_error e)
unfolding map_pg_error
map_pg_error-IsMapped nil = inl refl
map_pg_error-IsMapped e = inr (map_pg_error_domain e (λ h. cc))

map_pg_error-ne-nil : (e : GoError) → e ≢ nil → map_pg_error e ≢ nil
map_pg_error-ne-nil e ne h = let (de, m) = map_pg_error_domain e ne in cc

module _ {W : Type 0} where
  on_ok-IsMapped :
      (s : GoError × W) (fail : GoError → W → GoError × W) (k : W → GoError × W)
      → ((e : GoError) (w : W) → IsMapped (fail e w).0)
      → ((w : W) → IsMapped (k w).0)
      → IsMapped (on_ok s fail k).0
  unfolding on_ok
  on_ok-IsMapped (nil, w) fail k f c = c w
  on_ok-IsMapped (e, w) fail k f c = f _ w

  -- A step that fails with an error is no success.
  on_ok-eq-nil :
      (s : GoError × W) (fail : GoError → W → GoError × W) (k : W → GoError × W) (w' : W)
      → ((e : GoError) (w : W) → e ≢ nil → (fail e w).0 ≢ nil)
      → on_ok s fail k ≡ (nil, w')
      → (w : W) × (s ≡ (nil, w)) × (k w ≡ (nil, w'))
  unfolding on_ok
  on_ok-eq-nil (nil, w) fail k w' f h = (w, refl, h)
  on_ok-eq-nil (e, w) fail k w' f h = absurd (f _ w (λ n. cc) (ap (λ p. p.0) h))

  on_ok_nil :
      (s : GoError × W) (fail : GoError → W → GoError × W) (k : W → GoError × W) (w : W)
      → s ≡ (nil, w)
      → on_ok s fail k ≡ k w
  unfolding on_ok
  on_ok_nil s fail k w h = rw h

  -- The second part ends with a rollback where every path does.
  on_ok-ends :
      (rollback : W → W) (s : GoError × W) (fail : GoError → W → GoError × W) (k : W → GoError × W)
      → ((e : GoError) (w : W) → (w' : W) × ((fail e w).1 ≡ rollback w'))
      → ((w : W) → (w' : W) × ((k w).1 ≡ rollback w'))
      → (w' : W) × ((on_ok s fail k).1 ≡ rollback w')
  unfolding on_ok
  on_ok-ends rollback (nil, w) fail k f c = c w
  on_ok-ends rollback (e, w) fail k f c = f _ w

module _ {W : Type 0} (d : Driver W) (r : Settings) (audit : AuditContext)
    (fn : W → GoError × W) where
  abbrev failed : (e : GoError) (w : W) → IsMapped (map_pg_error e)
  failed e w = map_pg_error-IsMapped e

  -- Every result of an attempt is a success or a domain error.
  pub run_tx-IsMapped : (w : W) → IsMapped (run_tx d r audit fn w).0
  unfolding run_tx
  run_tx-IsMapped w = on_ok-IsMapped _ _ _ failed λ w. on_ok-IsMapped _ _ _ failed λ w.
      on_ok-IsMapped _ _ _ failed
        λ w. on_ok-IsMapped _ _ _ failed λ w. on_ok-IsMapped _ _ _ failed λ w. inl refl

  -- An attempt that began its transaction ends with the rollback, on every path.
  run_tx_rolls_back :
      (w : W) → (d.begin w).0 ≡ nil → (w' : W) × ((run_tx d r audit fn w).1 ≡ d.rollback w')
  unfolding run_tx
  run_tx_rolls_back w h =
      rw (on_ok_nil (d.begin w) _ _ (d.begin w).1 (ap (λ e. (e, (d.begin w).1)) h)) (
        on_ok-ends d.rollback _ _ _ (λ e w. (w, refl))
          λ w.
            on_ok-ends d.rollback _ _ _ (λ e w. (w, refl))
              λ w.
                on_ok-ends d.rollback _ _ _ (λ e w. (w, refl))
                  λ w. on_ok-ends d.rollback _ _ _ (λ e w. (w, refl)) λ w. (w, refl))

  -- The path of an attempt on which every step succeeds.
  pub record Commits (w w' : W) : Type 0 where
    pub begun : W
    pub timed : W
    pub audited : W
    pub worked : W
    pub committed : W
    pub begins : d.begin w ≡ (nil, begun)
    pub times : d.set_timeouts r.statement_timeout_ms r.lock_timeout_ms begun ≡ (nil, timed)
    pub audits : d.set_config (audit_gucs audit r.pii_dek) timed ≡ (nil, audited)
    pub works : fn audited ≡ (nil, worked)
    pub commits : d.commit worked ≡ (nil, committed)
    pub ends : w' ≡ d.rollback committed

  run_tx_to : (w w' : W) → run_tx d r audit fn w ≡ (nil, w') → Commits w w'
  unfolding run_tx
  run_tx_to w w' h =
      let (w₁, e₁, h₁) = on_ok-eq-nil (d.begin w) _ _ w' (λ e _. map_pg_error-ne-nil e) h in
      let (w₂, e₂, h₂) = on_ok-eq-nil _ _ _ w' (λ e _. map_pg_error-ne-nil e) h₁ in
      let (w₃, e₃, h₃) = on_ok-eq-nil _ _ _ w' (λ e _. map_pg_error-ne-nil e) h₂ in
      let (w₄, e₄, h₄) = on_ok-eq-nil _ _ _ w' (λ e _. map_pg_error-ne-nil e) h₃ in
      let (w₅, e₅, h₅) = on_ok-eq-nil _ _ _ w' (λ e _. map_pg_error-ne-nil e) h₄ in
      record {
        begun = w₁;
        timed = w₂;
        audited = w₃;
        worked = w₄;
        committed = w₅;
        begins = e₁;
        times = e₂;
        audits = e₃;
        works = e₄;
        commits = e₅;
        ends = cc;
      }

  run_tx_of : (w w' : W) → Commits w w' → run_tx d r audit fn w ≡ (nil, w')
  unfolding run_tx
  run_tx_of w w' c =
      on_ok_nil _ _ _ _ c.begins
      ∙ on_ok_nil _ _ _ _ c.times
      ∙ on_ok_nil _ _ _ _ c.audits
      ∙ on_ok_nil _ _ _ _ c.works
      ∙ on_ok_nil _ _ _ _ c.commits
      ∙ ap (λ w. (nil, w)) (sym c.ends)

  -- An attempt succeeds exactly when its transaction begins, its timeouts and audit settings are
  -- set, its work succeeds and its commit succeeds, one behind the other.
  pub run_tx_iff : (w w' : W) → (run_tx d r audit fn w ≡ (nil, w')) ↔ Commits w w'
  run_tx_iff w w' = (run_tx_to w w', run_tx_of w w')
