-- ===== src/Janitor/Retention/Drained.antt =====
-- janitor/retention.go: the purge ends, and with what.
use core_wallet.Prelude.{
  ℕ, zero, suc, ◌+◌, ◌^◌, ◌<◌, ◌≤◌, min, String, Bool, true, false, ◌≡◌, ◌≢◌, refl, ap, sym, ◌∙◌,
  Option, some, ltb, arith, Bool-cases, inl, inr, ltb→lt,
}
use core_wallet.Prelude.Ints.{ℤ, pos, negsuc, is_positive, is_below}
use core_wallet.Errors.{GoError, nil}
use core_wallet.Janitor.{Jobs, made, checked, validate_config}
use core_wallet.Janitor.Retention.{
  Retention, validate_retention, new_retention, add64, purge_batch, round, alive, purge, or_return,
  first, counted, timeout_step, count_step, commit_step,
}

-- The behaviour of the database that the purge relies on, for the rows that one function purges:
-- `aged` of them are old enough, a call deletes as many as its batch allows, a commit keeps that,
-- and no row becomes old enough while the run goes on.
pub record Ages {W : Type 0} (j : Jobs W) (fn : String) (days : ℤ) (aged : W → ℕ) : Type 0 where
  pub begins : (w w' : W) → j.begin w ≡ (nil, w') → aged w' ≡ aged w
  pub times : (t : ℤ) (w w' : W) → j.set_timeout t w ≡ (nil, w') → aged w' ≡ aged w
  pub counts :
      (b : ℕ) (w w' : W) (n : ℕ)
      → j.count fn days (pos b) w ≡ ((n, nil), w')
      → (n ≡ min b (aged w)) × (aged w' + n ≡ aged w)
  pub commits : (w w' : W) → j.commit w ≡ (nil, w') → aged (j.rollback w') ≡ aged w

positive_pos : (z : ℤ) → is_positive z ≡ true → (b : ℕ) × (z ≡ pos (suc b))
unfolding is_positive
positive_pos (pos zero) h = absurd cc
positive_pos (pos (suc b)) h = (b, refl)
positive_pos (negsuc n) h = absurd cc

-- A janitor that was built has a positive batch size.
built_batch :
    (r : Retention) → new_retention true r ≡ made r → (b : ℕ) × (r.batch_size ≡ pos (suc b))
unfolding new_retention validate_retention validate_config checked
built_batch r h = positive_pos r.batch_size (ground arith)

module _ {W : Type 0} (j : Jobs W) (r : Retention) (fn : String) (days : ℤ) (aged : W → ℕ)
    (laws : Ages j fn days aged) (b : ℕ) (size : r.batch_size ≡ pos (suc b)) where
  first_nil :
      (s : GoError × W) (rest : W → (ℕ × GoError) × W) (n : ℕ) (w' : W)
      → first j r s rest ≡ ((n, nil), w')
      → (w : W) × (s ≡ (nil, w)) × (rest w ≡ ((n, nil), w'))
  first_nil (nil, w) rest n w' h = (w, refl, h)
  first_nil (e, w) rest n w' h = absurd cc

  or_return_nil :
      (text : String) (s : GoError × W) (rest : W → (ℕ × GoError) × W) (n : ℕ) (w' : W)
      → or_return j r text s rest ≡ ((n, nil), w')
      → (w : W) × (s ≡ (nil, w)) × (rest w ≡ ((n, nil), w'))
  unfolding or_return
  or_return_nil text (nil, w) rest n w' h = (w, refl, h)
  or_return_nil text (e, w) rest n w' h = absurd cc

  counted_nil :
      (s : (ℕ × GoError) × W) (rest : ℕ → W → (ℕ × GoError) × W) (n : ℕ) (w' : W)
      → counted j r fn s rest ≡ ((n, nil), w')
      → (m : ℕ) × (w : W) × (s ≡ ((m, nil), w)) × (rest m w ≡ ((n, nil), w'))
  counted_nil ((m, nil), w) rest n w' h = (m, w, refl, h)
  counted_nil ((m, e), w) rest n w' h = absurd cc

  -- A batch that is counted removed what it counts, up to its size.
  purge_batch_counts :
      (w w' : W) (n : ℕ)
      → purge_batch j r fn days w ≡ ((n, nil), w')
      → (n ≡ min (suc b) (aged w)) × (aged w' + n ≡ aged w)
  unfolding purge_batch
  purge_batch_counts w w' n h =
      let (w₁, e₁, h₁) = first_nil (j.begin w) (timeout_step j r fn days) n w' h in
      let (w₂, e₂, h₂) =
        or_return_nil "set timeout" (j.set_timeout r.run_timeout w₁) (count_step j r fn days) n w'
          h₁ in
      let (m, w₃, e₃, h₃) =
        counted_nil (j.count fn days r.batch_size w₂) (commit_step j r) n w' h₂ in
      let (w₄, e₄, h₄) =
        or_return_nil "commit" (j.commit w₃) (λ w. ((m, nil), j.rollback w)) n w' h₃ in
      let (least, left) =
        laws.counts (suc b) w₂ w₃ m (ap (λ z. j.count fn days z w₂) (sym size) ∙ e₃) in
      let same = ap (λ p. p.0.0) h₄ in
      let kept = ap aged (sym (ap (λ p. p.1) h₄)) ∙ laws.commits w₃ w₄ e₄ in
      let old = laws.times r.run_timeout w₁ w₂ e₂ ∙ laws.begins w w₁ e₁ in
      omega (arith, least, left, same, kept, old)

  -- What a purge that started at `total` with `old` aged rows ends in: it counted no more than there
  -- were, and where it reports no error it counted them all and none is left.
  pub record Ended (total old : ℕ) (end : (ℕ × GoError) × W) : Type 0 where
    pub bounded : end.0.0 ≤ total + old
    pub complete : end.0.1 ≡ nil → (end.0.0 ≡ total + old) × (aged end.1 ≡ 0)

  abbrev Ends : ℕ → ℕ → Option ((ℕ × GoError) × W) → Type 0
  Ends total old o = (end : (ℕ × GoError) × W) × (o ≡ some end) × Ended total old end

  below : (n : ℕ) (z : ℤ) (m : ℕ) (x : Bool) → z ≡ pos m → is_below n z ≡ x → ltb n m ≡ x
  unfolding is_below
  below n z m x e h = ap (is_below n) (sym e) ∙ h

  add64_small : (a c : ℕ) → a + c < 2 ^ 64 → add64 a c ≡ a + c
  add64_small a c h = omega (arith, h)

  short_end :
      (total old n : ℕ) (w : W)
      → total + old < 2 ^ 64
      → n ≡ min (suc b) old
      → aged w + n ≡ old
      → ltb n (suc b) ≡ true
      → Ended total old ((add64 total n, nil), w)
  short_end total old n w small least left short =
      let lt = ltb→lt n (suc b) short in
      let fits = add64_small total n (omega (arith, small, left)) in
      record {
        bounded = omega (arith, fits, left);
        complete = λ _. (omega (arith, fits, left, least, lt), omega (arith, left, least, lt));
      }

  shifted :
      (total old total' old' : ℕ) (o : Option ((ℕ × GoError) × W))
      → total' + old' ≡ total + old
      → Ends total' old' o
      → Ends total old o
  shifted total old total' old' o same (end, ran, ended) =
      let k = ended.bounded in
      (
        end,
        ran,
        record {
          bounded = omega (arith, k, same);
          complete = λ z. let (all_of, left) = ended.complete z in (all_of ∙ same, left);
        },
      )

  failed_ends : (total old : ℕ) (e : GoError) (w : W) → e ≢ nil → Ended total old ((total, e), w)
  failed_ends total old e w ne = record { bounded = omega arith; complete = λ z. absurd (ne z) }

  -- One round, by what its batch did and by the rounds behind a full batch.
  round-Ends :
      (total old : ℕ) (batch : (ℕ × GoError) × W) (rest : Option ((ℕ × GoError) × W))
      → total + old < 2 ^ 64
      → ((n : ℕ) (w' : W) → batch ≡ ((n, nil), w') → (n ≡ min (suc b) old) × (aged w' + n ≡ old))
      → ((n : ℕ) (w' : W) → batch ≡ ((n, nil), w') → suc b ≤ n → Ends total old rest)
      → Ends total old (round j r total batch rest)
  unfolding round
  round-Ends total old ((n, nil), w) rest small did next =
      let (least, left) = did n w refl in
      elim (Bool-cases (is_below n r.batch_size)) [
        | inl short ↦ (
          ((add64 total n, nil), w),
          rw (short) refl,
          short_end total old n w small least left (below n r.batch_size (suc b) true size short),
        )
        | inr full ↦
            let wide = below n r.batch_size (suc b) false size full in
            let (end, ran, ends) = next n w refl (ground (arith, wide)) in
            (end, rw (full) ran, ends)
      ]
  round-Ends total old ((n, e), w) rest small did next =
      (((total, e), w), refl, failed_ends total old e w (λ z. cc))

  alive-Ends :
      (e : GoError) (total old : ℕ) (w : W) (rest : Option ((ℕ × GoError) × W))
      → Ends total old rest
      → Ends total old (alive j r e total w rest)
  alive-Ends nil total old w rest ends = ends
  alive-Ends e total old w rest ends = (((total, e), w), refl, failed_ends total old e w (λ z. cc))

  purge-Ends :
      (fuel total : ℕ) (w : W)
      → aged w < fuel
      → total + aged w < 2 ^ 64
      → Ends total (aged w) (purge j r fuel fn days total w)
  unfolding purge
  purge-Ends zero total w h small = absurd (omega (arith, h))
  purge-Ends (suc fuel) total w h small =
      let batch = purge_batch j r fn days w in
      let w₁ = batch.1 in
      let n = batch.0.0 in
      alive-Ends (j.ctx_err w) total (aged w) w _ (
        round-Ends total (aged w) batch _ small (λ n w' e. purge_batch_counts w w' n e)
          λ m w' e full.
            let same = ap (λ p. p.0.0) e in
            let at = ap (λ p. aged p.1) e in
            let (least, left) = purge_batch_counts w w' m e in
            let fits = add64_small total n (omega (arith, same, left, small)) in
            shifted total (aged w) (add64 total n) (aged w₁) _ (omega (arith, fits, same, at, left))
              (purge-Ends fuel (add64 total n) w₁ (omega (arith, at, left, full, h))
                (omega (arith, fits, same, at, left, small))))

module _ {W : Type 0} (j : Jobs W) (r : Retention) where
  -- A purge of a janitor that `NewRetention` built ends within one round more than there are aged
  -- rows. It never counts more rows than there were, and where it reports no error it has removed
  -- them all and counted each.
  pub purge_terminates :
      (fn : String) (days : ℤ) (aged : W → ℕ) (w : W)
      → Ages j fn days aged
      → new_retention true r ≡ made r
      → aged w < 2 ^ 64
      → (end : (ℕ × GoError) × W) × (purge j r (suc (aged w)) fn days 0 w ≡ some end)
        × (end.0.0 ≤ aged w)
        × (end.0.1 ≡ nil → (end.0.0 ≡ aged w) × (aged end.1 ≡ 0))
  purge_terminates fn days aged w laws built small =
      let (b, size) = built_batch r built in
      let (end, ran, ended) =
        purge-Ends j r fn days aged laws b size (suc (aged w)) 0 w (omega arith)
          (omega (arith, small)) in
      let k = ended.bounded in
      (
        end,
        ran,
        omega (arith, k),
        λ z. let (all_of, left) = ended.complete z in (omega (arith, all_of), left),
      )
