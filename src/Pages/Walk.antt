-- ===== src/Pages/Walk.antt =====
-- The SELECT and the cursor of one limit: the pages that follow one another.
use core_wallet.Prelude.{
  ℕ, zero, suc, ◌≤◌, ◌<◌, ◌≡◌, refl, sym, ap, ◌∙◌, subst, true, false, Option, none, some, List, [],
  ◌∷◌, ◌++◌, length, length-append, take, All, ◌==◌, ==_iff, ◌>>=◌, arith, Bool-cases, inl, inr,
}
use mathlib.Core.List.{append_assoc}
use core_wallet.Pages.{is_before, filter, select, last_key, next_cursor}

-- A page, and what the client reads behind its cursor, if it has one.
abbrev pub continued : {V : Type 0} → List V → Option ℕ → (ℕ → Option (List V)) → Option (List V)
continued page none rest = some page
continued page (some k) rest = do more ← rest k; some (page ++ more)

module _ {V : Type 0} (key : V → ℕ) where
  -- Strictly from the greatest key down.
  abbrev pub Descending : List V → Type 0
  Descending [] = Unit
  Descending (v ∷ vs) = All (λ u. key u < key v) vs × Descending vs

  abbrev drop : ℕ → List V → List V
  drop zero vs = vs
  drop (suc n) [] = []
  drop (suc n) (v ∷ vs) = drop n vs

  take-drop : (n : ℕ) (vs : List V) → take n vs ++ drop n vs ≡ vs
  take-drop zero vs = refl
  take-drop (suc n) [] = refl
  take-drop (suc n) (v ∷ vs) = ap (λ t. v ∷ t) (take-drop n vs)

  take_short : (n : ℕ) (vs : List V) → (length (take n vs) == n) ≡ false → take n vs ≡ vs
  take_short zero vs h = absurd (ground (arith, h))
  take_short (suc n) [] h = refl
  take_short (suc n) (v ∷ vs) h = ap (λ t. v ∷ t) (take_short n vs (ground (arith, h)))

  filter_below :
      (c : ℕ) (vs : List V) → All (λ u. key u < c) vs → filter key (is_before key (some c)) vs ≡ vs
  unfolding filter is_before
  filter_below c [] below = refl
  filter_below c (v ∷ vs) (b, below) = ground (arith, b, filter_below c vs below)

  head_above :
      (x v : V) (xs rest : List V) → All (λ u. key u < key x) (xs ++ v ∷ rest) → key v < key x
  head_above x v [] rest (b, _) = b
  head_above x v (y ∷ xs) rest (_, below) = head_above x v xs rest below

  -- Behind the cursor of a row stand the rows behind it.
  filter_behind :
      (xs : List V) (v : V) (rest : List V)
      → Descending (xs ++ v ∷ rest)
      → filter key (is_before key (some (key v))) (xs ++ v ∷ rest) ≡ rest
  unfolding filter is_before
  filter_behind [] v rest (below, _) = ground (arith, filter_below (key v) rest below)
  filter_behind (x ∷ xs) v rest (below, down) =
      let above = head_above x v xs rest below in
      ground (arith, above, filter_behind xs v rest down)

  -- A list that is not empty, by its last element.
  last_of :
      (v : V) (vs : List V)
      → (xs : List V) × (u : V) × (v ∷ vs ≡ xs ++ u ∷ []) × (last_key key (v ∷ vs) ≡ some (key u))
  unfolding last_key
  last_of v [] = ([], v, refl, refl)
  last_of v (w ∷ vs) =
      let (xs, u, same, last) = last_of w vs in (v ∷ xs, u, ap (λ t. v ∷ t) same, last)

  length-drop-le : (n : ℕ) (vs : List V) → length (drop n vs) ≤ length vs
  length-drop-le zero vs = omega arith
  length-drop-le (suc n) [] = omega arith
  length-drop-le (suc n) (v ∷ vs) = omega (arith, length-drop-le n vs)

  next_cursor_full :
      (limit k : ℕ) (page : List V)
      → 0 < limit
      → (length page == limit) ≡ true
      → last_key key page ≡ some k
      → next_cursor key limit page ≡ some k
  unfolding next_cursor
  next_cursor_full limit k page pos full last = ground (arith, pos, full, last)

  next_cursor_short :
      (limit : ℕ) (page : List V)
      → (length page == limit) ≡ false
      → next_cursor key limit page ≡ none
  unfolding next_cursor
  next_cursor_short limit page short = ground (arith, short)

  module _ (limit : ℕ) (rows : List V) where
    -- All rows of the pages that follow one another by their cursors, on fuel for the pages.
    unfoldable pub walk : ℕ → Option ℕ → Option (List V)
    walk zero cursor = none
    walk (suc fuel) cursor =
        let page = select key cursor limit rows in
        continued page (next_cursor key limit page) (λ k. walk fuel (some k))

    module _ (pos : 0 < limit) (down : Descending rows) where
      step_short :
          (fuel : ℕ) (cursor : Option ℕ) (rest : List V)
          → filter key (is_before key cursor) rows ≡ rest
          → (length (take limit rest) == limit) ≡ false
          → walk (suc fuel) cursor ≡ some rest
      unfolding walk select
      step_short fuel cursor rest at short =
          rw (at, next_cursor_short limit (take limit rest) short)
            (ap some (take_short limit rest short))

      step_full :
          (fuel k : ℕ) (cursor : Option ℕ) (rest more : List V)
          → filter key (is_before key cursor) rows ≡ rest
          → (length (take limit rest) == limit) ≡ true
          → last_key key (take limit rest) ≡ some k
          → walk fuel (some k) ≡ some more
          → walk (suc fuel) cursor ≡ some (take limit rest ++ more)
      unfolding walk select
      step_full fuel k cursor rest more at full last behind =
          rw (at, next_cursor_full limit k (take limit rest) pos full last, behind) refl

      -- The last row of a page stands between the rows up to it and the rest.
      split_page :
          (pre page tail : List V)
          → 0 < length page
          → rows ≡ pre ++ (page ++ tail)
          → (xs : List V) × (u : V) × (last_key key page ≡ some (key u)) × (rows ≡ xs ++ u ∷ tail)
      split_page pre [] tail some_row at = absurd (omega (arith, some_row))
      split_page pre (v ∷ vs) tail some_row at =
          let (ys, u, same, last) = last_of v vs in
          (
            pre ++ ys,
            u,
            last,
            at
                ∙ ap (λ p. pre ++ (p ++ tail)) same
                ∙ ap (λ p. pre ++ p) (append_assoc ys (u ∷ []) tail)
                ∙ sym (append_assoc pre ys (u ∷ tail)),
          )

      walk_rest :
          (fuel : ℕ) (cursor : Option ℕ) (pre rest : List V)
          → length rest < fuel
          → rows ≡ pre ++ rest
          → filter key (is_before key cursor) rows ≡ rest
          → walk fuel cursor ≡ some rest
      walk_rest zero cursor pre rest enough at behind = absurd (omega (arith, enough))
      walk_rest (suc fuel) cursor pre rest enough at behind =
          elim (Bool-cases (length (take limit rest) == limit)) [
            | inl full ↦
                let many = (==_iff (length (take limit rest)) limit).0 full in
                let whole = take-drop limit rest in
                let (xs, u, last, stands) =
                  split_page pre (take limit rest) (drop limit rest) (omega (arith, many, pos))
                    (at ∙ ap (λ t. pre ++ t) (sym whole)) in
                let after =
                  subst (λ t. filter key (is_before key (some (key u))) t ≡ drop limit rest)
                    (sym stands)
                    (filter_behind xs u (drop limit rest) (subst Descending stands down)) in
                let sizes = ap length whole ∙ refl in
                let counted = length-append (take limit rest) (drop limit rest) in
                step_full fuel (key u) cursor rest (drop limit rest) behind full last (
                  walk_rest fuel (some (key u)) (xs ++ u ∷ []) (drop limit rest)
                    (omega (arith, sizes, counted, many, pos, enough))
                    (stands ∙ sym (append_assoc xs (u ∷ []) (drop limit rest))) after)
                ∙ ap some whole
            | inr short ↦ step_short fuel cursor rest behind short
          ]

  filter_all : (vs : List V) → filter key (is_before key none) vs ≡ vs
  unfolding filter is_before
  filter_all [] = refl
  filter_all (v ∷ vs) = ap (λ t. v ∷ t) (filter_all vs)

  -- Pages of a limit of at least one that follow one another by their cursors hold every row once and in
  -- order, within one page more than there are rows, where no two rows share a key.
  pub walk_complete :
      (limit : ℕ) (rows : List V)
      → 0 < limit
      → Descending rows
      → walk limit rows (suc (length rows)) none ≡ some rows
  walk_complete limit rows pos down =
      walk_rest limit rows pos down (suc (length rows)) none [] rows (omega arith) refl
        (filter_all rows)
