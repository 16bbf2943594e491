-- ===== src/Outbox/Table/Order.antt =====
-- The order and the limit of the claim query: the oldest due rows come first, and none is passed over
-- for a younger one.
use core_wallet.Prelude.{
  ℕ, zero, suc, ◌≤◌, ◌≡◌, refl, ap, sym, ◌∙◌, inl, inr, Bool, true, false, List, [], ◌∷◌, arith,
  leb, ==_refl, take, length, All, Bool-cases, subst,
}
use mathlib.Core.List.{Memᴰ}
use core_wallet.Outbox.{Row, row_id}
use core_wallet.Outbox.Backoff.{SqlBackoff}
use core_wallet.Outbox.Table.{claimable, insert_by_age, oldest_first, select, fetch_pending}
use core_wallet.Outbox.Table.Claims.{has_id}

-- `r` was created no later than every row of the list.
abbrev pub IsOldest : Row → List Row → Type 0
IsOldest r rows = All (λ s. r.event.created_at ≤ s.event.created_at) rows

abbrev pub IsSorted : List Row → Type 0
IsSorted [] = Unit
IsSorted (r ∷ rows) = IsOldest r rows × IsSorted rows

All-mem {κ} : (P : Row → Type κ) (x : Row) (rows : List Row) → All P rows → Memᴰ x rows → P x
All-mem P x [] h m = elim m [ ]
All-mem P x (r ∷ rows) (p, h) (Memᴰ.head e) = subst P (sym e) p
All-mem P x (r ∷ rows) (p, h) (Memᴰ.tail m) = All-mem P x rows h m

IsOldest-trans :
    (r s : Row) (rows : List Row)
    → r.event.created_at ≤ s.event.created_at
    → IsOldest s rows
    → IsOldest r rows
IsOldest-trans r s [] h o = tt
IsOldest-trans r s (t ∷ rows) h (first, o) = (omega arith, IsOldest-trans r s rows h o)

IsOldest-insert :
    (s r : Row) (rows : List Row)
    → s.event.created_at ≤ r.event.created_at
    → IsOldest s rows
    → IsOldest s (insert_by_age r rows)
unfolding insert_by_age
IsOldest-insert s r [] h o = (h, tt)
IsOldest-insert s r (t ∷ rows) h (first, o) =
    elim (Bool-cases (leb r.event.created_at t.event.created_at)) [
      | inl older ↦ rw older (h, (first, o))
      | inr newer ↦ rw newer (first, IsOldest-insert s r rows h o)
    ]

insert-IsSorted : (r : Row) (rows : List Row) → IsSorted rows → IsSorted (insert_by_age r rows)
unfolding insert_by_age
insert-IsSorted r [] s = (tt, tt)
insert-IsSorted r (t ∷ rows) (first, s) =
    elim (Bool-cases (leb r.event.created_at t.event.created_at)) [
      | inl older ↦
          rw older ((ground arith, IsOldest-trans r t rows (ground arith) first), (first, s))
      | inr newer ↦
          rw newer (IsOldest-insert t r rows (ground arith) first, insert-IsSorted r rows s)
    ]

sort-IsSorted : (rows : List Row) → IsSorted (oldest_first rows)
unfolding oldest_first
sort-IsSorted [] = tt
sort-IsSorted (r ∷ rows) = insert-IsSorted r (oldest_first rows) (sort-IsSorted rows)

mem-insert_self : (x r : Row) (rows : List Row) → x ≡ r → Memᴰ x (insert_by_age r rows)
unfolding insert_by_age
mem-insert_self x r [] e = Memᴰ.head e
mem-insert_self x r (t ∷ rows) e = elim (Bool-cases (leb r.event.created_at t.event.created_at)) [
  | inl older ↦ rw older (Memᴰ.head e)
  | inr newer ↦ rw newer (Memᴰ.tail (mem-insert_self x r rows e))
]

mem-insert : (x r : Row) (rows : List Row) → Memᴰ x rows → Memᴰ x (insert_by_age r rows)
unfolding insert_by_age
mem-insert x r [] m = elim m [ ]
mem-insert x r (t ∷ rows) (Memᴰ.head e) =
    elim (Bool-cases (leb r.event.created_at t.event.created_at)) [
      | inl older ↦ rw older (Memᴰ.tail (Memᴰ.head e))
      | inr newer ↦ rw newer (Memᴰ.head e)
    ]
mem-insert x r (t ∷ rows) (Memᴰ.tail m) =
    elim (Bool-cases (leb r.event.created_at t.event.created_at)) [
      | inl older ↦ rw older (Memᴰ.tail (Memᴰ.tail m))
      | inr newer ↦ rw newer (Memᴰ.tail (mem-insert x r rows m))
    ]

mem-sort : (x : Row) (rows : List Row) → Memᴰ x rows → Memᴰ x (oldest_first rows)
unfolding oldest_first
mem-sort x [] m = elim m [ ]
mem-sort x (r ∷ rows) (Memᴰ.head e) = mem-insert_self x r (oldest_first rows) e
mem-sort x (r ∷ rows) (Memᴰ.tail m) = mem-insert x r (oldest_first rows) (mem-sort x rows m)

mem-select :
    (p : Row → Bool) (x : Row) (rows : List Row) → Memᴰ x rows → p x ≡ true → Memᴰ x (select p rows)
unfolding select
mem-select p x [] m h = elim m [ ]
mem-select p x (r ∷ rows) (Memᴰ.head e) h = rw (ap p (sym e) ∙ h) (Memᴰ.head e)
mem-select p x (r ∷ rows) (Memᴰ.tail m) h = elim (Bool-cases (p r)) [
  | inl passes ↦ rw passes (Memᴰ.tail (mem-select p x rows m h))
  | inr fails ↦ rw fails (mem-select p x rows m h)
]

take_fair :
    (n : ℕ) (x : Row) (rows : List Row)
    → IsSorted rows
    → Memᴰ x rows
    → has_id (row_id x) (take n rows) ≡ false
    → All (λ r. r.event.created_at ≤ x.event.created_at) (take n rows) × (length (take n rows) ≡ n)
take_fair zero x rows s m h = (tt, refl)
take_fair (suc n) x [] s m h = elim m [ ]
take_fair (suc n) x (r ∷ rows) s (Memᴰ.head e) h =
    let same = ==_refl (row_id r) in cc (rw (ap row_id e, same) at h)
take_fair (suc n) x (r ∷ rows) (first, s) (Memᴰ.tail m) h =
    let (older, full) = take_fair n x rows s m (ground arith) in
    ((All-mem _ x rows first m, older), ap suc full)

-- A due and unlocked row that is not claimed is no older than any claimed row, and the batch is full.
pub fetch_pending_fair :
    (now limit : ℕ) (b : SqlBackoff) (locked : ℕ → Bool) (rows : List Row) (x : Row)
    → Memᴰ x rows
    → claimable now b locked x ≡ true
    → has_id (row_id x) (fetch_pending now limit b locked rows) ≡ false
    → All (λ r. r.event.created_at ≤ x.event.created_at) (fetch_pending now limit b locked rows)
      × (length (fetch_pending now limit b locked rows) ≡ limit)
unfolding fetch_pending
fetch_pending_fair now limit b locked rows x m h absent =
    let due = select (claimable now b locked) rows in
    take_fair limit x (oldest_first due) (sort-IsSorted due)
      (mem-sort x due (mem-select (claimable now b locked) x rows m h)) absent
