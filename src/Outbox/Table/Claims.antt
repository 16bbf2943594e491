-- ===== src/Outbox/Table/Claims.antt =====
-- What the claim query of repo/outbox.go returns: due and unlocked rows, the oldest ones, each once.
use core_wallet.Prelude.{
  ℕ, zero, suc, ◌+◌, ◌≤◌, ◌≡◌, refl, ap, sym, ◌∙◌, inl, inr, Bool, true, false, ◌||◌, List, [], ◌∷◌,
  arith, leb, ◌==◌, ==_refl, take, any, length, All, All-take, length-take-le, Bool-cases, ◌⊎◌,
}
use mathlib.Core.List.{Memᴰ}
use core_wallet.Outbox.{sent, dead, Row, row_id, pending, Option, Status, failed}
use core_wallet.Outbox.Backoff.{SqlBackoff, sql_wait}
use core_wallet.Outbox.Table.{
  claimable, insert_by_age, oldest_first, select, fetch_pending, due, eligible, none, some,
}

-- Some row of the list has the identifier.
abbrev pub has_id : ℕ → List Row → Bool
has_id id rows = any (λ r. row_id r == id) rows

-- The primary key: no two rows share an identifier.
abbrev pub Unique : List Row → Type 0
Unique [] = Unit
Unique (r ∷ rows) = (has_id (row_id r) rows ≡ false) × Unique rows

select-has_id_le :
    (p : Row → Bool) (id : ℕ) (rows : List Row)
    → has_id id rows ≡ false
    → has_id id (select p rows) ≡ false
unfolding select
select-has_id_le p id [] h = refl
select-has_id_le p id (r ∷ rows) h = ground (arith, select-has_id_le p id rows)

has_id-mem : (x : Row) (rows : List Row) → Memᴰ x rows → has_id (row_id x) rows ≡ true
has_id-mem x [] m = elim m [ ]
has_id-mem x (r ∷ rows) (Memᴰ.head e) = rw (ap row_id (sym e)) (ground (arith, ==_refl (row_id x)))
has_id-mem x (r ∷ rows) (Memᴰ.tail m) = ground (arith, has_id-mem x rows m)

-- Of a table with a primary key exactly the rows that pass the test are selected.
select-has_id :
    (p : Row → Bool) (x : Row) (rows : List Row)
    → Unique rows
    → Memᴰ x rows
    → has_id (row_id x) (select p rows) ≡ p x
unfolding select
select-has_id p x [] u m = elim m [ ]
select-has_id p x (r ∷ rows) (new, u) (Memᴰ.head e) =
    rw e (ground (arith, ==_refl (row_id r), select-has_id_le p (row_id r) rows new))
select-has_id p x (r ∷ rows) (new, u) (Memᴰ.tail m) =
    ground (arith, select-has_id p x rows u m, has_id-mem x rows m)

insert-has_id :
    (id : ℕ) (r : Row) (rows : List Row)
    → has_id id (insert_by_age r rows) ≡ (row_id r == id || has_id id rows)
unfolding insert_by_age
insert-has_id id r [] = refl
insert-has_id id r (s ∷ rows) = ground (arith, insert-has_id id r rows)

sort-has_id : (id : ℕ) (rows : List Row) → has_id id (oldest_first rows) ≡ has_id id rows
unfolding oldest_first
sort-has_id id [] = refl
sort-has_id id (r ∷ rows) = rw (insert-has_id id r (oldest_first rows), sort-has_id id rows)

take-has_id :
    (id n : ℕ) (rows : List Row) → has_id id rows ≡ false → has_id id (take n rows) ≡ false
take-has_id id zero rows h = refl
take-has_id id (suc n) [] h = refl
take-has_id id (suc n) (r ∷ rows) h = ground (arith, take-has_id id n rows)

select-Unique : (p : Row → Bool) (rows : List Row) → Unique rows → Unique (select p rows)
unfolding select
select-Unique p [] u = tt
select-Unique p (r ∷ rows) (new, u) = elim (Bool-cases (p r)) [
  | inl passes ↦ rw passes (select-has_id_le p (row_id r) rows new, select-Unique p rows u)
  | inr fails ↦ rw fails (select-Unique p rows u)
]

insert-Unique :
    (r : Row) (rows : List Row)
    → has_id (row_id r) rows ≡ false
    → Unique rows
    → Unique (insert_by_age r rows)
unfolding insert_by_age
insert-Unique r [] h u = (refl, tt)
insert-Unique r (s ∷ rows) h (new, u) =
    elim (Bool-cases (leb r.event.created_at s.event.created_at)) [
      | inl older ↦ rw older (h, (new, u))
      | inr newer ↦
          rw newer
            (ground (arith, insert-has_id (row_id s) r rows), insert-Unique r rows (ground arith) u)
    ]

sort-Unique : (rows : List Row) → Unique rows → Unique (oldest_first rows)
unfolding oldest_first
sort-Unique [] u = tt
sort-Unique (r ∷ rows) (new, u) =
    insert-Unique r (oldest_first rows) (sort-has_id (row_id r) rows ∙ new) (sort-Unique rows u)

take-Unique : (n : ℕ) (rows : List Row) → Unique rows → Unique (take n rows)
take-Unique zero rows u = tt
take-Unique (suc n) [] u = tt
take-Unique (suc n) (r ∷ rows) (new, u) = (take-has_id (row_id r) n rows new, take-Unique n rows u)

All-select : (p : Row → Bool) (rows : List Row) → All (λ r. p r ≡ true) (select p rows)
unfolding select
All-select p [] = tt
All-select p (r ∷ rows) = elim (Bool-cases (p r)) [
  | inl passes ↦ rw passes (passes, All-select p rows)
  | inr fails ↦ rw fails (All-select p rows)
]

All-insert :
    (P : Row → Type 0) (r : Row) (rows : List Row) → P r → All P rows → All P (insert_by_age r rows)
unfolding insert_by_age
All-insert P r [] h a = (h, tt)
All-insert P r (s ∷ rows) h (first, a) =
    elim (Bool-cases (leb r.event.created_at s.event.created_at)) [
      | inl older ↦ rw older (h, (first, a))
      | inr newer ↦ rw newer (first, All-insert P r rows h a)
    ]

All-sort : (P : Row → Type 0) (rows : List Row) → All P rows → All P (oldest_first rows)
unfolding oldest_first
All-sort P [] a = tt
All-sort P (r ∷ rows) (h, a) = All-insert P r (oldest_first rows) h (All-sort P rows a)

-- The row may be claimed at the time `now`: it is PENDING, or FAILED and never tried, or FAILED with the
-- wait for its attempts behind its last one.
abbrev pub IsDue : ℕ → SqlBackoff → Row → Type 0
IsDue now b r =
    (r.status ≡ pending)
    ⊎ ((r.status ≡ failed)
        × ((r.last_attempt_at ≡ none)
            ⊎ ((at : ℕ) × (r.last_attempt_at ≡ some at)
                × (at + sql_wait b r.event.attempts ≤ now))))

due-IsDue :
    (now : ℕ) (b : SqlBackoff) (last : Option ℕ) (attempts : ℕ)
    → due now b last attempts ≡ true
    → (last ≡ none) ⊎ ((at : ℕ) × (last ≡ some at) × (at + sql_wait b attempts ≤ now))
unfolding due
due-IsDue now b none attempts h = inl refl
due-IsDue now b (some at) attempts h = inr (at, refl, ground (arith, h))

eligible-IsDue :
    (now : ℕ) (b : SqlBackoff) (r : Row) (s : Status)
    → r.status ≡ s
    → eligible now b s r ≡ true
    → IsDue now b r
unfolding eligible
eligible-IsDue now b r pending e h = inl e
eligible-IsDue now b r failed e h = inr (e, due-IsDue now b r.last_attempt_at r.event.attempts h)
eligible-IsDue now b r sent e h = absurd cc
eligible-IsDue now b r dead e h = absurd cc

claimable-IsDue :
    (now : ℕ) (b : SqlBackoff) (locked : ℕ → Bool) (r : Row)
    → claimable now b locked r ≡ true
    → IsDue now b r × (locked (row_id r) ≡ false)
unfolding claimable
claimable-IsDue now b locked r h =
    (eligible-IsDue now b r r.status refl (ground (arith, h)), ground (arith, h))

All-map : (P Q : Row → Type 0) (rows : List Row) → ((r : Row) → P r → Q r) → All P rows → All Q rows
All-map P Q [] f a = tt
All-map P Q (r ∷ rows) f (h, a) = (f r h, All-map P Q rows f a)

-- At most `limit` rows are claimed; each is PENDING, or FAILED with no attempt yet or with its wait
-- behind it, and no other transaction holds it.
pub fetch_pending_sound :
    (now limit : ℕ) (b : SqlBackoff) (locked : ℕ → Bool) (rows : List Row)
    → All (λ r. IsDue now b r × (locked (row_id r) ≡ false)) (fetch_pending now limit b locked rows)
      × (length (fetch_pending now limit b locked rows) ≤ limit)
unfolding fetch_pending
fetch_pending_sound now limit b locked rows =
    let due = select (claimable now b locked) rows in
    (
      All-map _ _ _ (claimable-IsDue now b locked) (
          All-take _ limit (oldest_first due)
            (All-sort _ due (All-select (claimable now b locked) rows))),
      length-take-le limit (oldest_first due),
    )

-- A claimed row is one of the table's claimable rows.
pub claimed-claimable :
    (now limit : ℕ) (b : SqlBackoff) (locked : ℕ → Bool) (rows : List Row) (x : Row)
    → Unique rows
    → Memᴰ x rows
    → has_id (row_id x) (fetch_pending now limit b locked rows) ≡ true
    → claimable now b locked x ≡ true
unfolding fetch_pending
claimed-claimable now limit b locked rows x u m h = elim (Bool-cases (claimable now b locked x)) [
  | inl passes ↦ passes
  | inr fails ↦
      let p = claimable now b locked in
      let absent = sort-has_id (row_id x) (select p rows) ∙ select-has_id p x rows u m ∙ fails in
      cc (take-has_id (row_id x) limit (oldest_first (select p rows)) absent)
]

pub fetch_pending-Unique :
    (now limit : ℕ) (b : SqlBackoff) (locked : ℕ → Bool) (rows : List Row)
    → Unique rows
    → Unique (fetch_pending now limit b locked rows)
unfolding fetch_pending
fetch_pending-Unique now limit b locked rows u =
    take-Unique limit _ (sort-Unique _ (select-Unique (claimable now b locked) rows u))
