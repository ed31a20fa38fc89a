-- ===== src/Table.antt =====
-- The tables that the repositories query (internal/database/migrations.sql): rows under a numeric
-- primary key. A key picks at most one row, so an access by key is to the first row that has it,
-- and an insert is made only where the key is free.
use mathlib.Core.Option
use ticket_master.Prelude.{
  ℕ, ◌+◌, ◌≡◌, refl, Bool, true, false, Option, none, some, List, [], ◌∷◌, arith, ◌==◌,
  if◌then◌else◌, indicator,
}

module _ {A : Type 0} (key : A → ℕ) where
  -- SELECT … WHERE id = k
  abbrev pub get : ℕ → List A → Option A
  get k [] = none
  get k (r ∷ rs) = let rest = get k rs in if key r == k then some r else rest

  -- UPDATE … WHERE id = k
  abbrev pub modify : ℕ → (A → A) → List A → List A
  modify k f [] = []
  modify k f (r ∷ rs) = let rest = modify k f rs in if key r == k then f r ∷ rs else r ∷ rest

  -- UPDATE … WHERE id = k AND guard RETURNING …: the new row and the new table.
  unfoldable pub update : ℕ → (A → Bool) → (A → A) → List A → Option (A × List A)
  update k guard f rs = elim (get k rs) [
    | none ↦ none
    | some r ↦ if guard r then some (f r, modify k f rs) else none
  ]

  -- The primary key's constraint.
  abbrev pub Distinct : List A → Type 0
  Distinct [] = Unit {0}
  Distinct (r ∷ rs) = (get (key r) rs ≡ none) × Distinct rs

module _ {A : Type 0} where
  -- SELECT … WHERE p
  abbrev pub find : (A → Bool) → List A → Option A
  find p [] = none
  find p (r ∷ rs) = let rest = find p rs in if p r then some r else rest

  -- SELECT … WHERE p, all of them
  abbrev pub rows_where : (A → Bool) → List A → List A
  rows_where p [] = []
  rows_where p (r ∷ rs) = let rest = rows_where p rs in if p r then r ∷ rest else rest

  abbrev pub insert_row_by : (A → A → Bool) → A → List A → List A
  insert_row_by before a [] = a ∷ []
  insert_row_by before a (r ∷ rs) =
      let rest = insert_row_by before a rs in if before r a then r ∷ rest else a ∷ r ∷ rs

  -- ORDER BY
  abbrev pub order_by : (A → A → Bool) → List A → List A
  order_by before [] = []
  order_by before (r ∷ rs) = insert_row_by before r (order_by before rs)

  -- SELECT COUNT(*) … WHERE p
  abbrev pub count : (A → Bool) → List A → ℕ
  count p [] = 0
  count p (r ∷ rs) = indicator (p r) + count p rs

  abbrev pub is_some : Option A → Bool
  is_some none = false
  is_some (some a) = true

  -- What an update does to the row of its key.
  abbrev pub guarded : (A → Bool) → (A → A) → A → A
  guarded guard f r = if guard r then f r else r

  -- The table after an update.
  abbrev pub written : List A → Option (A × List A) → List A
  written rs none = rs
  written rs (some (r, rs')) = rs'

module _ {A : Type 0} (key : A → ℕ) where
  -- One row is exchanged: the count moves by what that row adds.
  pub count-modify :
      (p : A → Bool) (f : A → A) (k : ℕ) (rs : List A) (r : A)
      → get key k rs ≡ some r
      → count p (modify key k f rs) + indicator (p r) ≡ count p rs + indicator (p (f r))
  count-modify p f k [] r e = ground arith
  count-modify p f k (x ∷ rs) r e = ground (arith, count-modify p f k rs r)

  pub get-modify :
      (f : A → A) (k j : ℕ) (rs : List A) (r : A)
      → get key k rs ≡ some r
      → key (f r) ≡ k
      → get key j (modify key k f rs) ≡ (if k == j then some (f r) else get key j rs)
  get-modify f k j [] r e h = ground arith
  get-modify f k j (x ∷ rs) r e h = ground (arith, get-modify f k j rs r)

  pub key-get : (k : ℕ) (rs : List A) (r : A) → get key k rs ≡ some r → key r ≡ k
  key-get k [] r e = ground arith
  key-get k (x ∷ rs) r e = ground (arith, key-get k rs r)

  -- A key that no row has stays free when rows keep their keys.
  pub get-modify_absent :
      (f : A → A) (k j : ℕ) (rs : List A)
      → ((r : A) → key (f r) ≡ key r)
      → get key j rs ≡ none
      → get key j (modify key k f rs) ≡ none
  get-modify_absent f k j [] h e = refl
  get-modify_absent f k j (x ∷ rs) h e = ground (arith, h x, get-modify_absent f k j rs h)

  pub modify-Distinct :
      (f : A → A) (k : ℕ) (rs : List A)
      → ((r : A) → key (f r) ≡ key r)
      → Distinct key rs
      → Distinct key (modify key k f rs)
  modify-Distinct f k [] h d = tt
  modify-Distinct f k (x ∷ rs) h d =
      ground (arith, h x, modify-Distinct f k rs h, get-modify_absent f k (key x) rs h)

  -- A row found by any test is the row of its own key.
  pub get-find :
      (p : A → Bool) (rs : List A) (r : A)
      → Distinct key rs
      → find p rs ≡ some r
      → get key (key r) rs ≡ some r
  get-find p [] r d e = ground arith
  get-find p (x ∷ rs) r d e = ground (arith, get-find p rs r)

  pub find_holds : (p : A → Bool) (rs : List A) (r : A) → find p rs ≡ some r → p r ≡ true
  find_holds p [] r e = ground arith
  find_holds p (x ∷ rs) r e = ground (arith, find_holds p rs r)

  update_cases :
      (k : ℕ) (guard : A → Bool) (f : A → A) (rs : List A) (o : Option A) {r' : A} {rs' : List A}
      → get key k rs ≡ o
      → update key k guard f rs ≡ some (r', rs')
      → (r : A) × (get key k rs ≡ some r)
        × (guard r ≡ true)
        × (r' ≡ f r)
        × (rs' ≡ modify key k f rs)
  unfolding update
  update_cases k guard f rs none e h = ground arith
  update_cases k guard f rs (some r) e h =
      (r, ground arith, ground arith, ground arith, ground arith)

  pub update_hit :
      (k : ℕ) (guard : A → Bool) (f : A → A) (rs : List A) (r : A)
      → get key k rs ≡ some r
      → guard r ≡ true
      → update key k guard f rs ≡ some (f r, modify key k f rs)
  unfolding update
  update_hit k guard f rs r e h = rw (update, e, h) refl

  -- An update that found its row: which row it was, and what became of it.
  pub update_inversion :
      (k : ℕ) (guard : A → Bool) (f : A → A) (rs : List A) {r' : A} {rs' : List A}
      → update key k guard f rs ≡ some (r', rs')
      → (r : A) × (get key k rs ≡ some r)
        × (guard r ≡ true)
        × (r' ≡ f r)
        × (rs' ≡ modify key k f rs)
  update_inversion k guard f rs h = update_cases k guard f rs (get key k rs) refl h

  modify-guarded_hit :
      (k : ℕ) (guard : A → Bool) (f : A → A) (rs : List A) (r : A)
      → get key k rs ≡ some r
      → guard r ≡ true
      → modify key k (guarded guard f) rs ≡ modify key k f rs
  modify-guarded_hit k guard f [] r e h = refl
  modify-guarded_hit k guard f (x ∷ rs) r e h = ground (arith, modify-guarded_hit k guard f rs r)

  modify-guarded_miss :
      (k : ℕ) (guard : A → Bool) (f : A → A) (rs : List A) (r : A)
      → get key k rs ≡ some r
      → guard r ≡ false
      → modify key k (guarded guard f) rs ≡ rs
  modify-guarded_miss k guard f [] r e h = refl
  modify-guarded_miss k guard f (x ∷ rs) r e h = ground (arith, modify-guarded_miss k guard f rs r)

  pub modify_missing :
      (k : ℕ) (f : A → A) (rs : List A) → get key k rs ≡ none → modify key k f rs ≡ rs
  modify_missing k f [] e = refl
  modify_missing k f (x ∷ rs) e = ground (arith, modify_missing k f rs)

  written-update_cases :
      (k : ℕ) (guard : A → Bool) (f : A → A) (rs : List A) (o : Option A)
      → get key k rs ≡ o
      → written rs (update key k guard f rs) ≡ modify key k (guarded guard f) rs
  unfolding update
  written-update_cases k guard f rs none e = ground (arith, modify_missing k (guarded guard f) rs)
  written-update_cases k guard f rs (some r) e =
      ground (arith, modify-guarded_hit k guard f rs r, modify-guarded_miss k guard f rs r)

  -- An update whose number of rows nobody looks at.
  pub written-update :
      (k : ℕ) (guard : A → Bool) (f : A → A) (rs : List A)
      → written rs (update key k guard f rs) ≡ modify key k (guarded guard f) rs
  written-update k guard f rs = written-update_cases k guard f rs (get key k rs) refl

  -- The row of a key after an update by key, whether or not there is one.
  pub get-modify_any :
      (f : A → A) (k j : ℕ) (rs : List A)
      → ((r : A) → key (f r) ≡ key r)
      → get key j (modify key k f rs)
        ≡ (if k == j then Option.map f (get key k rs) else get key j rs)
  get-modify_any f k j [] h = ground arith
  get-modify_any f k j (x ∷ rs) h = ground (arith, h x, get-modify_any f k j rs h)

  -- The key of a row that was found is in use, also after an update by key.
  pub find_present :
      (p : A → Bool) (rs : List A) (r : A)
      → find p rs ≡ some r
      → is_some (get key (key r) rs) ≡ true
  find_present p [] r e = ground arith
  find_present p (x ∷ rs) r e = ground (arith, find_present p rs r)

  pub present-modify :
      (f : A → A) (k j : ℕ) (rs : List A)
      → ((r : A) → key (f r) ≡ key r)
      → is_some (get key j rs) ≡ true
      → is_some (get key j (modify key k f rs)) ≡ true
  present-modify f k j [] h e = ground arith
  present-modify f k j (x ∷ rs) h e = ground (arith, h x, present-modify f k j rs h)
