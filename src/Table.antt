-- ===== src/Table.antt =====
-- A table of the database with a numeric primary key: SELECT by the key, UPDATE of one row, INSERT
-- at the end. The order of the list is the order of insertion.
use action_cloud.Prelude.{
  ℕ, ◌≡◌, refl, false, Option, none, some, List, [], ◌∷◌, ◌++◌, map, arith, nat_eq, ◌==◌,
  if◌then◌else◌, if_either, Bool-cases, inl, inr, subst, All, contains, Distinct,
}

module _ {ℓ} {A : Type ℓ} (key : A → ℕ) where
  -- SELECT * FROM t WHERE id = %s
  unfoldable pub find : ℕ → List A → Option A
  find id [] = none
  find id (row ∷ rows) = if key row == id then some row else find id rows

  -- UPDATE t SET … WHERE id = key row, to the values of `row`
  unfoldable pub replace : A → List A → List A
  replace row [] = []
  replace row (old ∷ rows) = (if key old == key row then row else old) ∷ replace row rows

  abbrev pub over : Option A → A → Option A
  over none row = none
  over (some _) row = some row

  abbrev pub or_new : Option A → A → ℕ → Option A
  or_new (some row) new id = some row
  or_new none new id = if key new == id then some new else none

  pub find-replace :
      (id : ℕ) (row : A) (rows : List A)
      → find id (replace row rows)
        ≡ (if key row == id then over (find id rows) row else find id rows)
  unfolding find replace
  find-replace id row [] = ground arith
  find-replace id row (old ∷ rows) = ground (arith, find-replace id row rows)

  pub find-insert :
      (id : ℕ) (new : A) (rows : List A) → find id (rows ++ new ∷ []) ≡ or_new (find id rows) new id
  unfolding find
  find-insert id new [] = ground arith
  find-insert id new (row ∷ rows) = ground (arith, find-insert id new rows)

  pub key-find : (id : ℕ) (rows : List A) (row : A) → find id rows ≡ some row → key row ≡ id
  unfolding find
  key-find id [] row h = cc
  key-find id (r ∷ rows) row h = ground (arith, key-find id rows row)

  -- The primary key: no key stands twice.
  pub keys-replace : (row : A) (rows : List A) → map key (replace row rows) ≡ map key rows
  unfolding replace
  keys-replace row [] = refl
  keys-replace row (old ∷ rows) = ground (arith, keys-replace row rows)

  contains-find :
      (id : ℕ) (rows : List A) → find id rows ≡ none → contains (map key rows) id ≡ false
  unfolding find
  contains-find id [] h = refl
  contains-find id (row ∷ rows) h = ground (arith, contains-find id rows)

  pub contains-insert :
      (id : ℕ) (new : A) (rows : List A)
      → contains (map key rows) id ≡ false
      → (key new == id) ≡ false
      → contains (map key (rows ++ new ∷ [])) id ≡ false
  contains-insert id new [] h ne = rw ne
  contains-insert id new (row ∷ rows) h ne = ground (arith, contains-insert id new rows)

  pub Distinct-insert :
      (new : A) (rows : List A)
      → find (key new) rows ≡ none
      → Distinct (map key rows)
      → Distinct (map key (rows ++ new ∷ []))
  unfolding find
  Distinct-insert new [] h d = (refl, tt)
  Distinct-insert new (row ∷ rows) h d = (
    contains-insert (key row) new rows d.0 (ground arith),
    Distinct-insert new rows (ground arith) d.1,
  )

module _ {ℓ κ} {A : Type ℓ} (key : A → ℕ) (P : A → Type κ) where
  pub All-replace : (row : A) (rows : List A) → P row → All P rows → All P (replace key row rows)
  unfolding replace
  All-replace row [] h k = tt
  All-replace row (old ∷ rows) h k =
      (if_either P (key old == key row) h k.0, All-replace row rows h k.1)

  pub All-find :
      (id : ℕ) (rows : List A) (row : A) → All P rows → find key id rows ≡ some row → P row
  unfolding find
  All-find id [] row h e = cc
  All-find id (old ∷ rows) row h e = elim (Bool-cases (key old == id)) [
    | inl hit ↦ let same : old ≡ row = ground arith in subst P same h.0
    | inr miss ↦ All-find id rows row h.1 (ground arith)
  ]
