-- ===== src/Database/Laws.antt =====
-- Rows after an update.
use sync_bridge_platform.Base.{
  ◌++◌, is_there, none, true, All, inl, inr, Bool-cases, ◌==◌, String, some, List, [], ◌∷◌, ◌≡◌,
  refl, sym, ap, ◌∙◌, ◌≢◌, arith, eq_iff,
}
use sync_bridge_platform.Database.{find, update}

module _ {R : Type 0} (id_of : R → String) where
  -- An update that keeps the ids changes what is found under its id, and nothing else.
  pub find-update_self :
      (id : String) (change : R → R) (rows : List R) (row : R)
      → ((r : R) → id_of (change r) ≡ id_of r)
      → find id_of id rows ≡ some row
      → find id_of id (update id_of id change rows) ≡ some (change row)
  unfolding find update
  find-update_self id change [] row keeps h = cc
  find-update_self id change (r ∷ rows) row keeps h =
      ground (arith, keeps r, find-update_self id change rows row keeps)

  pub find-update_ne :
      (id other : String) (change : R → R) (rows : List R)
      → ((r : R) → id_of (change r) ≡ id_of r)
      → id ≢ other
      → find id_of other (update id_of id change rows) ≡ find id_of other rows
  unfolding find update
  find-update_ne id other change [] keeps ne = refl
  find-update_ne id other change (r ∷ rows) keeps ne = ground (
    arith,
    keeps r,
    eq_iff (id_of r) id,
    eq_iff (id_of r) other,
    find-update_ne id other change rows keeps ne,
  )

  pub find-id :
      (id : String) (rows : List R) (row : R) → find id_of id rows ≡ some row → id_of row ≡ id
  unfolding find
  find-id id [] row h = absurd (ground arith)
  find-id id (r ∷ rows) row h = ground (arith, eq_iff (id_of r) id, find-id id rows row)

  -- What holds of all rows, and of an updated row as of the one before, holds of all rows still.
  pub All-update :
      (P : R → Type 0) (id : String) (change : R → R) (rows : List R)
      → ((r : R) → P r → P (change r))
      → All P rows
      → All P (update id_of id change rows)
  unfolding update
  All-update P id change [] keeps h = tt
  All-update P id change (r ∷ rows) keeps (p, h) = elim (Bool-cases (id_of r == id)) [
    | inl e ↦ rw e (keeps r p, h)
    | inr e ↦ rw e (p, All-update P id change rows keeps h)
  ]

  pub find-append :
      (id : String) (rows more : List R) (row : R)
      → find id_of id rows ≡ some row
      → find id_of id (rows ++ more) ≡ some row
  unfolding find
  find-append id [] more row h = cc
  find-append id (r ∷ rows) more row h = ground (arith, find-append id rows more row)

  -- A row is there.
  abbrev pub Found : String → List R → Type 0
  Found id rows = is_there (find id_of id rows) ≡ true

  pub Found-append : (id : String) (rows more : List R) → Found id rows → Found id (rows ++ more)
  unfolding find
  Found-append id [] more h = cc
  Found-append id (r ∷ rows) more h = ground (arith, Found-append id rows more)

  pub Found-update :
      (id other : String) (change : R → R) (rows : List R)
      → ((r : R) → id_of (change r) ≡ id_of r)
      → Found id rows
      → Found id (update id_of other change rows)
  unfolding find update
  Found-update id other change [] keeps h = h
  Found-update id other change (r ∷ rows) keeps h =
      ground (arith, keeps r, Found-update id other change rows keeps)

  -- No two rows have one id.
  abbrev pub HasDistinctIds : List R → Type 0
  HasDistinctIds [] = Unit {0}
  HasDistinctIds (row ∷ rows) = (find id_of (id_of row) rows ≡ none) × HasDistinctIds rows

  find-prefix :
      (id : String) (rows more : List R)
      → find id_of id (rows ++ more) ≡ none
      → find id_of id rows ≡ none
  unfolding find
  find-prefix id [] more h = refl
  find-prefix id (r ∷ rows) more h = ground (arith, find-prefix id rows more)

  find-last : (rows : List R) (row : R) → find id_of (id_of row) (rows ++ row ∷ []) ≢ none
  unfolding find
  find-last [] row h = ground (arith, eq_iff (id_of row) (id_of row))
  find-last (r ∷ rows) row h = ground (arith, find-last rows row)

  pub HasDistinctIds-prefix :
      (rows more : List R) → HasDistinctIds (rows ++ more) → HasDistinctIds rows
  HasDistinctIds-prefix [] more h = tt
  HasDistinctIds-prefix (row ∷ rows) more (new, h) =
      (find-prefix (id_of row) rows more new, HasDistinctIds-prefix rows more h)

  -- Where ids are distinct, an update under the id of the last row is one of that row.
  pub update-last :
      (change : R → R) (rows : List R) (row : R)
      → ((r : R) → id_of (change r) ≡ id_of r)
      → HasDistinctIds (update id_of (id_of row) change (rows ++ row ∷ []))
      → update id_of (id_of row) change (rows ++ row ∷ []) ≡ rows ++ change row ∷ []
  unfolding update
  update-last change [] row keeps h = ground (arith, eq_iff (id_of row) (id_of row))
  update-last change (r ∷ rows) row keeps h = elim (Bool-cases (id_of r == id_of row)) [
    | inl same ↦
        let again : HasDistinctIds (change r ∷ (rows ++ row ∷ [])) = rw same at h in
        let alike : id_of (change r) ≡ id_of row =
          ground (arith, keeps r, eq_iff (id_of r) (id_of row)) in
        absurd
          (find-last rows row (ap (λ id. find id_of id (rows ++ row ∷ [])) (sym alike) ∙ again.0))
    | inr other ↦
        let apart : HasDistinctIds (r ∷ update id_of (id_of row) change (rows ++ row ∷ [])) =
          rw other at h in
        rw other (ap (λ rs. r ∷ rs) (update-last change rows row keeps apart.1))
  ]
