-- ===== src/Server/Table.antt =====
-- Rows of a table under their ids, as the handlers of netlify/functions read and update them.
use dynastytrust.Prelude.{
  String, true, false, Option, none, some, List, [], ◌∷◌, ◌++◌, map, find, str_eq, eq_iff,
  if◌then◌else◌, ◌≡◌, ◌≢◌, ◌⊎◌, inl, inr, refl, sym, ◌∙◌, ap, arith, Bool-cases,
}

module _ {ℓ} {Row : Type ℓ} (id_of : Row → String) where
  abbrev pub find_row : String → List Row → Option Row
  find_row id rows = find (λ r. str_eq (id_of r) id) rows

  abbrev pub update_rows : String → (Row → Row) → List Row → List Row
  update_rows id change rows = map (λ r. if str_eq (id_of r) id then change r else r) rows

  pub find_row-id :
      (id : String) (rows : List Row) (r : Row) → find_row id rows ≡ some r → id_of r ≡ id
  find_row-id id [] r e = cc
  find_row-id id (row ∷ rows) r e = elim (Bool-cases (str_eq (id_of row) id)) [
    | inl hit ↦ (let same : row ≡ r = ground arith in ap id_of (sym same) ∙ (eq_iff _ _).0 hit)
    | inr miss ↦ find_row-id id rows r (ground arith)
  ]

  pub find_row-update_rows :
      (id : String) (change : Row → Row) (rows : List Row)
      → ((r : Row) → id_of (change r) ≡ id_of r)
      → (r : Row) → find_row id rows ≡ some r
      → find_row id (update_rows id change rows) ≡ some (change r)
  find_row-update_rows id change [] same r e = cc
  find_row-update_rows id change (row ∷ rows) same r e = elim (Bool-cases (str_eq (id_of row) id)) [
    | inl hit ↦ (let k : str_eq (id_of (change row)) id ≡ true = rw (same row) hit in ground arith)
    | inr miss ↦
        (let rest = find_row-update_rows id change rows same r (ground arith) in ground arith)
  ]

  pub find_row-update_rows_other :
      (id other : String) (change : Row → Row) (rows : List Row)
      → ((r : Row) → id_of (change r) ≡ id_of r)
      → other ≢ id
      → find_row other (update_rows id change rows) ≡ find_row other rows
  find_row-update_rows_other id other change [] same differ = refl
  find_row-update_rows_other id other change (row ∷ rows) same differ =
      let rest = find_row-update_rows_other id other change rows same differ in
      elim (Bool-cases (str_eq (id_of row) id)) [
        | inl hit ↦
            (let miss : str_eq (id_of row) other ≡ false =
                ground (arith, eq_iff (id_of row) id, eq_iff (id_of row) other) in
              let k : str_eq (id_of (change row)) other ≡ false = rw (same row) miss in
              ground arith)
        | inr miss ↦ ground arith
      ]

  pub find_row-append :
      (id : String) (rows : List Row) (r : Row)
      → (find_row id (rows ++ (r ∷ [])) ≡ find_row id rows)
        ⊎ ((find_row id rows ≡ none) × (find_row id (rows ++ (r ∷ [])) ≡ some r))
  find_row-append id [] r = ground arith
  find_row-append id (row ∷ rows) r = elim (Bool-cases (str_eq (id_of row) id)) [
    | inl hit ↦ ground arith
    | inr miss ↦ ground (arith, find_row-append id rows r)
  ]
