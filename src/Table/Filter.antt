-- ===== src/Table/Filter.antt =====
-- What `dropna` of dvc/compare.py leaves of the rows.
use dvc.Base.{
  ◌≡◌, ◌≢◌, refl, sym, ap, ◌∙◌, ℕ, zero, suc, ◌<◌, String, Bool, true, false, not, Option, List, [],
  ◌∷◌, ◌==◌, string_eq, nat_eq, contains, any, select, length, return, fmap, Bool-cases,
  Option-cases, inl, inr, arith, if◌then◌else◌, map,
}
use dvc.Base.Dict
use dvc.Base.Dict.{Dict}
use dvc.Table.{TabularData, iter_col_row, with_columns, rows_of, zip_with}
use dvc.Table.Edit.{
  considered, cell_matches, row_matches, numbers, without, drop_numbers, drop_rows, dropped_rows,
  dropna,
}
use dvc.Table.Invariant.{IsTable}
use dvc.Table.Zip.{with_cell, cell_row}
use dvc.Table.Rows.{changed}

-- The cells of a row under the columns that `subset` names.
unfoldable pub considered_cells : Option (List String) → List String → List String → List String
considered_cells subset [] row = []
considered_cells subset (name ∷ names) [] = []
considered_cells subset (name ∷ names) (cell ∷ row) =
    if considered subset name
    then cell ∷ considered_cells subset names row
    else considered_cells subset names row

-- The rows that stay: with "any" those with no cell empty, with "all" those with one not empty.
unfoldable pub stays : String → Option (List String) → String → List String → List String → Bool
unfolding considered_cells
stays how subset fill names row =
    if how == "all"
    then any (λ cell. not (cell == fill)) (considered_cells subset names row)
    else not (contains (considered_cells subset names row) fill)

row_matches-any :
    (subset : Option (List String)) (match_any : Bool) (fill : String) (names row : List String)
    → row_matches subset match_any fill names row
      ≡ any (cell_matches match_any fill) (considered_cells subset names row)
unfolding row_matches considered_cells
row_matches-any subset match_any fill [] row = refl
row_matches-any subset match_any fill (name ∷ names) [] = refl
row_matches-any subset match_any fill (name ∷ names) (cell ∷ row) =
    ground (arith, row_matches-any subset match_any fill names row)

any-contains :
    (fill : String) (cells : List String) → any (cell_matches true fill) cells ≡ contains cells fill
unfolding cell_matches
any-contains fill [] = refl
any-contains fill (c ∷ cells) = ground (arith, any-contains fill cells)

no_match :
    (fill : String) (cells : List String)
    → any (cell_matches false fill) cells ≡ any (λ cell. not (cell == fill)) cells
unfolding cell_matches
no_match fill [] = refl
no_match fill (c ∷ cells) = ground (arith, no_match fill cells)

negated_twice : (b : Bool) → not (not b) ≡ b
negated_twice true = refl
negated_twice false = refl

not-in-numbers :
    (test : List String → Bool) (k n : ℕ) (rs : List (List String))
    → k < n
    → contains (numbers test n rs) k ≡ false
unfolding numbers
not-in-numbers test k n [] h = refl
not-in-numbers test k n (r ∷ rs) h = ground (arith, not-in-numbers test k (suc n) rs)

without_below :
    {A : Type 0} (to_drop : List ℕ) (k n : ℕ) (xs : List A)
    → k < n
    → without (k ∷ to_drop) n xs ≡ without to_drop n xs
unfolding without
without_below to_drop k n [] h = refl
without_below to_drop k n (x ∷ xs) h = ground (arith, without_below to_drop k (suc n) xs)

without-numbers :
    (test : List String → Bool) (n : ℕ) (rs : List (List String))
    → without (numbers test n rs) n rs ≡ select (λ r. not (test r)) rs
unfolding without numbers
without-numbers test n [] = refl
without-numbers test n (r ∷ rs) =
    let later : List ℕ = numbers test (suc n) rs in
    elim (Bool-cases (test r)) [
      | inl e ↦
          (let now : numbers test n (r ∷ rs) ≡ n ∷ later = rw e refl in
            let here : (n == n) ≡ true = ground arith in
            ap (λ l. without l n (r ∷ rs)) now
            ∙ rw (here, e)
                (without_below later n (suc n) rs (omega arith) ∙ without-numbers test (suc n) rs))
      | inr e ↦
          (let now : numbers test n (r ∷ rs) ≡ later = rw e refl in
            ap (λ l. without l n (r ∷ rs)) now
            ∙ rw (not-in-numbers test n (suc n) rs (omega arith), e)
                (ap (λ l. r ∷ l) (without-numbers test (suc n) rs)))
    ]

-- How many of a number of entries stay.
kept : List ℕ → ℕ → ℕ → ℕ
kept to_drop n zero = 0
kept to_drop n (suc k) =
    if contains to_drop n then kept to_drop (suc n) k else suc (kept to_drop (suc n) k)

length-without :
    {A : Type 0} (to_drop : List ℕ) (n : ℕ) (xs : List A)
    → length (without to_drop n xs) ≡ kept to_drop n (length xs)
unfolding without kept
length-without to_drop n [] = refl
length-without to_drop n (x ∷ xs) = ground (arith, length-without to_drop (suc n) xs)

zip_with-without :
    (to_drop : List ℕ) (n : ℕ) (c : List String) (rs : List (List String))
    → length c ≡ length rs
    → zip_with with_cell (without to_drop n c) (without to_drop n rs)
      ≡ without to_drop n (zip_with with_cell c rs)
unfolding zip_with without
zip_with-without to_drop n [] [] e = refl
zip_with-without to_drop n [] (y ∷ rs) e = absurd (omega arith)
zip_with-without to_drop n (x ∷ c) [] e = absurd (omega arith)
zip_with-without to_drop n (x ∷ c) (y ∷ rs) e =
    let ih = zip_with-without to_drop (suc n) c rs (omega arith) in
    elim (Bool-cases (contains to_drop n)) [
      | inl i ↦ rw i ih
      | inr o ↦ rw o (ap (λ l. (x ∷ y) ∷ l) ih)
    ]

map-without :
    (to_drop : List ℕ) (n : ℕ) (c : List String)
    → map cell_row (without to_drop n c) ≡ without to_drop n (map cell_row c)
unfolding without
map-without to_drop n [] = refl
map-without to_drop n (x ∷ c) =
    let ih = map-without to_drop (suc n) c in
    elim (Bool-cases (contains to_drop n)) [
      | inl i ↦ rw i ih
      | inr o ↦ rw o (ap (λ l. (x ∷ []) ∷ l) ih)
    ]

drop_numbers-iter_col_row :
    (to_drop : List ℕ) (fill : String) (names : List String) (d : Dict (List String))
    → drop_numbers to_drop names d
      ≡ iter_col_row (λ v c. return (without to_drop 0 c)) fill names [] d
unfolding drop_numbers iter_col_row
drop_numbers-iter_col_row to_drop fill [] d = refl
drop_numbers-iter_col_row to_drop fill (name ∷ names) d = elim (Option-cases (Dict.lookup name d)) [
  | inl e ↦ rw e refl
  | inr (c, e) ↦
      rw e (drop_numbers-iter_col_row to_drop fill names (Dict.insert name (without to_drop 0 c) d))
]

dropped_rows-stays :
    (how : String) (subset : Option (List String)) (fill : String) (names : List String)
    (rs : List (List String))
    → without
        (dropped_rows (not (how == "all")) (row_matches subset (not (how == "all")) fill names) rs)
        0
        rs
      ≡ select (stays how subset fill names) rs
unfolding dropped_rows stays
dropped_rows-stays how subset fill names rs = elim (Bool-cases (how == "all")) [
  | inl e ↦ rw e (
      without-numbers (λ row. not (row_matches subset false fill names row)) 0 rs
      ∙ same_test (λ row. not (not (row_matches subset false fill names row)))
          (stays how subset fill names) (λ row. all_test row e) rs)
  | inr e ↦ rw e (
      without-numbers (row_matches subset true fill names) 0 rs
      ∙ same_test (λ row. not (row_matches subset true fill names row))
          (stays how subset fill names) (λ row. any_test row e) rs)
]
  where
    same_test :
        (p q : List String → Bool)
        → ((row : List String) → p row ≡ q row)
        → (rows : List (List String)) → select p rows ≡ select q rows
    same_test p q h [] = refl
    same_test p q h (r ∷ rows) = ground (arith, h r, same_test p q h rows)

    all_test :
        (row : List String)
        → (how == "all") ≡ true
        → not (not (row_matches subset false fill names row)) ≡ stays how subset fill names row
    all_test row e = rw e (
        negated_twice (row_matches subset false fill names row)
        ∙ row_matches-any subset false fill names row
        ∙ no_match fill (considered_cells subset names row))

    any_test :
        (row : List String)
        → (how == "all") ≡ false
        → not (row_matches subset true fill names row) ≡ stays how subset fill names row
    any_test row e = rw e (
        ap not (
          row_matches-any subset true fill names row
          ∙ any-contains fill (considered_cells subset names row)))

rows_axis :
    (contains {A = String} ("rows" ∷ "cols" ∷ []) "rows" ≡ true)
    × (◌==◌ {A = String} "rows" "rows" ≡ true)
unfolding string_eq
rows_axis = (refl, refl)

-- In a table with columns of one length, at least one, `dropna` on rows returns for "any" and "all",
-- and leaves just the rows that stay, in their order: those with no empty cell in the considered
-- columns, or those with one that is not empty.
pub dropna-rows_of :
    (n : ℕ) (t : TabularData) (rs : List (List String)) (how : String)
    (subset : Option (List String))
    → IsTable n t
    → t.names ≢ []
    → rows_of t ≡ return rs
    → contains ("any" ∷ "all" ∷ []) how ≡ true
    → (m : ℕ) × (t' : TabularData) × (dropna "rows" how subset t ≡ return t')
      × IsTable m t'
      × (t'.names ≡ t.names)
      × (rows_of t' ≡ return (select (stays how subset t.fill_value t.names) rs))
unfolding dropna drop_rows
dropna-rows_of n t rs how subset h some_names was valid =
    let td =
      dropped_rows (not (how == "all"))
        (row_matches subset (not (how == "all")) t.fill_value t.names) rs in
    let (t', e, h', same, now) =
      changed n (λ v. without td 0) (λ r. without td 0) (λ v c l. map-without td 0 c)
        (λ v r c l e e'. zip_with-without td 0 c l (e ∙ sym e')) (kept td 0 n)
        (λ v c. return (without td 0 c)) [] t rs (λ v c e. refl)
        (λ v c e. length-without td 0 c ∙ ap (kept td 0) e) h some_names was in
    (
      kept td 0 n,
      t',
      rw (rows_axis.0, valid, was, rows_axis.1)
          (ap (fmap (with_columns t)) (drop_numbers-iter_col_row td t.fill_value t.names t.columns)
            ∙ e),
      h',
      same,
      now ∙ ap return (dropped_rows-stays how subset t.fill_value t.names rs),
    )
