-- ===== src/Table/Rows.antt =====
-- The rows of TabularData in dvc/compare.py: what a change of the columns does to them.
use mathlib.Core.List.{map-append}
use mathlib.Core.Path.{ap₂}
use dvc.Base.{
  ◌≡◌, ◌≢◌, refl, sym, ap, ◌∙◌, ℕ, suc, ◌<◌, String, Option, List, [], ◌∷◌, ◌++◌, string_eq, All,
  length, Result, return, then_result, fmap, arith, subst, map,
}
use dvc.Base.Dict.{Dict}
use dvc.Table.{
  TabularData, TableError, with_value, head_cell, tail_cells, columns_of, all_columns, append,
  insert_at, insert, set_at, set_row, delete_at, delete_row, zip_with, zip_columns, rows_of,
  item_at, items_at, get_row, iter_col_row, with_columns,
}
use dvc.Table.Zip.{
  put_at, cut_at, cell_row, zip_with-append, zip_with-insert_at, zip_with-put_at, zip_with-cut_at,
  map-insert_at, map-put_at, map-cut_at, length-insert_at, set_at_lem, delete_at_lem, length-snoc,
  length-zip_columns, items_at-zip_columns,
}
use dvc.Table.Invariant.{IsTable, columns_of-eq-return, write_each, written}

-- The row that is written: one cell for each name.
unfoldable pub padded {ℓ} : {A : Type ℓ} → String → List (Option String) → List A → List String
padded fill row [] = []
padded fill row (name ∷ names) =
    with_value (head_cell row) fill ∷ padded fill (tail_cells row) names

padded-columns :
    (fill : String) (row : List (Option String)) (names : List String) (d : Dict (List String))
    (cs : List (List String))
    → columns_of names d ≡ return cs
    → padded fill row cs ≡ padded fill row names
unfolding padded columns_of
padded-columns fill row [] d cs r =
    let e : [] ≡ cs = ground arith in subst (λ cs. padded fill row cs ≡ []) e refl
padded-columns fill row (name ∷ names) d cs r =
    let (c, rest, found, others, split) = columns_of-eq-return name names d cs r in
    rw split (
      ap (λ ps. with_value (head_cell row) fill ∷ ps)
        (padded-columns fill (tail_cells row) names d rest others))

-- The columns of a table that has a name.
first_column :
    {n : ℕ} (t : TabularData) (h : IsTable n t)
    → t.names ≢ []
    → (c : List String) × (cs : List (List String)) × (h.columns ≡ c ∷ cs)
unfolding all_columns
first_column t h some_names = go t.names some_names h.columns h.read
  where
    go :
        (names : List String)
        → names ≢ []
        → (ds : List (List String)) → columns_of names t.columns ≡ return ds
        → (c : List String) × (cs : List (List String)) × (ds ≡ c ∷ cs)
    go [] none_there ds r = absurd (none_there refl)
    go (name ∷ names) some_there ds r =
        let (c, rest, found, others, split) = columns_of-eq-return name names t.columns ds r in
        (c, rest, split)

return_injective :
    {a b : List (List String)}
    → ◌≡◌ {A = Result TableError (List (List String))} (return a) (return b)
    → a ≡ b
return_injective e = ground arith

-- A change of one list, of cells or of rows, that goes with the zip.
module _ (n : ℕ) (on_cells : String → List String → List String)
    (on_rows : List String → List (List String) → List (List String))
    (single : (v : String) (c : List String)
      → length c ≡ n
      → map (λ x. x ∷ []) (on_cells v c) ≡ on_rows (v ∷ []) (map (λ x. x ∷ []) c))
    (zipped : (v : String) (r c : List String) (rs : List (List String))
      → length c ≡ n
      → length rs ≡ n
      → zip_with (λ x row. x ∷ row) (on_cells v c) (on_rows r rs)
        ≡ on_rows (v ∷ r) (zip_with (λ x row. x ∷ row) c rs)) where
  zip_columns-write_each :
      (fill : String) (row : List (Option String)) (c : List String) (cs : List (List String))
      → All (λ c. length c ≡ n) (c ∷ cs)
      → zip_columns (write_each on_cells fill row (c ∷ cs))
        ≡ on_rows (padded fill row (c ∷ cs)) (zip_columns (c ∷ cs))
  unfolding zip_columns write_each padded
  zip_columns-write_each fill row c [] l = single (with_value (head_cell row) fill) c l.0
  zip_columns-write_each fill row c (c' ∷ cs) l =
      let ih = zip_columns-write_each fill (tail_cells row) c' cs l.1 in
      ap (zip_with (λ x row. x ∷ row) (on_cells (with_value (head_cell row) fill) c)) ih
      ∙ zipped (with_value (head_cell row) fill) (padded fill (tail_cells row) (c' ∷ cs)) c
          (zip_columns (c' ∷ cs)) l.0 (length-zip_columns n c' cs l.1)

  -- A table of at least one column, so changed by a loop over its columns.
  pub changed :
      (m : ℕ) (write : String → List String → Result TableError (List String))
      (row : List (Option String)) (t : TabularData) (rs : List (List String))
      → ((v : String) (c : List String) → length c ≡ n → write v c ≡ return (on_cells v c))
      → ((v : String) (c : List String) → length c ≡ n → length (on_cells v c) ≡ m)
      → IsTable n t
      → t.names ≢ []
      → rows_of t ≡ return rs
      → (t' : TabularData) × (fmap
            (with_columns t)
            (iter_col_row write t.fill_value t.names row t.columns)
          ≡ return t')
        × IsTable m t'
        × (t'.names ≡ t.names)
        × (rows_of t' ≡ return (on_rows (padded t.fill_value row t.names) rs))
  unfolding rows_of all_columns
  changed m write row t rs pure lengths h some_names was =
      let (t', e, read, same, fill, h') = written t h m write on_cells row pure lengths in
      let (c, cs, split) = first_column t h some_names in
      let old : zip_columns h.columns ≡ rs = return_injective (rw h.read at was) in
      (
        t',
        e,
        h',
        same,
        ap (fmap zip_columns) read
            ∙ ap return (
                subst
                  (λ ds.
                    All (λ c. length c ≡ n) ds
                    → zip_columns (write_each on_cells t.fill_value row ds)
                      ≡ on_rows (padded t.fill_value row ds) (zip_columns ds))
                  (sym split) (zip_columns-write_each t.fill_value row c cs) h.even
                ∙ ap₂ on_rows (padded-columns t.fill_value row t.names t.columns h.columns h.read)
                    old),
      )

module _ (n : ℕ) (t : TabularData) (rs : List (List String)) (h : IsTable n t)
    (some_names : t.names ≢ []) (was : rows_of t ≡ return rs) (value : List (Option String)) where
  -- In a table with columns of one length, at least one, `append` returns, keeps the columns of one
  -- length and under their names, and adds one row: the value, cut or filled to the columns.
  pub append-rows_of :
      (t' : TabularData) × (append value t ≡ return t')
      × IsTable (suc n) t'
      × (t'.names ≡ t.names)
      × (rows_of t' ≡ return (rs ++ padded t.fill_value value t.names ∷ []))
  unfolding append
  append-rows_of =
      changed n (λ v c. c ++ v ∷ []) (λ r l. l ++ r ∷ []) (λ v c e. map-append cell_row c (v ∷ []))
        (λ v r c l e e'. zip_with-append v r c l (e ∙ sym e')) (suc n) (λ v c. return (c ++ v ∷ []))
        value t rs (λ v c e. refl) (λ v c e. length-snoc v c ∙ ap suc e) h some_names was

  -- In such a table `insert` returns, and puts this row at the number, or at the end beyond it.
  pub insert-rows_of :
      (index : ℕ)
      → (t' : TabularData) × (insert index value t ≡ return t')
        × IsTable (suc n) t'
        × (t'.names ≡ t.names)
        × (rows_of t' ≡ return (insert_at index (padded t.fill_value value t.names) rs))
  unfolding insert
  insert-rows_of index =
      changed n (insert_at index) (insert_at index) (λ v c e. map-insert_at index v c)
        (λ v r c l e e'. zip_with-insert_at index v r c l (e ∙ sym e')) (suc n)
        (λ v c. return (insert_at index v c)) value t rs (λ v c e. refl)
        (λ v c e. length-insert_at index v c ∙ ap suc e) h some_names was

  -- In a table with columns of one length, at least one, an assignment to a row whose number is below
  -- that length returns, keeps the columns of one length and under their names, and replaces this row
  -- alone, by the value, cut or filled to the columns.
  pub set_row-rows_of :
      (index : ℕ)
      → index < n
      → (t' : TabularData) × (set_row index value t ≡ return t')
        × IsTable n t'
        × (t'.names ≡ t.names)
        × (rows_of t' ≡ return (put_at index (padded t.fill_value value t.names) rs))
  unfolding set_row
  set_row-rows_of index lt =
      changed n (put_at index) (put_at index) (λ v c e. map-put_at index v c)
        (λ v r c l e e'. zip_with-put_at index v r c l (e ∙ sym e')) n (set_at index) value t rs
        (λ v c e. (set_at_lem index v c (omega arith)).0)
        (λ v c e. (set_at_lem index v c (omega arith)).1 ∙ e) h some_names was

module _ (n : ℕ) (t : TabularData) (rs : List (List String)) (h : IsTable (suc n) t)
    (some_names : t.names ≢ []) (was : rows_of t ≡ return rs) where
  -- In a table with columns of one length, at least one, the deletion of a row whose number is below that
  -- length returns, and takes this row away alone.
  pub delete_row-rows_of :
      (index : ℕ)
      → index < suc n
      → (t' : TabularData) × (delete_row index t ≡ return t')
        × IsTable n t'
        × (t'.names ≡ t.names)
        × (rows_of t' ≡ return (cut_at index rs))
  unfolding delete_row
  delete_row-rows_of index lt =
      changed (suc n) (λ v. cut_at index) (λ r. cut_at index) (λ v c e. map-cut_at index c)
        (λ v r c l e e'. zip_with-cut_at index c l (e ∙ sym e')) n (λ v. delete_at index) [] t rs
        (λ v c e. (delete_at_lem index c (omega arith)).0)
        (λ v c e. omega (arith, (delete_at_lem index c (omega arith)).1)) h some_names was

-- In a table with columns of one length, at least one, the row at a number is that of the iteration,
-- and an IndexError is raised just where this has none.
pub get_row-rows_of :
    (n : ℕ) (t : TabularData) (rs : List (List String)) (index : ℕ)
    → IsTable n t
    → t.names ≢ []
    → rows_of t ≡ return rs
    → get_row index t ≡ item_at index rs
unfolding get_row rows_of all_columns
get_row-rows_of n t rs index h some_names was =
    let (c, cs, split) = first_column t h some_names in
    let old : zip_columns h.columns ≡ rs = return_injective (rw h.read at was) in
    let l : All (λ c. length c ≡ n) (c ∷ cs) = subst (All (λ c. length c ≡ n)) split h.even in
    ap (λ r. then_result r (items_at index)) (h.read ∙ ap return split)
    ∙ items_at-zip_columns n index c cs l
    ∙ ap (item_at index) (ap zip_columns (sym split) ∙ old)
