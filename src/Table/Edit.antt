-- ===== src/Table/Edit.antt =====
-- The methods of TabularData in dvc/compare.py that change its columns or drop rows.
use dvc.Base.{
  ℕ, suc, String, Bool, true, false, not, ◌&&◌, ◌||◌, Option, none, some, List, [], ◌∷◌, ◌++◌, ◌==◌,
  string_eq, nat_eq, list_eq, length, contains, any, select, map, or_raise, map_option, Result,
  return, raise, then_result, fmap, if◌then◌else◌,
}
use dvc.Base.Dict
use dvc.Base.Dict.{Dict}
use dvc.Table.{
  all_columns, TabularData, TableError, key_error, value_error, repeat, len, is_protected, column,
  with_columns, append, rows_of, with_value,
}

-- `list.remove`: the first occurrence.
unfoldable pub remove_name : String → List String → Option (List String)
remove_name x [] = none
remove_name x (y ∷ ys) = if x == y then some ys else map_option (λ zs. y ∷ zs) (remove_name x ys)

unfoldable pub drop_one : String → TabularData → Result TableError TabularData
unfolding remove_name is_protected
drop_one col t =
    if is_protected t col
    then return t
    else or_raise value_error (remove_name col t.names) λ names.
      or_raise key_error (Dict.lookup col t.columns)
        λ _. return (record t { names = names; columns = Dict.delete col t.columns })

unfoldable pub drop : List String → TabularData → Result TableError TabularData
unfolding drop_one
drop [] t = return t
drop (col ∷ col_names) t = then_result (drop_one col t) (drop col_names)

-- `keys[keys.index(from)] = to`
unfoldable pub replace_name : String → String → List String → Option (List String)
replace_name x z [] = none
replace_name x z (y ∷ ys) =
    if x == y then some (z ∷ ys) else map_option (λ zs. y ∷ zs) (replace_name x z ys)

unfoldable pub rename : String → String → TabularData → Result TableError TabularData
unfolding replace_name
rename from_col_name to_col_name t = or_raise key_error (Dict.lookup from_col_name t.columns) λ col.
    or_raise value_error (replace_name from_col_name to_col_name t.names) λ names.
      return (record t {
        columns = Dict.insert to_col_name col (Dict.delete from_col_name t.columns);
        names = names;
      })

-- A set, in the order of the first occurrences.
unfoldable pub as_set : List String → List String → List String
as_set seen [] = []
as_set seen (x ∷ xs) = if contains seen x then as_set seen xs else x ∷ as_set (x ∷ seen) xs

unfoldable pub with_names : List String → TabularData → TabularData
with_names names t = record t { names = names }

unfoldable pub project : List String → TabularData → Result TableError TabularData
unfolding drop as_set with_names
project col_names t =
    fmap (with_names col_names)
      (drop (as_set [] (select (λ k. not (contains col_names k)) t.names)) t)

unfoldable pub is_empty : String → TabularData → Result TableError Bool
unfolding column
is_empty col_name t =
    fmap (λ col. not (any (λ item. not (item == t.fill_value)) col)) (column t col_name)

unfoldable pub add_column : String → TabularData → Result TableError TabularData
unfolding len repeat
add_column name t =
    fmap
      (λ n. record t {
        columns = Dict.insert name (repeat n t.fill_value) t.columns;
        names = t.names ++ name ∷ [];
      })
      (len t)

-- The columns for the keys of `d` that are no columns yet.
unfoldable pub add_missing : List String → TabularData → Result TableError TabularData
unfolding add_column
add_missing [] t = return t
add_missing (key ∷ ks) t =
    then_result (if contains t.names key then return t else add_column key t) (add_missing ks)

unfoldable pub optional : Option (Option String) → Option String
optional none = none
optional (some v) = v

unfoldable pub row_from_dict : Dict (Option String) → TabularData → Result TableError TabularData
unfolding add_missing append optional
row_from_dict d t = then_result (add_missing (Dict.keys d) t) λ t'.
    append (map (λ key. some (with_value (optional (Dict.lookup key d)) t'.fill_value)) t'.names) t'

-- `subset` is not used if it is None or empty.
unfoldable pub considered : Option (List String) → String → Bool
considered none name = true
considered (some []) name = true
considered (some (s ∷ ss)) name = contains (s ∷ ss) name

-- A cell counts if it is the fill value, or with `how="all"` if it is not.
unfoldable pub cell_matches : Bool → String → String → Bool
cell_matches true fill cell = cell == fill
cell_matches false fill cell = not (cell == fill)

unfoldable pub row_matches : Option (List String) → Bool → String → List String → List String → Bool
unfolding considered cell_matches
row_matches subset match_any fill [] row = false
row_matches subset match_any fill (name ∷ names) [] = false
row_matches subset match_any fill (name ∷ names) (cell ∷ row) =
    (considered subset name && cell_matches match_any fill cell)
    || row_matches subset match_any fill names row

-- The numbers, from `n` on, of the rows that a test takes.
unfoldable pub numbers : (List String → Bool) → ℕ → List (List String) → List ℕ
numbers test n [] = []
numbers test n (row ∷ rows) =
    if test row then n ∷ numbers test (suc n) rows else numbers test (suc n) rows

-- The names of the cells that count, row by row.
unfoldable pub matching_names :
    Option (List String) → Bool → String → List String → List String → List String
unfolding considered cell_matches
matching_names subset match_any fill [] row = []
matching_names subset match_any fill (name ∷ names) [] = []
matching_names subset match_any fill (name ∷ names) (cell ∷ row) =
    let rest = matching_names subset match_any fill names row in
    if considered subset name && cell_matches match_any fill cell then name ∷ rest else rest

unfoldable pub matching_cols :
    Option (List String) → Bool → String → List String → List (List String) → List String
unfolding matching_names
matching_cols subset match_any fill names [] = []
matching_cols subset match_any fill names (row ∷ rows) =
    matching_names subset match_any fill names row ++ matching_cols subset match_any fill names rows

-- `[x for n, x in enumerate(col) if n not in to_drop]`, from the number `n` on.
unfoldable pub without : {A : Type 0} → List ℕ → ℕ → List A → List A
without to_drop n [] = []
without to_drop n (x ∷ xs) =
    if contains to_drop n then without to_drop (suc n) xs else x ∷ without to_drop (suc n) xs

unfoldable pub drop_numbers :
    List ℕ → List String → Dict (List String) → Result TableError (Dict (List String))
unfolding without
drop_numbers to_drop [] d = return d
drop_numbers to_drop (name ∷ names) d =
    or_raise key_error (Dict.lookup name d)
      λ col. drop_numbers to_drop names (Dict.insert name (without to_drop 0 col) d)

unfoldable pub drop_rows : List ℕ → TabularData → Result TableError TabularData
unfolding drop_numbers with_columns
drop_rows to_drop t = fmap (with_columns t) (drop_numbers to_drop t.names t.columns)

-- `set(range(n)) - match_line`, for the rows whose numbers start at `n`.
unfoldable pub dropped_rows : Bool → (List String → Bool) → List (List String) → List ℕ
unfolding numbers
dropped_rows true test rows = numbers test 0 rows
dropped_rows false test rows = numbers (λ row. not (test row)) 0 rows

unfoldable pub dropped_cols : Bool → List String → List String → List String
unfolding as_set
dropped_cols true match_line names = as_set [] match_line
dropped_cols false match_line names =
    as_set [] (select (λ name. not (contains match_line name)) names)

unfoldable pub dropna :
    String → String → Option (List String) → TabularData → Result TableError TabularData
unfolding rows_of row_matches drop_rows dropped_rows matching_cols dropped_cols drop
dropna axis how subset t =
    if not (contains ("rows" ∷ "cols" ∷ []) axis)
    then raise value_error
    else if not (contains ("any" ∷ "all" ∷ []) how)
    then raise value_error
    else then_result (rows_of t) λ rows.
      let match_any = not (how == "all") in
      if axis == "rows"
      then drop_rows
          (dropped_rows match_any (row_matches subset match_any t.fill_value t.names) rows) t
      else drop
          (dropped_cols match_any (matching_cols subset match_any t.fill_value t.names rows)
            t.names)
          t

-- The distinct cells of a column, without the fill value if it is to be ignored.
unfoldable pub unique_vals : Bool → String → List String → List String
unfolding as_set
unique_vals ignore_empty fill col =
    if ignore_empty then select (λ x. not (x == fill)) (as_set [] col) else as_set [] col

unfoldable pub cols_to_drop :
    Option (List String) → Bool → String → List String → List (List String) → List String
unfolding considered unique_vals
cols_to_drop subset ignore_empty fill [] cs = []
cols_to_drop subset ignore_empty fill (name ∷ names) [] = []
cols_to_drop subset ignore_empty fill (name ∷ names) (c ∷ cs) =
    let rest = cols_to_drop subset ignore_empty fill names cs in
    if considered subset name && length (unique_vals ignore_empty fill c) == 1
    then name ∷ rest
    else rest

-- The part of a row that `subset` names; all of it if there is none.
unfoldable pub sub_row : Option (List String) → List String → List String → List String
unfolding considered
sub_row subset [] row = []
sub_row subset (name ∷ names) [] = []
sub_row subset (name ∷ names) (cell ∷ row) =
    if considered subset name then cell ∷ sub_row subset names row else sub_row subset names row

-- The numbers, from `n` on, of the rows that repeat one of `unique_rows` or an earlier one.
unfoldable pub repeated :
    (List String → List String) → List (List String) → ℕ → List (List String) → List ℕ
repeated part unique_rows n [] = []
repeated part unique_rows n (row ∷ rows) =
    let again = repeated part unique_rows (suc n) rows in
    let fresh = repeated part (unique_rows ++ part row ∷ []) (suc n) rows in
    if contains unique_rows (part row) then n ∷ again else fresh

unfoldable pub drop_duplicates :
    String → Option (List String) → Bool → TabularData → Result TableError TabularData
unfolding cols_to_drop drop rows_of repeated sub_row drop_rows all_columns
drop_duplicates axis subset ignore_empty t =
    if not (contains ("rows" ∷ "cols" ∷ []) axis)
    then raise value_error
    else if axis == "cols"
    then (then_result (all_columns t)
        λ cs. drop (cols_to_drop subset ignore_empty t.fill_value t.names cs) t)
    else (then_result (rows_of t) λ rows. drop_rows (repeated (sub_row subset t.names) [] 0 rows) t)
