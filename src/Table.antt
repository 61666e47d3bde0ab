-- ===== src/Table.antt =====
-- TabularData of dvc/compare.py: columns by name, and the names in their order. Row numbers are
-- not negative here. A table of text cells; a cell that is None takes the fill value.
mod Examples
pub mod Edit
pub mod Invariant
pub mod Zip
pub mod Rows
pub mod Filter
use dvc.Base.{
  ℕ, zero, suc, ◌+◌, String, Bool, true, false, not, ◌&&◌, ◌||◌, Option, none, some, List, [], ◌∷◌,
  ◌++◌, ◌==◌, Eq, string_eq, nat_eq, contains, any, all, select, map, length, or_raise, map_option,
  Result, return, raise, then_result, fmap, if◌then◌else◌,
}
use dvc.Base.Dict
use dvc.Base.Dict.{Dict}

pub data TableError : Type 0 where
  key_error index_error value_error : TableError

-- `_columns`, `_keys`, `_fill_value` and `_protected`.
pub record TabularData : Type 0 where
  pub columns : Dict (List String)
  pub names : List String
  pub fill_value : String
  pub protected : List String

unfoldable pub with_value : Option String → String → String
with_value none default = default
with_value (some v) default = v

unfoldable pub repeat : {A : Type 0} → ℕ → A → List A
repeat zero a = []
repeat (suc n) a = a ∷ repeat n a

-- `__init__`
unfoldable pub empty_columns : List String → Dict (List String) → Dict (List String)
empty_columns [] d = d
empty_columns (name ∷ names) d = empty_columns names (Dict.insert name [] d)

unfoldable pub new_table : List String → String → TabularData
unfolding empty_columns
new_table columns fill_value = record {
  columns = empty_columns columns [];
  names = columns;
  fill_value = fill_value;
  protected = [];
}

unfoldable pub column : TabularData → String → Result TableError (List String)
column t name = or_raise key_error (Dict.lookup name t.columns) return

unfoldable pub columns_of :
    List String → Dict (List String) → Result TableError (List (List String))
columns_of [] d = return []
columns_of (name ∷ names) d =
    or_raise key_error (Dict.lookup name d) λ c. fmap (λ cs. c ∷ cs) (columns_of names d)

-- The `columns` property.
unfoldable pub all_columns : TabularData → Result TableError (List (List String))
unfolding columns_of
all_columns t = columns_of t.names t.columns

unfoldable pub is_protected : TabularData → String → Bool
is_protected t col_name = contains t.protected col_name

unfoldable pub protect : TabularData → List String → TabularData
protect t col_names = record t { protected = t.protected ++ col_names }

unfoldable pub unprotect : TabularData → List String → TabularData
unprotect t col_names = record t {
  protected = select (λ c. not (contains col_names c)) t.protected;
}

-- What the row has for the first of the columns, and what it has for the others.
unfoldable pub head_cell : List (Option String) → Option String
head_cell [] = none
head_cell (v ∷ row) = v

unfoldable pub tail_cells : List (Option String) → List (Option String)
tail_cells [] = []
tail_cells (v ∷ row) = row

-- `_iter_col_row`: each column with its cell of the row. Cells beyond the columns are not used, and
-- missing ones are filled. `write` is what is done with a column and its cell.
unfoldable pub iter_col_row :
    (String → List String → Result TableError (List String))
    → String
    → List String
    → List (Option String)
    → Dict (List String)
    → Result TableError (Dict (List String))
unfolding head_cell tail_cells with_value
iter_col_row write fill [] row d = return d
iter_col_row write fill (name ∷ names) row d = or_raise key_error (Dict.lookup name d) λ col.
    then_result (write (with_value (head_cell row) fill) col)
      λ col'. iter_col_row write fill names (tail_cells row) (Dict.insert name col' d)

unfoldable pub with_columns : TabularData → Dict (List String) → TabularData
with_columns t d = record t { columns = d }

unfoldable pub append : List (Option String) → TabularData → Result TableError TabularData
unfolding iter_col_row with_columns
append value t =
    fmap (with_columns t)
      (iter_col_row (λ v col. return (col ++ v ∷ [])) t.fill_value t.names value t.columns)

unfoldable pub extend : List (List (Option String)) → TabularData → Result TableError TabularData
unfolding append
extend [] t = return t
extend (row ∷ values) t = then_result (append row t) (extend values)

-- `list.insert`: beyond the end it appends.
unfoldable pub insert_at : {A : Type 0} → ℕ → A → List A → List A
insert_at i v [] = v ∷ []
insert_at zero v (x ∷ xs) = v ∷ x ∷ xs
insert_at (suc i) v (x ∷ xs) = x ∷ insert_at i v xs

unfoldable pub insert : ℕ → List (Option String) → TabularData → Result TableError TabularData
unfolding iter_col_row with_columns insert_at
insert index value t =
    fmap (with_columns t)
      (iter_col_row (λ v col. return (insert_at index v col)) t.fill_value t.names value t.columns)

-- `col[i] = v`
unfoldable pub set_at : {A : Type 0} → ℕ → A → List A → Result TableError (List A)
set_at i v [] = raise index_error
set_at zero v (x ∷ xs) = return (v ∷ xs)
set_at (suc i) v (x ∷ xs) = fmap (λ ys. x ∷ ys) (set_at i v xs)

-- `__setitem__` at a number.
unfoldable pub set_row : ℕ → List (Option String) → TabularData → Result TableError TabularData
unfolding iter_col_row with_columns set_at
set_row item value t =
    fmap (with_columns t) (iter_col_row (set_at item) t.fill_value t.names value t.columns)

-- `del col[i]`
unfoldable pub delete_at : {A : Type 0} → ℕ → List A → Result TableError (List A)
delete_at i [] = raise index_error
delete_at zero (x ∷ xs) = return xs
delete_at (suc i) (x ∷ xs) = fmap (λ ys. x ∷ ys) (delete_at i xs)

-- `__delitem__` at a number.
unfoldable pub delete_row : ℕ → TabularData → Result TableError TabularData
unfolding iter_col_row with_columns delete_at
delete_row item t =
    fmap (with_columns t)
      (iter_col_row (λ v col. delete_at item col) t.fill_value t.names [] t.columns)

-- `zip(*columns)`
unfoldable pub zip_with : {A B C : Type 0} → (A → B → C) → List A → List B → List C
zip_with f [] ys = []
zip_with f (x ∷ xs) [] = []
zip_with f (x ∷ xs) (y ∷ ys) = f x y ∷ zip_with f xs ys

unfoldable pub zip_columns : List (List String) → List (List String)
unfolding zip_with
zip_columns [] = []
zip_columns (c ∷ []) = map (λ x. x ∷ []) c
zip_columns (c ∷ c' ∷ cs) = zip_with (λ x row. x ∷ row) c (zip_columns (c' ∷ cs))

-- `__iter__`
unfoldable pub rows_of : TabularData → Result TableError (List (List String))
unfolding all_columns zip_columns
rows_of t = fmap zip_columns (all_columns t)

unfoldable pub item_at : {A : Type 0} → ℕ → List A → Result TableError A
item_at i [] = raise index_error
item_at zero (x ∷ xs) = return x
item_at (suc i) (x ∷ xs) = item_at i xs

unfoldable pub items_at : ℕ → List (List String) → Result TableError (List String)
unfolding item_at
items_at i [] = return []
items_at i (c ∷ cs) = then_result (item_at i c) λ x. fmap (λ xs. x ∷ xs) (items_at i cs)

-- `__getitem__` at a number.
unfoldable pub get_row : ℕ → TabularData → Result TableError (List String)
unfolding all_columns items_at
get_row item t = then_result (all_columns t) (items_at item)

-- `__len__`
unfoldable pub len : TabularData → Result TableError ℕ
unfolding all_columns
len t = elim t.columns [
  | [] ↦ return 0
  | _ ∷ _ ↦
      then_result (all_columns t)
        λ cs. elim cs [ [] ↦ raise index_error | c ∷ _ ↦ return (length c) ]
]
