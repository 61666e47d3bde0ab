-- ===== src/Table/Examples.antt =====
-- Tests of TabularData on a small table, and the theorems on it.
use dvc.Base.{
  ℕ, String, ◌≡◌, refl, true, list_eq, nat_eq, none, some, List, [], ◌∷◌, ◌++◌, string_eq, nat_eq,
  list_eq, select, contains, return, arith,
}
use mathlib.Core.List.{cons≢nil}
use dvc.Base.Dict
use dvc.Table.{TabularData, all_columns, append, set_row, rows_of, get_row, item_at, protect}
use dvc.Table.Edit.{drop, rename, project, row_from_dict, dropna, drop_duplicates}
use dvc.Table.Invariant.{IsTable}
use dvc.Table.Zip.{put_at}
use dvc.Table.Rows.{padded, append-rows_of, set_row-rows_of, get_row-rows_of}
use dvc.Table.Filter.{stays, dropna-rows_of}

abbrev people : TabularData
people = record {
  columns = ("name", "ann" ∷ "bob" ∷ []) ∷ ("age", "31" ∷ "-" ∷ []) ∷ [];
  names = "name" ∷ "age" ∷ [];
  fill_value = "-";
  protected = [];
}

abbrev people_rows : List (List String)
people_rows = ("ann" ∷ "31" ∷ []) ∷ ("bob" ∷ "-" ∷ []) ∷ []

people-IsTable : IsTable 2 people
unfolding all_columns string_eq Dict.lookup Dict.insert Dict.keys Dict.delete
people-IsTable = record {
  distinct = (refl, (refl, tt));
  columns = ("ann" ∷ "bob" ∷ []) ∷ ("31" ∷ "-" ∷ []) ∷ [];
  read = refl;
  even = (refl, (refl, tt));
}

people_read : rows_of people ≡ return people_rows
unfolding rows_of string_eq Dict.lookup Dict.insert Dict.keys Dict.delete
people_read = refl

row_from_dict_test :
    row_from_dict (("name", some "eve") ∷ ("town", some "rome") ∷ []) people
    ≡ return (record people {
      columns =
          ("name", "ann" ∷ "bob" ∷ "eve" ∷ [])
          ∷ ("age", "31" ∷ "-" ∷ "-" ∷ [])
          ∷ ("town", "-" ∷ "-" ∷ "rome" ∷ [])
          ∷ [];
      names = "name" ∷ "age" ∷ "town" ∷ [];
    })
unfolding row_from_dict string_eq Dict.lookup Dict.insert Dict.keys Dict.delete
row_from_dict_test = refl

drop_duplicates_test : drop_duplicates "cols" none true people ≡ drop ("age" ∷ []) people
unfolding drop_duplicates string_eq nat_eq list_eq Dict.lookup Dict.insert Dict.keys Dict.delete
drop_duplicates_test = refl

rename_test :
    rename "age" "years" people
    ≡ return (record people {
      columns = ("name", "ann" ∷ "bob" ∷ []) ∷ ("years", "31" ∷ "-" ∷ []) ∷ [];
      names = "name" ∷ "years" ∷ [];
    })
unfolding rename string_eq Dict.lookup Dict.insert Dict.keys Dict.delete
rename_test = refl

-- A protected column that is projected away stays among the columns.
project_test :
    project ("age" ∷ []) (protect people ("name" ∷ []))
    ≡ return (record people { names = "age" ∷ []; protected = "name" ∷ [] })
unfolding project protect string_eq Dict.lookup Dict.insert Dict.keys Dict.delete
project_test = refl

append-rows_of_example :
    (t' : TabularData) × (append (some "eve" ∷ []) people ≡ return t')
    × IsTable 3 t'
    × (t'.names ≡ people.names)
    × (rows_of t' ≡ return (people_rows ++ padded "-" (some "eve" ∷ []) people.names ∷ []))
append-rows_of_example =
    append-rows_of 2 people people_rows people-IsTable cons≢nil people_read (some "eve" ∷ [])

set_row_test :
    (t' : TabularData) × (set_row 1 (some "eve" ∷ []) people ≡ return t')
    × IsTable 2 t'
    × (t'.names ≡ people.names)
    × (rows_of t' ≡ return (put_at 1 (padded "-" (some "eve" ∷ []) people.names) people_rows))
set_row_test =
    set_row-rows_of 2 people people_rows people-IsTable cons≢nil people_read (some "eve" ∷ []) 1
      (omega arith)

get_row-rows_of_example : get_row 1 people ≡ item_at 1 people_rows
get_row-rows_of_example = get_row-rows_of 2 people people_rows 1 people-IsTable cons≢nil people_read

any_is_valid : contains {A = String} ("any" ∷ "all" ∷ []) "any" ≡ true
unfolding string_eq Dict.lookup Dict.insert Dict.keys Dict.delete
any_is_valid = refl

dropna-rows_of_example :
    (m : ℕ) × (t' : TabularData) × (dropna "rows" "any" none people ≡ return t')
    × IsTable m t'
    × (t'.names ≡ people.names)
    × (rows_of t' ≡ return (select (stays "any" none "-" people.names) people_rows))
dropna-rows_of_example =
    dropna-rows_of 2 people people_rows "any" none people-IsTable cons≢nil people_read any_is_valid
