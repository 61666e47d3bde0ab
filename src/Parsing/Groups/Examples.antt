-- ===== src/Parsing/Groups/Examples.antt =====
-- A group of two stages, and a matrix of four.
use dvc.Base.{
  true, ◌≡◌, refl, ℕ, ◌≤◌, String, Option, none, some, List, [], ◌∷◌, length, string_eq, Result,
  return, raise, fmap, traverse,
}
use dvc.Base.Dict
use dvc.Base.Dict.{Dict}
use dvc.Parsing.Context.{
  str, Meta, Node, value, ctx_list, no_items, item, no_fields, entry, get, put, pop, Context,
  matching,
}
use dvc.Parsing.Context.Temporary.{
  field_keys, update_fields, set_temporarily, entered, reserved, from_keys, restore, previous,
  entry_if, pop_all, release, pop_reserved,
}
use dvc.Parsing.Groups.{
  entry_not_found, foreach_temp, generate_name, stage_outcome, resolve_entry, resolve_one,
  resolve_each, resolve_all, normalized_foreach, has_composite, is_map_or_seq, by_content,
  enumerate, with_heads, product, values_of, combined, fragment, fragments, joined,
  insert_combinations, normalized_matrix,
}
use dvc.Parsing.Groups.Resolved.{resolve_all-foreach}
use dvc.Parsing.Groups.Matrix.{combinations, length-normalized_matrix}

abbrev here : Meta
here = record { source = none; dpaths = []; local = true }

abbrev text : String → Node
text s = value (str s) here

abbrev to_str : Node → String
to_str (value (str s) meta) = s
to_str n = "1"

abbrev to_text : ℕ → String
to_text i = "0"

-- `foreach: [us, uk]`
abbrev countries : Node
countries = ctx_list (item (text "us") (item (text "uk") no_items)) here

abbrev by_country : Dict Node
by_country = ("us", text "us") ∷ ("uk", text "uk") ∷ []

normalized_test : normalized_foreach to_str to_text {E = Unit} countries ≡ return by_country
unfolding normalized_foreach has_composite is_map_or_seq by_content Dict.insert string_eq
normalized_test = refl

-- An `item` of the variables, which the group sets for a while.
abbrev variables : Context
variables = record {
  fields = entry "item" (text "none") (entry "seed" (text "7") no_fields);
  imports = [];
  reserved_keys = [];
}

-- A stage that answers its name and the `item` that it sees.
abbrev seen : Context → String → Result Unit (String × Option Node)
seen ctx generated = return (generated, get "item" ctx.fields)

abbrev all_seen : List (String × (String × Option Node)) → List (String × (String × Option Node))
all_seen rs = rs

resolve_all-foreach_example :
    resolve_all (foreach_temp countries) "train" seen all_seen by_country variables ≡ (
      fmap all_seen (
          traverse
            (λ k. (resolve_one (foreach_temp countries) "train" seen by_country k variables).0)
            (Dict.keys by_country)),
      variables,
    )
unfolding field_keys string_eq
resolve_all-foreach_example =
    resolve_all-foreach countries "train" seen all_seen by_country variables (refl, (refl, tt))

resolve_all_test :
    resolve_all (foreach_temp countries) "train" seen all_seen by_country variables ≡ (
      return (
          ("train@us", ("train@us", some (text "us")))
          ∷ ("train@uk", ("train@uk", some (text "uk")))
          ∷ []),
      variables,
    )
unfolding resolve_all resolve_each resolve_one resolve_entry stage_outcome generate_name
    foreach_temp Dict.keys Dict.lookup set_temporarily entered reserved restore field_keys
    update_fields previous entry_if pop_all release pop_reserved matching from_keys get put pop
    string_eq
resolve_all_test = refl

missing_test :
    resolve_one (foreach_temp countries) "train" seen by_country "fr" variables
    ≡ (raise (entry_not_found "fr"), variables)
unfolding resolve_one resolve_entry Dict.lookup string_eq
missing_test = refl

-- `matrix: {os: [linux, mac], py: [a, b]}`
abbrev builds : Dict (List Node)
builds = ("os", text "linux" ∷ text "mac" ∷ []) ∷ ("py", text "a" ∷ text "b" ∷ []) ∷ []

normalized_matrix_test :
    Dict.keys (normalized_matrix to_str to_text builds)
    ≡ "linux-a" ∷ "linux-b" ∷ "mac-a" ∷ "mac-b" ∷ []
unfolding normalized_matrix insert_combinations product with_heads values_of enumerate combined
    fragments fragment is_map_or_seq joined put Dict.insert Dict.keys string_eq
normalized_matrix_test = refl

matrix_length_test :
    length (Dict.keys (normalized_matrix to_str to_text builds)) ≤ combinations builds
matrix_length_test = length-normalized_matrix to_str to_text builds

-- Four combinations with three names: `x-y` with `z`, and `x` with `y-z`.
abbrev clash : Dict (List Node)
clash = ("a", text "x-y" ∷ text "x" ∷ []) ∷ ("b", text "z" ∷ text "y-z" ∷ []) ∷ []

clash_test : Dict.keys (normalized_matrix to_str to_text clash) ≡ "x-y-z" ∷ "x-y-y-z" ∷ "x-z" ∷ []
unfolding normalized_matrix insert_combinations product with_heads values_of enumerate combined
    fragments fragment is_map_or_seq joined put Dict.insert Dict.keys string_eq
clash_test = refl
