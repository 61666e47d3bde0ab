-- ===== src/Parsing/Groups.antt =====
-- ForeachDefinition and MatrixDefinition of dvc/parsing/__init__.py, from the resolved iterable on. What
-- an entry resolves to is read off the context (`resolve_stage` of EntryDefinition, which clones the
-- context where it has variables of its own): it is a function, as are Python's texts of values and
-- numbers, and the `join` of dicts of funcy.
mod Examples
pub mod Resolved
pub mod Matrix
use Prim.Native.String as Native
use dvc.Base.{
  ◌≡◌, ℕ, suc, String, Bool, true, false, Option, none, some, List, [], ◌∷◌, ◌++◌, map, any,
  string_eq, Result, return, raise, fmap, Exec, pure, lift, ◌>>=◌, if◌then◌else◌,
}
use dvc.Base.Dict
use dvc.Base.Dict.{Dict}
use dvc.Parsing.Context.{
  Meta, key, Primitive, str, Node, value, ctx_list, ctx_dict, Items, no_items, item, Fields,
  no_fields, entry, Context, put,
}
use dvc.Parsing.Context.Temporary.{Exit, finished, key_error, set_temporarily}

pub data GroupError (E : Type 0) : Type 0 where
  resolve_error : GroupError E
  entry_not_found : String → GroupError E
  stage_error : String → E → GroupError E
  reservation_error : GroupError E

-- `is_map_or_seq`
unfoldable pub is_map_or_seq : Node → Bool
is_map_or_seq (value p meta) = false
is_map_or_seq (ctx_list ns meta) = true
is_map_or_seq (ctx_dict fs meta) = true

unfoldable pub has_composite : Items → Bool
unfolding is_map_or_seq
has_composite no_items = false
has_composite (item n ns) = if is_map_or_seq n then true else has_composite ns

unfoldable pub entries : Fields → Dict Node
entries no_fields = []
entries (entry k n fs) = (k, n) ∷ entries fs

-- The metadata of a field of `CtxDict(temp_dict)`.
unfoldable pub temp_meta : String → Meta
temp_meta k = record { source = none; dpaths = key k ∷ []; local = true }

-- `temp_dict` of a foreach stage, with the key where the iterable is a mapping.
unfoldable pub foreach_temp : Node → String → Node → Fields
unfolding temp_meta
foreach_temp (ctx_dict fs meta) k n =
    entry "item" n (entry "key" (value (str k) (temp_meta "key")) no_fields)
foreach_temp _ k n = entry "item" n no_fields

-- That of a matrix stage.
unfoldable pub matrix_temp : String → Fields → Fields
unfolding temp_meta
matrix_temp k d =
    entry "key" (value (str k) (temp_meta "key"))
      (entry "item" (ctx_dict d (temp_meta "item")) no_fields)

-- `_generate_name`
unfoldable pub generate_name : String → String → String
generate_name name k = Native.◌++◌ name (Native.◌++◌ "@" k)

-- What the `with` of `_each_iter` ends in.
unfoldable pub stage_outcome :
    {E V : Type 0} → String → Exit (Result E V) → Result (GroupError E) (String × V)
stage_outcome generated (finished (return v)) = return (generated, v)
stage_outcome generated (finished (raise e)) = raise (stage_error generated e)
stage_outcome generated key_error = raise reservation_error

module _ {X V E : Type 0} (temp_dict : String → X → Fields) (name : String)
    (resolve_stage : Context → String → Result E V) where
  unfoldable pub resolve_entry : String → Option X → Exec (GroupError E) Context (String × V)
  unfolding stage_outcome set_temporarily generate_name
  resolve_entry k none ctx = (raise (entry_not_found k), ctx)
  resolve_entry k (some x) ctx =
      let generated = generate_name name k in
      let (ended, ctx') =
        set_temporarily (temp_dict k x) true (λ c. (resolve_stage c generated, c)) ctx in
      (stage_outcome generated ended, ctx')

  -- `resolve_one`, which is `_each_iter`.
  unfoldable pub resolve_one : Dict X → String → Exec (GroupError E) Context (String × V)
  unfolding resolve_entry Dict.lookup
  resolve_one normalized k = resolve_entry k (Dict.lookup k normalized)

  unfoldable pub resolve_each :
      Dict X → List String → Exec (GroupError E) Context (List (String × V))
  unfolding resolve_one
  resolve_each normalized [] = pure []
  resolve_each normalized (k ∷ ks) =
      resolve_one normalized k >>= λ r. resolve_each normalized ks >>= λ rs. pure (r ∷ rs)

  unfoldable pub resolve_all :
      {J : Type 0} → (List (String × V) → J) → Dict X → Exec (GroupError E) Context J
  unfolding resolve_each Dict.keys
  resolve_all join normalized =
      resolve_each normalized (Dict.keys normalized) >>= λ rs. pure (join rs)

-- `enumerate`
unfoldable pub enumerate : {A : Type 0} → ℕ → List A → List (ℕ × A)
enumerate i [] = []
enumerate i (x ∷ xs) = (i, x) ∷ enumerate (suc i) xs

-- `itertools.product`, the last axis fastest.
unfoldable pub with_heads : {A : Type 0} → List A → List (List A) → List (List A)
with_heads [] rest = []
with_heads (x ∷ xs) rest = map (λ c. x ∷ c) rest ++ with_heads xs rest

unfoldable pub product : {A : Type 0} → List (List A) → List (List A)
unfolding with_heads
product [] = [] ∷ []
product (xs ∷ xss) = with_heads xs (product xss)

unfoldable pub values_of : Dict (List Node) → List (List (ℕ × Node))
unfolding enumerate
values_of [] = []
values_of ((k, vs) ∷ matrix) = enumerate 0 vs ∷ values_of matrix

unfoldable pub combined : List String → List (ℕ × Node) → Fields → Fields
unfolding put
combined (k ∷ ks) ((i, v) ∷ combination) d = combined ks combination (put k v d)
combined _ _ d = d

-- `"-".join(fragments)`
unfoldable pub joined : List String → String
joined [] = ""
joined (s ∷ []) = s
joined (s ∷ ss) = Native.◌++◌ s (Native.◌++◌ "-" (joined ss))

module _ (to_str : Node → String) (to_text : ℕ → String) where
  -- `{to_str(idx): value for idx, value in enumerate(iterable)}`
  unfoldable pub by_number : ℕ → Items → Dict Node → Dict Node
  unfolding Dict.insert
  by_number i no_items done = done
  by_number i (item n ns) done = by_number (suc i) ns (Dict.insert (to_text i) n done)

  -- `{to_str(value): value for value in iterable}`
  unfoldable pub by_content : Items → Dict Node → Dict Node
  unfolding Dict.insert
  by_content no_items done = done
  by_content (item n ns) done = by_content ns (Dict.insert (to_str n) n done)

  -- `_check_is_map_or_seq` and `normalized_iterable` of a foreach definition.
  unfoldable pub normalized_foreach : {E : Type 0} → Node → Result (GroupError E) (Dict Node)
  unfolding entries has_composite by_number by_content
  normalized_foreach (value p meta) = raise resolve_error
  normalized_foreach (ctx_dict fs meta) = return (entries fs)
  normalized_foreach (ctx_list ns meta) =
      return (if has_composite ns then by_number 0 ns [] else by_content ns [])

  unfoldable pub fragment : String → ℕ × Node → String
  unfolding is_map_or_seq
  fragment k (i, v) = if is_map_or_seq v then Native.◌++◌ k (to_text i) else to_str v

  unfoldable pub fragments : List String → List (ℕ × Node) → List String
  unfolding fragment
  fragments (k ∷ ks) (c ∷ combination) = fragment k c ∷ fragments ks combination
  fragments _ _ = []

  unfoldable pub insert_combinations :
      List String → List (List (ℕ × Node)) → Dict Fields → Dict Fields
  unfolding combined fragments joined Dict.insert
  insert_combinations ks [] done = done
  insert_combinations ks (c ∷ cs) done =
      insert_combinations ks cs
        (Dict.insert (joined (fragments ks c)) (combined ks c no_fields) done)

  -- `normalized_iterable` of a matrix definition.
  unfoldable pub normalized_matrix : Dict (List Node) → Dict Fields
  unfolding insert_combinations product values_of Dict.keys
  normalized_matrix matrix = insert_combinations (Dict.keys matrix) (product (values_of matrix)) []
