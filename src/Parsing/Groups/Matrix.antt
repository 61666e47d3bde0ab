-- ===== src/Parsing/Groups/Matrix.antt =====
-- How many stages a matrix has (`normalized_iterable` of MatrixDefinition in dvc/parsing/__init__.py).
use Prim.Native.Nat.{◌*◌}
use dvc.Base.{
  ◌≡◌, refl, ap, ◌∙◌, ℕ, suc, ◌+◌, ◌≤◌, String, List, [], ◌∷◌, ◌++◌, map, length, string_eq,
  contains, Bool-cases, inl, inr, arith, if◌then◌else◌,
}
use dvc.Base.Dict
use dvc.Base.Dict.{Dict}
use dvc.Parsing.Context.{Node, Fields, no_fields}
use dvc.Parsing.Groups.{
  enumerate, with_heads, product, values_of, combined, fragments, joined, insert_combinations,
  normalized_matrix,
}

-- The number of combinations of a matrix.
unfoldable pub combinations : Dict (List Node) → ℕ
combinations [] = 1
combinations ((k, vs) ∷ matrix) = length vs * combinations matrix

module _ {A : Type 0} where
  length-append : (xs ys : List A) → length (xs ++ ys) ≡ length xs + length ys
  length-append [] ys = omega arith
  length-append (x ∷ xs) ys = omega (arith, length-append xs ys)

  length-map : {B : Type 0} (f : A → B) (xs : List A) → length (map f xs) ≡ length xs
  length-map f [] = refl
  length-map f (x ∷ xs) = ap suc (length-map f xs)

module _ {A : Type 0} where
  length-with_heads :
      (xs : List A) (rest : List (List A)) → length (with_heads xs rest) ≡ length xs * length rest
  unfolding with_heads
  length-with_heads [] rest = omega arith
  length-with_heads (x ∷ xs) rest =
      length-append (map (λ c. x ∷ c) rest) (with_heads xs rest)
      ∙ rw (length-map (λ c. x ∷ c) rest, length-with_heads xs rest) (omega arith)

  length-enumerate : (i : ℕ) (xs : List A) → length (enumerate i xs) ≡ length xs
  unfolding enumerate
  length-enumerate i [] = refl
  length-enumerate i (x ∷ xs) = ap suc (length-enumerate (suc i) xs)

length-product :
    (matrix : Dict (List Node)) → length (product (values_of matrix)) ≡ combinations matrix
unfolding product values_of combinations
length-product [] = refl
length-product ((k, vs) ∷ matrix) =
    length-with_heads (enumerate 0 vs) (product (values_of matrix))
    ∙ rw (length-enumerate 0 vs, length-product matrix) refl

length-insert :
    {V : Type 0} (k : String) (v : V) (d : Dict V)
    → length (Dict.keys (Dict.insert k v d))
      ≡ (if contains (Dict.keys d) k then length (Dict.keys d) else suc (length (Dict.keys d)))
unfolding Dict.insert Dict.keys
length-insert k v [] = refl
length-insert k v ((j, w) ∷ d) = ground (arith, length-insert k v d)

module _ (to_str : Node → String) (to_text : ℕ → String) where
  -- The name of a combination.
  abbrev pub named : List String → List (ℕ × Node) → String
  named ks c = joined (fragments to_str to_text ks c)

  length-insert_combinations :
      (ks : List String) (cs : List (List (ℕ × Node))) (done : Dict Fields)
      → length (Dict.keys (insert_combinations to_str to_text ks cs done))
        ≤ length cs + length (Dict.keys done)
  unfolding insert_combinations
  length-insert_combinations ks [] done = omega arith
  length-insert_combinations ks (c ∷ cs) done =
      let next = Dict.insert (named ks c) (combined ks c no_fields) done in
      let step = length-insert (named ks c) (combined ks c no_fields) done in
      let ih = length-insert_combinations ks cs next in
      elim (Bool-cases (contains (Dict.keys done) (named ks c))) [
        | inl e ↦
            (let l : length (Dict.keys next) ≡ length (Dict.keys done) = step ∙ rw e refl in
              omega (arith, ih, l))
        | inr e ↦
            (let l : length (Dict.keys next) ≡ suc (length (Dict.keys done)) = step ∙ rw e refl in
              omega (arith, ih, l))
      ]

-- A matrix has at most one stage for each combination of its values.
pub length-normalized_matrix :
    (to_str : Node → String) (to_text : ℕ → String) (matrix : Dict (List Node))
    → length (Dict.keys (normalized_matrix to_str to_text matrix)) ≤ combinations matrix
unfolding normalized_matrix Dict.keys
length-normalized_matrix to_str to_text matrix =
    let bound =
      length-insert_combinations to_str to_text (Dict.keys matrix) (product (values_of matrix))
        [] in
    omega (arith, bound, length-product matrix)
