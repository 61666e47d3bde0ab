-- ===== src/Table/Invariant.antt =====
-- The columns of TabularData in dvc/compare.py: each name has one column, and all have one length.
use dvc.Base.{
  ◌≡◌, refl, ◌∙◌, ℕ, String, false, Option, none, some, List, [], ◌∷◌, ◌==◌, string_eq, contains,
  Distinct, All, length, or_raise, Result, return, raise, fmap, arith, subst, if◌then◌else◌,
}
use dvc.Base.Dict
use dvc.Base.Dict.{Dict, lookup-insert}
use dvc.Table.{
  TabularData, TableError, with_value, head_cell, tail_cells, columns_of, all_columns, iter_col_row,
  with_columns,
}

pub record IsTable (n : ℕ) (t : TabularData) : Type 0 where
  pub distinct : Distinct t.names
  pub columns : List (List String)
  pub read : all_columns t ≡ return columns
  pub even : All (λ c. length c ≡ n) columns

pub columns_of-insert :
    (names : List String) (k : String) (v : List String) (d : Dict (List String))
    → contains names k ≡ false
    → columns_of names (Dict.insert k v d) ≡ columns_of names d
unfolding columns_of
columns_of-insert [] k v d h = refl
columns_of-insert (name ∷ names) k v d h =
    let ih = columns_of-insert names k v d (ground arith) in
    let e : Dict.lookup name (Dict.insert k v d) ≡ Dict.lookup name d =
      ground (arith, lookup-insert k name v d) in
    rw (e, ih)

-- The columns of more than one name, taken apart.
pub columns_of-eq-return :
    (name : String) (names : List String) (d : Dict (List String)) (cs : List (List String))
    → columns_of (name ∷ names) d ≡ return cs
    → (c : List String) × (rest : List (List String)) × (Dict.lookup name d ≡ some c)
      × (columns_of names d ≡ return rest)
      × (cs ≡ c ∷ rest)
unfolding columns_of
columns_of-eq-return name names d cs h = go (Dict.lookup name d) (columns_of names d) h
  where
    go :
        (o : Option (List String)) (r : Result TableError (List (List String)))
        → or_raise TableError.key_error o (λ c. fmap (λ cs. c ∷ cs) r) ≡ return cs
        → (c : List String) × (rest : List (List String)) × (o ≡ some c)
          × (r ≡ return rest)
          × (cs ≡ c ∷ rest)
    go none r e = cc
    go (some c) (return rest) e = (c, rest, refl, refl, ground arith)
    go (some c) (raise x) e = cc

-- The columns after one cell of each is written.
unfoldable pub write_each :
    (String → List String → List String)
    → String
    → List (Option String)
    → List (List String)
    → List (List String)
write_each w fill row [] = []
write_each w fill row (c ∷ cs) =
    w (with_value (head_cell row) fill) c ∷ write_each w fill (tail_cells row) cs

-- Where each write returns, so does the loop over the columns.
pub iter_col_row-columns :
    (n : ℕ) (write : String → List String → Result TableError (List String))
    (w : String → List String → List String) (fill : String)
    → ((v : String) (c : List String) → length c ≡ n → write v c ≡ return (w v c))
    → (names : List String) (row : List (Option String)) (d : Dict (List String))
      (cs : List (List String))
    → Distinct names
    → columns_of names d ≡ return cs
    → All (λ c. length c ≡ n) cs
    → (d' : Dict (List String)) × (iter_col_row write fill names row d ≡ return d')
      × (columns_of names d' ≡ return (write_each w fill row cs))
      × ((k : String) → contains names k ≡ false → Dict.lookup k d' ≡ Dict.lookup k d)
unfolding iter_col_row write_each columns_of
iter_col_row-columns n write w fill pure [] row d cs u r l =
    let e : [] ≡ cs = ground arith in
    (d, refl, subst (λ cs. columns_of [] d ≡ return (write_each w fill row cs)) e refl, λ k h. refl)
iter_col_row-columns n write w fill pure (name ∷ names) row d cs u r l =
    let (c, rest, found, others, split) = columns_of-eq-return name names d cs r in
    let v : String = with_value (head_cell row) fill in
    let l' : All (λ c. length c ≡ n) (c ∷ rest) = subst (All (λ c. length c ≡ n)) split l in
    let d1 : Dict (List String) = Dict.insert name (w v c) d in
    let at : (j : String)
        → Dict.lookup j d1 ≡ (if j == name then some (w v c) else Dict.lookup j d) =
      λ j. lookup-insert name j (w v c) d in
    let (d', e, r', same) =
      iter_col_row-columns n write w fill pure names (tail_cells row) d1 rest u.1
        (columns_of-insert names name (w v c) d u.0 ∙ others) l'.1 in
    let here : Dict.lookup name d' ≡ some (w v c) = same name u.0 ∙ ground (arith, at name) in
    (
      d',
      rw (found, pure v c l'.0) e,
      rw split (rw (here, r') refl),
      λ k h. same k (ground arith) ∙ ground (arith, at k),
    )

module _ {n : ℕ} (t : TabularData) (h : IsTable n t) where
  -- The loop over the columns of a table, with writes that bring every column to one length.
  pub written :
      (m : ℕ) (write : String → List String → Result TableError (List String))
      (w : String → List String → List String) (row : List (Option String))
      → ((v : String) (c : List String) → length c ≡ n → write v c ≡ return (w v c))
      → ((v : String) (c : List String) → length c ≡ n → length (w v c) ≡ m)
      → (t' : TabularData) × (fmap
            (with_columns t)
            (iter_col_row write t.fill_value t.names row t.columns)
          ≡ return t')
        × (all_columns t' ≡ return (write_each w t.fill_value row h.columns))
        × (t'.names ≡ t.names)
        × (t'.fill_value ≡ t.fill_value)
        × IsTable m t'
  unfolding with_columns all_columns write_each
  written m write w row pure lengths =
      let (d', e, r, same) =
        iter_col_row-columns n write w t.fill_value pure t.names row t.columns h.columns h.distinct
          h.read h.even in
      (
        record t { columns = d' },
        rw e refl,
        r,
        refl,
        refl,
        record {
          distinct = h.distinct;
          columns = write_each w t.fill_value row h.columns;
          read = r;
          even = even_after row h.columns h.even;
        },
      )
    where
      even_after :
          (row : List (Option String)) (cs : List (List String))
          → All (λ c. length c ≡ n) cs
          → All (λ c. length c ≡ m) (write_each w t.fill_value row cs)
      even_after row [] l = tt
      even_after row (c ∷ cs) l = (lengths _ c l.0, even_after (tail_cells row) cs l.1)
