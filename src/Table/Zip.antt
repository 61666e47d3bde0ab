-- ===== src/Table/Zip.antt =====
-- The zip of columns of one length, in dvc/compare.py, and changes of one entry of each.

use dvc.Base.{
  ◌≡◌, refl, sym, ap, ◌∙◌, ℕ, zero, suc, ◌<◌, String, List, [], ◌∷◌, ◌++◌, string_eq, All, length,
  return, then_result, fmap, arith, map,
}
use dvc.Table.{insert_at, set_at, delete_at, zip_with, zip_columns, item_at, items_at}

-- The writes of `set_row` and `delete_row` where the number is in range.
unfoldable pub put_at : {A : Type 0} → ℕ → A → List A → List A
put_at i v [] = []
put_at zero v (x ∷ xs) = v ∷ xs
put_at (suc i) v (x ∷ xs) = x ∷ put_at i v xs

unfoldable pub cut_at : {A : Type 0} → ℕ → List A → List A
cut_at i [] = []
cut_at zero (x ∷ xs) = xs
cut_at (suc i) (x ∷ xs) = x ∷ cut_at i xs

abbrev pub with_cell : String → List String → List String
with_cell x row = x ∷ row

abbrev pub cell_row : String → List String
cell_row x = x ∷ []

pub zip_with-append :
    (v : String) (r c : List String) (rs : List (List String))
    → length c ≡ length rs
    → zip_with with_cell (c ++ v ∷ []) (rs ++ r ∷ []) ≡ zip_with with_cell c rs ++ (v ∷ r) ∷ []
unfolding zip_with
zip_with-append v r [] [] e = refl
zip_with-append v r [] (y ∷ rs) e = absurd (omega arith)
zip_with-append v r (x ∷ c) [] e = absurd (omega arith)
zip_with-append v r (x ∷ c) (y ∷ rs) e =
    ap (λ l. (x ∷ y) ∷ l) (zip_with-append v r c rs (omega arith))

pub zip_with-insert_at :
    (i : ℕ) (v : String) (r c : List String) (rs : List (List String))
    → length c ≡ length rs
    → zip_with with_cell (insert_at i v c) (insert_at i r rs)
      ≡ insert_at i (v ∷ r) (zip_with with_cell c rs)
unfolding zip_with insert_at
zip_with-insert_at i v r [] [] e = refl
zip_with-insert_at i v r [] (y ∷ rs) e = absurd (omega arith)
zip_with-insert_at i v r (x ∷ c) [] e = absurd (omega arith)
zip_with-insert_at zero v r (x ∷ c) (y ∷ rs) e = refl
zip_with-insert_at (suc i) v r (x ∷ c) (y ∷ rs) e =
    ap (λ l. (x ∷ y) ∷ l) (zip_with-insert_at i v r c rs (omega arith))

pub zip_with-put_at :
    (i : ℕ) (v : String) (r c : List String) (rs : List (List String))
    → length c ≡ length rs
    → zip_with with_cell (put_at i v c) (put_at i r rs) ≡ put_at i (v ∷ r) (zip_with with_cell c rs)
unfolding zip_with put_at
zip_with-put_at i v r [] [] e = refl
zip_with-put_at i v r [] (y ∷ rs) e = absurd (omega arith)
zip_with-put_at i v r (x ∷ c) [] e = absurd (omega arith)
zip_with-put_at zero v r (x ∷ c) (y ∷ rs) e = refl
zip_with-put_at (suc i) v r (x ∷ c) (y ∷ rs) e =
    ap (λ l. (x ∷ y) ∷ l) (zip_with-put_at i v r c rs (omega arith))

pub zip_with-cut_at :
    (i : ℕ) (c : List String) (rs : List (List String))
    → length c ≡ length rs
    → zip_with with_cell (cut_at i c) (cut_at i rs) ≡ cut_at i (zip_with with_cell c rs)
unfolding zip_with cut_at
zip_with-cut_at i [] [] e = refl
zip_with-cut_at i [] (y ∷ rs) e = absurd (omega arith)
zip_with-cut_at i (x ∷ c) [] e = absurd (omega arith)
zip_with-cut_at zero (x ∷ c) (y ∷ rs) e = refl
zip_with-cut_at (suc i) (x ∷ c) (y ∷ rs) e =
    ap (λ l. (x ∷ y) ∷ l) (zip_with-cut_at i c rs (omega arith))

pub map-insert_at :
    (i : ℕ) (v : String) (c : List String)
    → map cell_row (insert_at i v c) ≡ insert_at i (v ∷ []) (map cell_row c)
unfolding insert_at
map-insert_at i v [] = refl
map-insert_at zero v (x ∷ c) = refl
map-insert_at (suc i) v (x ∷ c) = ap (λ l. (x ∷ []) ∷ l) (map-insert_at i v c)

pub map-put_at :
    (i : ℕ) (v : String) (c : List String)
    → map cell_row (put_at i v c) ≡ put_at i (v ∷ []) (map cell_row c)
unfolding put_at
map-put_at i v [] = refl
map-put_at zero v (x ∷ c) = refl
map-put_at (suc i) v (x ∷ c) = ap (λ l. (x ∷ []) ∷ l) (map-put_at i v c)

pub map-cut_at : (i : ℕ) (c : List String) → map cell_row (cut_at i c) ≡ cut_at i (map cell_row c)
unfolding cut_at
map-cut_at i [] = refl
map-cut_at zero (x ∷ c) = refl
map-cut_at (suc i) (x ∷ c) = ap (λ l. (x ∷ []) ∷ l) (map-cut_at i c)

pub length-insert_at :
    (i : ℕ) (v : String) (c : List String) → length (insert_at i v c) ≡ suc (length c)
unfolding insert_at
length-insert_at i v [] = refl
length-insert_at zero v (x ∷ c) = refl
length-insert_at (suc i) v (x ∷ c) = ap suc (length-insert_at i v c)

pub set_at_lem :
    (i : ℕ) (v : String) (c : List String)
    → i < length c
    → (set_at i v c ≡ return (put_at i v c)) × (length (put_at i v c) ≡ length c)
unfolding set_at put_at
set_at_lem i v [] h = absurd (omega arith)
set_at_lem zero v (x ∷ c) h = (refl, refl)
set_at_lem (suc i) v (x ∷ c) h =
    let (e, l) = set_at_lem i v c (omega arith) in (rw e refl, ap suc l)

pub delete_at_lem :
    (i : ℕ) (c : List String)
    → i < length c
    → (delete_at i c ≡ return (cut_at i c)) × (suc (length (cut_at i c)) ≡ length c)
unfolding delete_at cut_at
delete_at_lem i [] h = absurd (omega arith)
delete_at_lem zero (x ∷ c) h = (refl, refl)
delete_at_lem (suc i) (x ∷ c) h =
    let (e, l) = delete_at_lem i c (omega arith) in (rw e refl, ap suc l)

pub length-snoc : (v : String) (c : List String) → length (c ++ v ∷ []) ≡ suc (length c)
length-snoc v [] = refl
length-snoc v (x ∷ c) = ap suc (length-snoc v c)

pub length-zip_columns :
    (n : ℕ) (c : List String) (cs : List (List String))
    → All (λ c. length c ≡ n) (c ∷ cs)
    → length (zip_columns (c ∷ cs)) ≡ n
unfolding zip_columns
length-zip_columns n c [] l = length-single c ∙ l.0
  where
    length-single : (c : List String) → length (map (λ x. x ∷ []) c) ≡ length c
    length-single [] = refl
    length-single (x ∷ c) = ap suc (length-single c)
length-zip_columns n c (c' ∷ cs) l =
    same c (zip_columns (c' ∷ cs)) (l.0 ∙ sym (length-zip_columns n c' cs l.1)) ∙ l.0
  where
    same :
        (c : List String) (rs : List (List String))
        → length c ≡ length rs
        → length (zip_with (λ x row. x ∷ row) c rs) ≡ length c
    same [] rs e = refl
    same (x ∷ c) [] e = absurd (omega arith)
    same (x ∷ c) (r ∷ rs) e = ap suc (same c rs (omega arith))

pub item_at-zip_with :
    (i : ℕ) (c : List String) (rs : List (List String))
    → length c ≡ length rs
    → item_at i (zip_with with_cell c rs)
      ≡ then_result (item_at i c) (λ x. fmap (λ xs. x ∷ xs) (item_at i rs))
unfolding item_at zip_with
item_at-zip_with i [] [] e = refl
item_at-zip_with i [] (y ∷ rs) e = absurd (omega arith)
item_at-zip_with i (x ∷ c) [] e = absurd (omega arith)
item_at-zip_with zero (x ∷ c) (y ∷ rs) e = refl
item_at-zip_with (suc i) (x ∷ c) (y ∷ rs) e = item_at-zip_with i c rs (omega arith)

pub items_at-zip_columns :
    (n i : ℕ) (c : List String) (cs : List (List String))
    → All (λ c. length c ≡ n) (c ∷ cs)
    → items_at i (c ∷ cs) ≡ item_at i (zip_columns (c ∷ cs))
unfolding items_at zip_columns
items_at-zip_columns n i c [] l = single i c
  where
    single :
        (i : ℕ) (c : List String)
        → then_result (item_at i c) (λ x. return (x ∷ [])) ≡ item_at i (map cell_row c)
    single i [] = refl
    single zero (x ∷ c) = refl
    single (suc i) (x ∷ c) = single i c
items_at-zip_columns n i c (c' ∷ cs) l = rw (items_at-zip_columns n i c' cs l.1) (
    sym (item_at-zip_with i c (zip_columns (c' ∷ cs)) (l.0 ∙ sym (length-zip_columns n c' cs l.1))))
