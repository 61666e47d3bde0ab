-- ===== src/Parsing/Context/Distinct.antt =====
-- What dvc/parsing/context.py converts has each key once, at any depth.
use dvc.Base.{refl, String, ◌==◌, string_eq, Bool-cases, inl, inr, arith}
use dvc.Parsing.Context.{
  Meta, update_path, key, Raw, primitive, list, dict, RawFields, end, field, Node, Fields,
  no_fields, entry, get, put, convert, convert_fields,
}
use dvc.Parsing.Context.Laws.{get-put}
use dvc.Parsing.Context.Merge.{IsDistinct, AreDistinct}

AreDistinct-put :
    (k : String) (n : Node) (fs : Fields) → IsDistinct n → AreDistinct fs → AreDistinct (put k n fs)
unfolding put IsDistinct get
AreDistinct-put k n no_fields d h = (refl, d, tt)
AreDistinct-put k n (entry j m fs) d h = elim (Bool-cases (k == j)) [
  | inl e ↦ rw e (h.0, d, h.2)
  | inr e ↦ rw e (ground (arith, get-put k j n fs, h.0), h.1, AreDistinct-put k n fs d h.2)
]

mutual
  unfolding convert IsDistinct

  IsDistinct-convert : (x : Raw) (meta : Meta) → IsDistinct (convert x meta)
  IsDistinct-convert (primitive p) meta = tt
  IsDistinct-convert (list xs) meta = tt
  IsDistinct-convert (dict fs) meta = AreDistinct-convert_fields fs meta no_fields tt

  pub AreDistinct-convert_fields :
      (fs : RawFields) (meta : Meta) (done : Fields)
      → AreDistinct done
      → AreDistinct (convert_fields fs meta done)
  AreDistinct-convert_fields end meta done h = h
  AreDistinct-convert_fields (field k x fs) meta done h =
      AreDistinct-convert_fields fs meta _
        (AreDistinct-put k _ done (IsDistinct-convert x (update_path meta (key k))) h)
