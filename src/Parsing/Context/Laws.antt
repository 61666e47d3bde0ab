-- ===== src/Parsing/Context/Laws.antt =====
-- Lookups in the containers of dvc/parsing/context.py after a change.
use dvc.Base.{◌≡◌, refl, String, false, some, ◌==◌, string_eq, arith, if◌then◌else◌}
use dvc.Parsing.Context.{Node, Fields, no_fields, entry, get, put, pop}

pub get-put :
    (k j : String) (n : Node) (fs : Fields)
    → get j (put k n fs) ≡ (if j == k then some n else get j fs)
unfolding get put
get-put k j n no_fields = refl
get-put k j n (entry i m fs) = ground (arith, get-put k j n fs)

pub get-pop : (k j : String) (fs : Fields) → (j == k) ≡ false → get j (pop k fs) ≡ get j fs
unfolding get pop
get-pop k j no_fields h = refl
get-pop k j (entry i m fs) h = ground (arith, get-pop k j fs)
