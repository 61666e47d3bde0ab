-- ===== src/Experiments/Refs.antt =====
-- The names of the references under which experiments are stored: ExpRefInfo of
-- dvc/repo/experiments/refs.py. Texts are read character by character.
pub mod Laws
use Prim.Native.Char.{Char, code}
use Prim.Native.String.{[] as no_text, ◌∷◌ as text}
use dvc.Base.{
  ℕ, String, Bool, true, false, not, ◌&&◌, ◌==◌, nat_eq, string_eq, List, ◌∷◌, [], Result, return,
  raise, if◌then◌else◌,
}

unfoldable pub is_slash : Char → Bool
is_slash c = code c == 47

unfoldable pub append : String → String → String
append no_text t = t
append (text c s) t = text c (append s t)

-- `s[:2]` and `s[2:]`
unfoldable pub first_two : String → String
first_two no_text = ""
first_two (text c no_text) = text c ""
first_two (text c (text d s)) = text c (text d "")

unfoldable pub after_two : String → String
after_two no_text = ""
after_two (text c no_text) = ""
after_two (text c (text d s)) = s

-- `"/".join`
unfoldable pub join_slash : List String → String
unfolding append
join_slash [] = ""
join_slash (s ∷ []) = s
join_slash (s ∷ (t ∷ ss)) = append s (append "/" (join_slash (t ∷ ss)))

-- `split("/")`
unfoldable pub add_char : Char → List String → List String
add_char c [] = text c "" ∷ []
add_char c (s ∷ ss) = text c s ∷ ss

unfoldable pub split_slash : String → List String
unfolding is_slash add_char
split_slash no_text = "" ∷ []
split_slash (text c s) =
    let rest = split_slash s in if is_slash c then "" ∷ rest else add_char c rest

pub record ExpRefInfo : Type 0 where
  pub baseline_sha : String
  pub name : String

-- InvalidExpRefError, with the reference.
pub data RefError : Type 0 where
  invalid_exp_ref : String → RefError

unfoldable pub parts : ExpRefInfo → List String
unfolding first_two after_two
parts info =
    "refs/exps"
    ∷ (first_two info.baseline_sha
        ∷ (after_two info.baseline_sha ∷ (if info.name == "" then [] else info.name ∷ [])))

-- `__str__`
unfoldable pub ref_of : ExpRefInfo → String
unfolding parts join_slash
ref_of info = join_slash (parts info)

unfoldable pub from_parts : String → List String → Result RefError ExpRefInfo
unfolding join_slash append
from_parts ref (a ∷ (b ∷ (c ∷ (d ∷ [])))) =
    if join_slash (a ∷ (b ∷ [])) == "refs/exps"
    then return (record { baseline_sha = append c d; name = "" })
    else raise (invalid_exp_ref ref)
from_parts ref (a ∷ (b ∷ (c ∷ (d ∷ (e ∷ []))))) =
    if join_slash (a ∷ (b ∷ [])) == "refs/exps"
    then return (record { baseline_sha = append c d; name = e })
    else raise (invalid_exp_ref ref)
from_parts ref _ = raise (invalid_exp_ref ref)

unfoldable pub from_ref : String → Result RefError ExpRefInfo
unfolding split_slash from_parts
from_ref ref = from_parts ref (split_slash ref)
