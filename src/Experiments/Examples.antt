-- ===== src/Experiments/Examples.antt =====
-- References of experiments.
use dvc.Base.{◌≡◌, refl, string_eq, nat_eq, return, raise}
use dvc.Experiments.Refs.{
  is_slash, append, first_two, after_two, join_slash, add_char, split_slash, ExpRefInfo,
  invalid_exp_ref, parts, ref_of, from_parts, from_ref,
}
use dvc.Experiments.Refs.Laws.{from_ref-ref_of}

abbrev tuned : ExpRefInfo
tuned = record { baseline_sha = "01234abcd"; name = "tuned-lr" }

ref_test : ref_of tuned ≡ "refs/exps/01/234abcd/tuned-lr"
unfolding ref_of parts join_slash append first_two after_two string_eq
ref_test = refl

from_ref-ref_of_example : from_ref (ref_of tuned) ≡ return tuned
unfolding is_slash nat_eq
from_ref-ref_of_example = from_ref-ref_of tuned refl refl

-- The stash is no experiment.
stash_test : from_ref "refs/exps/stash" ≡ raise (invalid_exp_ref "refs/exps/stash")
unfolding from_ref from_parts split_slash add_char is_slash nat_eq
stash_test = refl

-- The sha of a reference is not looked at: one that is cut elsewhere is read, and written in another way.
cut_test : from_ref "refs/exps/0123/4abcd/tuned-lr" ≡ return tuned
unfolding from_ref from_parts split_slash add_char is_slash nat_eq join_slash append string_eq
cut_test = refl
