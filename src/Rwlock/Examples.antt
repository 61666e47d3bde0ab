-- ===== src/Rwlock/Examples.antt =====
-- Tests of the lock on two processes that live and one that does not, and the theorems on them.
use dvc.Base.{
  true, All, ◌≡◌, refl, ℕ, String, Bool, not, none, some, [], ◌∷◌, ◌==◌, string_eq, nat_eq, pair_eq,
  return, raise, arith,
}
use mathlib.Core.List.{cons≢nil}
use dvc.Rwlock.Roundtrip.{enter-leave}
use dvc.Rwlock.{loaded, Info, Lock, lock_error, or_empty, spread, enter, leave}
use dvc.Rwlock.Kept.{Returns}
use dvc.Rwlock.Blocked.{blocks, enter-lock_error}
use dvc.Rwlock.Exclusion.{IsExclusive, enter-IsExclusive}

-- Paths without nesting.
abbrev same_path : String → String → Bool
same_path p q = p == q

abbrev living : ℕ → Bool
living pid = not (pid == 7)

abbrev repro : Info
repro = (2, "repro")

-- Process 1 writes b, and the dead process 7 is left as a reader of a.
abbrev shared : Lock
shared = record { read = some (("a", (7, "get") ∷ []) ∷ []); write = some (("b", (1, "add")) ∷ []) }

enter_test :
    enter same_path living repro ("c" ∷ []) ("a" ∷ []) shared
    ≡ return (
      ("c" ∷ [], "a" ∷ []),
      record {
        read = some (("c", repro ∷ []) ∷ []);
        write = some (("b", (1, "add")) ∷ ("a", repro) ∷ []);
      },
    )
unfolding enter leave nat_eq string_eq pair_eq
enter_test = refl

blocked_test :
    enter same_path living repro ("b" ∷ []) [] shared ≡ raise (lock_error ((1, "add") ∷ []))
unfolding enter leave nat_eq string_eq pair_eq
blocked_test = refl

leave_test :
    leave repro ("c" ∷ []) ("a" ∷ []) (record {
      read = some (("c", repro ∷ []) ∷ []);
      write = some (("b", (1, "add")) ∷ ("a", repro) ∷ []);
    })
    ≡ return (record { read = none; write = some (("b", (1, "add")) ∷ []) })
unfolding enter leave nat_eq string_eq pair_eq
leave_test = refl

same_path_symmetric : (p q : String) → same_path p q ≡ same_path q p
same_path_symmetric p q = ground arith

shared-IsExclusive : IsExclusive same_path living shared
unfolding or_empty spread nat_eq string_eq pair_eq
shared-IsExclusive = (((refl, tt), (refl, tt)), tt)

enter-IsExclusive_example :
    Returns
      (λ r. IsExclusive same_path living r.1)
      (enter same_path living repro ("c" ∷ []) ("a" ∷ []) shared)
enter-IsExclusive_example =
    enter-IsExclusive same_path living same_path_symmetric repro ("c" ∷ []) ("a" ∷ []) shared
      shared-IsExclusive

enter-lock_error_example : All (λ b. blocks living repro b ≡ true) ((1, "add") ∷ [])
enter-lock_error_example =
    enter-lock_error same_path living repro ("b" ∷ []) [] shared ((1, "add") ∷ []) blocked_test

-- Process 1 writes b and reads d.
abbrev living_only : Lock
living_only = record {
  read = some (("d", (1, "add") ∷ []) ∷ []);
  write = some (("b", (1, "add")) ∷ []);
}

same_path_reflexive : (p : String) → same_path p p ≡ true
same_path_reflexive p = ground arith

enter-leave_example :
    (lock' : Lock) × (leave repro ("d" ∷ "c" ∷ []) ("a" ∷ []) (record {
      read = some (("d", (1, "add") ∷ repro ∷ []) ∷ ("c", repro ∷ []) ∷ []);
      write = some (("b", (1, "add")) ∷ ("a", repro) ∷ []);
    })
      ≡ return lock')
    × (loaded lock' ≡ living_only)
unfolding enter nat_eq string_eq pair_eq loaded or_empty spread
enter-leave_example =
    enter-leave same_path living repro same_path_reflexive ("d" ∷ "c" ∷ []) ("a" ∷ []) living_only
      {r = (
        ("d" ∷ "c" ∷ [], "a" ∷ []),
        record {
          read = some (("d", (1, "add") ∷ repro ∷ []) ∷ ("c", repro ∷ []) ∷ []);
          write = some (("b", (1, "add")) ∷ ("a", repro) ∷ []);
        },
      )}
      (refl, tt) (refl, tt) (cons≢nil, tt) refl
