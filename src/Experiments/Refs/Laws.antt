-- ===== src/Experiments/Refs/Laws.antt =====
-- References that are written are read (dvc/repo/experiments/refs.py).
use Prim.Native.String.{[] as no_text, ◌∷◌ as text}
use dvc.Base.{
  ◌≡◌, refl, ap, ◌∙◌, String, Bool, false, ◌||◌, ◌==◌, nat_eq, string_eq, ◌∷◌, [], return,
  Bool-cases, inl, inr, arith,
}
use dvc.Experiments.Refs.{
  is_slash, append, first_two, after_two, join_slash, add_char, split_slash, ExpRefInfo, parts,
  ref_of, from_parts, from_ref,
}

abbrev pub has_slash : String → Bool
has_slash no_text = false
has_slash (text c s) = is_slash c || has_slash s

append-empty : (s : String) → append s "" ≡ s
unfolding append
append-empty no_text = refl
append-empty (text c s) = ap (text c) (append-empty s)

append-two : (s : String) → append (first_two s) (after_two s) ≡ s
unfolding append first_two after_two
append-two no_text = refl
append-two (text c no_text) = refl
append-two (text c (text d s)) = refl

two-has_slash :
    (s : String)
    → has_slash s ≡ false
    → (has_slash (first_two s) ≡ false) × (has_slash (after_two s) ≡ false)
unfolding first_two after_two
two-has_slash no_text h = (refl, refl)
two-has_slash (text c no_text) h = (h, refl)
two-has_slash (text c (text d s)) h = (ground arith, ground arith)

split_slash-one : (s : String) → has_slash s ≡ false → split_slash s ≡ s ∷ []
unfolding split_slash add_char
split_slash-one no_text h = refl
split_slash-one (text c s) h = rw (split_slash-one s (ground arith)) (ground arith)

split_slash-append :
    (s rest : String)
    → has_slash s ≡ false
    → split_slash (append s (append "/" rest)) ≡ s ∷ split_slash rest
unfolding split_slash add_char append is_slash nat_eq
split_slash-append no_text rest h = refl
split_slash-append (text c s) rest h = rw (split_slash-append s rest (ground arith)) (ground arith)

-- The namespace is two parts.
split_slash-namespace :
    (rest : String)
    → split_slash (append "refs/exps" (append "/" rest)) ≡ "refs" ∷ ("exps" ∷ split_slash rest)
unfolding split_slash add_char append is_slash nat_eq
split_slash-namespace rest = refl

split_slash-unnamed :
    (a b : String)
    → has_slash a ≡ false
    → has_slash b ≡ false
    → split_slash (append "refs/exps" (append "/" (append a (append "/" b))))
      ≡ "refs" ∷ ("exps" ∷ (a ∷ (b ∷ [])))
split_slash-unnamed a b ha hb =
    split_slash-namespace (append a (append "/" b))
    ∙ ap (λ l. "refs" ∷ ("exps" ∷ l))
        (split_slash-append a b ha ∙ ap (λ l. a ∷ l) (split_slash-one b hb))

split_slash-named :
    (a b n : String)
    → has_slash a ≡ false
    → has_slash b ≡ false
    → has_slash n ≡ false
    → split_slash
        (append "refs/exps" (append "/" (append a (append "/" (append b (append "/" n))))))
      ≡ "refs" ∷ ("exps" ∷ (a ∷ (b ∷ (n ∷ []))))
split_slash-named a b n ha hb hn =
    split_slash-namespace (append a (append "/" (append b (append "/" n))))
    ∙ ap (λ l. "refs" ∷ ("exps" ∷ l))
        (split_slash-append a (append b (append "/" n)) ha
          ∙ ap (λ l. a ∷ l) (split_slash-append b n hb ∙ ap (λ l. b ∷ l) (split_slash-one n hn)))

from_parts-unnamed :
    (ref a b : String)
    → from_parts ref ("refs" ∷ ("exps" ∷ (a ∷ (b ∷ []))))
      ≡ return (record { baseline_sha = append a b; name = "" })
unfolding from_parts join_slash append string_eq
from_parts-unnamed ref a b = refl

from_parts-named :
    (ref a b n : String)
    → from_parts ref ("refs" ∷ ("exps" ∷ (a ∷ (b ∷ (n ∷ [])))))
      ≡ return (record { baseline_sha = append a b; name = n })
unfolding from_parts join_slash append string_eq
from_parts-named ref a b n = refl

-- A reference that is written is read back: from_ref of the text of an ExpRefInfo, whose sha and name
-- have no slash, returns it.
pub from_ref-ref_of :
    (info : ExpRefInfo)
    → has_slash info.baseline_sha ≡ false
    → has_slash info.name ≡ false
    → from_ref (ref_of info) ≡ return info
unfolding from_ref ref_of parts join_slash
from_ref-ref_of info sha_free name_free =
    let (first, rest) = two-has_slash info.baseline_sha sha_free in
    let a = first_two info.baseline_sha in
    let b = after_two info.baseline_sha in
    elim (Bool-cases (info.name == "")) [
      | inl e ↦
          (let q : "" ≡ info.name = ground arith in
            rw e (
              ap (from_parts _) (split_slash-unnamed a b first rest)
              ∙ (from_parts-unnamed _ a b ∙ ap return (rw (append-two info.baseline_sha, q) refl))))
      | inr e ↦ rw e (
          ap (from_parts _) (split_slash-named a b info.name first rest name_free)
          ∙ (from_parts-named _ a b info.name ∙ ap return (rw (append-two info.baseline_sha) refl)))
    ]
