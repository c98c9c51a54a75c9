-- ===== src/Strings/Split.antt =====
-- `StrSplit` at a character and `StrJoin` with it (yacl/utils/strings.cc).
use yacl_r.Base.{
  ℕ, ◌≡◌, ◌∙◌, sym, refl, ap, ap₂, Bool, true, false, ◌||◌, List, [], ◌∷◌, ◌++◌, arith, Bytes, ◌==◌,
  append-nil, append_assoc, Bool-cases, inl, inr,
}
use yacl_r.Strings.{split_loop, str_split, join_rest, str_join}

-- The character stands in the string.
abbrev pub has : ℕ → Bytes → Bool
has d [] = false
has d (c ∷ r) = c == d || has d r

abbrev pub NoneHas : ℕ → List Bytes → Type 0
NoneHas d [] = Unit {0}
NoneHas d (p ∷ ps) = (has d p ≡ false) × NoneHas d ps

-- The pieces are never none, so that a separator stands in front of the first.
join_rest-loop :
    (d : ℕ) (piece sv : Bytes)
    → join_rest (split_loop piece d sv) (d ∷ []) ≡ d ∷ str_join (split_loop piece d sv) (d ∷ [])
unfolding split_loop join_rest str_join
join_rest-loop d piece [] = refl
join_rest-loop d piece (c ∷ r) = elim (Bool-cases (c == d)) [
  | inl e ↦ rw e refl
  | inr e ↦ rw e (join_rest-loop d (piece ++ c ∷ []) r)
]

join-loop : (d : ℕ) (piece sv : Bytes) → str_join (split_loop piece d sv) (d ∷ []) ≡ piece ++ sv
unfolding split_loop str_join join_rest
join-loop d piece [] = refl
join-loop d piece (c ∷ r) = elim (Bool-cases (c == d)) [
  | inr e ↦ rw e (join-loop d (piece ++ c ∷ []) r ∙ append_assoc piece (c ∷ []) r)
  | inl e ↦
      let here : d ≡ c = ground arith in
      rw e
        (ap (λ t. piece ++ t) (join_rest-loop d [] r ∙ ap₂ (λ x y. x ∷ y) here (join-loop d [] r)))
]

-- `StrJoin` with the character at which `StrSplit` split gives the string back.
pub str_join-str_split : (d : ℕ) (sv : Bytes) → str_join (str_split sv d) (d ∷ []) ≡ sv
unfolding str_split
str_join-str_split d sv = join-loop d [] sv

loop-nil :
    (d : ℕ) (piece q : Bytes) → has d q ≡ false → split_loop piece d (q ++ []) ≡ (piece ++ q) ∷ []
unfolding split_loop
loop-nil d piece [] h = ap (λ t. t ∷ []) (sym (append-nil piece))
loop-nil d piece (c ∷ q) h =
    let other : (c == d) ≡ false = ground arith in
    rw other (
      loop-nil d (piece ++ c ∷ []) q (ground arith)
      ∙ ap (λ t. t ∷ []) (append_assoc piece (c ∷ []) q))

loop-cons :
    (d : ℕ) (piece q s : Bytes)
    → has d q ≡ false
    → split_loop piece d (q ++ d ∷ s) ≡ (piece ++ q) ∷ split_loop [] d s
unfolding split_loop
loop-cons d piece [] s h =
    let found : (d == d) ≡ true = ground arith in
    rw found (ap (λ t. t ∷ split_loop [] d s) (sym (append-nil piece)))
loop-cons d piece (c ∷ q) s h =
    let other : (c == d) ≡ false = ground arith in
    rw other (
      loop-cons d (piece ++ c ∷ []) q s (ground arith)
      ∙ ap (λ t. t ∷ split_loop [] d s) (append_assoc piece (c ∷ []) q))

-- `StrSplit` gives back the parts that `StrJoin` joined with a character, if there is a part and none
-- has that character.
pub str_split-str_join :
    (d : ℕ) (p : Bytes) (ps : List Bytes)
    → NoneHas d (p ∷ ps)
    → str_split (str_join (p ∷ ps) (d ∷ [])) d ≡ p ∷ ps
unfolding str_split str_join join_rest
str_split-str_join d p [] h = loop-nil d [] p h.0
str_split-str_join d p (q ∷ qs) h =
    loop-cons d [] p (q ++ join_rest qs (d ∷ [])) h.0 ∙ ap (◌∷◌ p) (str_split-str_join d q qs h.1)
