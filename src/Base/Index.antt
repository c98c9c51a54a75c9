-- ===== src/Base/Index.antt =====
-- Reading a list that is put together from parts of others.
use Prim.Native.Nat.{ℕ, zero, suc, ◌+◌, ◌<◌}
use mathlib.Core.Path.{◌≡◌, refl, ap, ap₂}
use mathlib.Core.List.{List, [], ◌∷◌, ◌++◌, map}
use mathlib.Core.Option.{some}
use native.Mathlib.Omega.{arith}
use yacl_r.Base.Lists.{length, get_elem?, take, drop}

module _ {ℓ} {A : Type ℓ} where
  pub get_elem?-append_left :
      (xs ys : List A) (p : ℕ) → p < length xs → get_elem? (xs ++ ys) p ≡ get_elem? xs p
  get_elem?-append_left [] ys p h = elim h [ ]
  get_elem?-append_left (x ∷ xs) ys zero h = refl
  get_elem?-append_left (x ∷ xs) ys (suc p) h = get_elem?-append_left xs ys p (omega arith)

  pub get_elem?-append_right :
      (xs ys : List A) (p q : ℕ) → p ≡ length xs + q → get_elem? (xs ++ ys) p ≡ get_elem? ys q
  get_elem?-append_right [] ys p q h = ap (get_elem? ys) (omega arith)
  get_elem?-append_right (x ∷ xs) ys zero q h = absurd (omega arith)
  get_elem?-append_right (x ∷ xs) ys (suc p) q h = get_elem?-append_right xs ys p q (omega arith)

  pub get_elem?-take :
      (k : ℕ) (xs : List A) (p : ℕ) → p < k → get_elem? (take k xs) p ≡ get_elem? xs p
  get_elem?-take zero xs p h = elim h [ ]
  get_elem?-take (suc k) [] p h = refl
  get_elem?-take (suc k) (x ∷ xs) zero h = refl
  get_elem?-take (suc k) (x ∷ xs) (suc p) h = get_elem?-take k xs p (omega arith)

  pub get_elem?-drop :
      (k : ℕ) (xs : List A) (p q : ℕ) → q ≡ k + p → get_elem? (drop k xs) p ≡ get_elem? xs q
  get_elem?-drop zero xs p q h = ap (get_elem? xs) (omega arith)
  get_elem?-drop (suc k) [] p q h = refl
  get_elem?-drop (suc k) (x ∷ xs) p zero h = absurd (omega arith)
  get_elem?-drop (suc k) (x ∷ xs) p (suc q) h = get_elem?-drop k xs p q (omega arith)

  -- Lists of one length that read alike are equal.
  pub eq_of_get_elem? :
      (xs ys : List A)
      → length xs ≡ length ys
      → ((p : ℕ) → p < length ys → get_elem? xs p ≡ get_elem? ys p)
      → xs ≡ ys
  eq_of_get_elem? [] [] e h = refl
  eq_of_get_elem? [] (y ∷ ys) e h = absurd (omega arith)
  eq_of_get_elem? (x ∷ xs) [] e h = absurd (omega arith)
  eq_of_get_elem? (x ∷ xs) (y ∷ ys) e h =
      let first : x ≡ y = ground (arith, h 0 (omega arith)) in
      ap₂ ◌∷◌ first (eq_of_get_elem? xs ys (omega arith) (λ p lt. h (suc p) (omega arith)))

  -- What the front of a list has is in the list.
  pub get_elem?-take-some :
      (k : ℕ) (xs : List A) (p : ℕ) (x : A)
      → get_elem? (take k xs) p ≡ some x
      → get_elem? xs p ≡ some x
  get_elem?-take-some zero xs p x h = absurd (ground arith)
  get_elem?-take-some (suc k) [] p x h = h
  get_elem?-take-some (suc k) (y ∷ xs) zero x h = h
  get_elem?-take-some (suc k) (y ∷ xs) (suc p) x h = get_elem?-take-some k xs p x h

  pub get_elem?-lt : (xs : List A) (p : ℕ) (x : A) → get_elem? xs p ≡ some x → p < length xs
  get_elem?-lt [] p x h = absurd (ground arith)
  get_elem?-lt (y ∷ xs) zero x h = omega arith
  get_elem?-lt (y ∷ xs) (suc p) x h = omega (arith, get_elem?-lt xs p x h)

module _ {ℓ κ} {A : Type ℓ} {B : Type κ} (f : A → B) where
  pub length-map : (xs : List A) → length (map f xs) ≡ length xs
  length-map [] = refl
  length-map (x ∷ xs) = ap suc (length-map xs)

  pub get_elem?-map-some :
      (xs : List A) (p : ℕ) (y : B)
      → get_elem? (map f xs) p ≡ some y
      → (x : A) × (get_elem? xs p ≡ some x) × (f x ≡ y)
  get_elem?-map-some [] p y h = absurd (ground arith)
  get_elem?-map-some (x ∷ xs) zero y h = (x, refl, some-inj h)
    where
      some-inj : {a b : B} → some a ≡ some b → a ≡ b
      some-inj h = ground arith
  get_elem?-map-some (x ∷ xs) (suc p) y h = get_elem?-map-some xs p y h
