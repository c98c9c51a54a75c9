-- ===== src/Segments/Cover.antt =====
-- The set that a list of segments stands for, and the order of the entries.
use yacl_r.Base.{
  ℕ, suc, ◌+◌, ◌-◌, ◌^◌, ◌≤◌, ◌<◌, ◌≡◌, refl, Bool, false, ◌&&◌, ◌||◌, List, [], ◌∷◌, arith, ltb,
  leb,
}
use yacl_r.Segments.{Segment, rebuild}

abbrev pub within : Segment → ℕ → Bool
within g x = leb g.first x && ltb x g.second

-- `x` lies in one of the segments.
abbrev pub covers : List Segment → ℕ → Bool
covers [] x = false
covers (g ∷ r) x = within g x || covers r x

-- How many numbers the segments hold.
abbrev pub total : List Segment → ℕ
total [] = 0
total (g ∷ r) = (g.second - g.first) + total r

-- The segments start at `k` or above, are not empty, and have a gap between any two.
abbrev pub Above : ℕ → List Segment → Type 0
Above k [] = Unit {0}
Above k (g ∷ r) =
    (k ≤ g.first) × (g.first < g.second) × (g.second < 2 ^ 64) × Above (g.second + 1) r

-- The same, read backwards: the segments end below `k`.
abbrev pub Below : ℕ → List Segment → Type 0
Below k [] = Unit {0}
Below k (g ∷ r) = (g.second < k) × (g.first < g.second) × (g.second < 2 ^ 64) × Below g.first r

pub Above-mono : (k m : ℕ) (l : List Segment) → k ≤ m → Above m l → Above k l
Above-mono k m [] h a = tt
Above-mono k m (g ∷ r) h a = (omega arith, a.1, a.2, a.3)

pub Below-mono : (k m : ℕ) (l : List Segment) → k ≤ m → Below k l → Below m l
Below-mono k m [] h a = tt
Below-mono k m (g ∷ r) h a = (omega arith, a.1, a.2, a.3)

pub rebuild-Above :
    (before after : List Segment) (k : ℕ)
    → Below k before
    → Above k after
    → Above 0 (rebuild before after)
unfolding rebuild
rebuild-Above [] after k b a = Above-mono 0 k after (omega arith) a
rebuild-Above (g ∷ before) after k b a =
    rebuild-Above before (g ∷ after) g.first b.3
      (omega arith, b.1, b.2, Above-mono (g.second + 1) k after (omega arith) a)

pub covers-rebuild :
    (before after : List Segment) (x : ℕ)
    → covers (rebuild before after) x ≡ (covers before x || covers after x)
unfolding rebuild
covers-rebuild [] after x = refl
covers-rebuild (g ∷ before) after x = ground (arith, covers-rebuild before (g ∷ after) x)

pub total-rebuild :
    (before after : List Segment) → total (rebuild before after) ≡ total before + total after
unfolding rebuild
total-rebuild [] after = omega arith
total-rebuild (g ∷ before) after = omega (arith, total-rebuild before (g ∷ after))

-- Nothing below the bound is covered by what lies above it, and the other way round.
pub covers-Above : (k : ℕ) (l : List Segment) (x : ℕ) → Above k l → x < k → covers l x ≡ false
covers-Above k [] x a h = refl
covers-Above k (g ∷ r) x a h = ground (arith, covers-Above (g.second + 1) r x a.3)

pub covers-Below : (k : ℕ) (l : List Segment) (x : ℕ) → Below k l → k ≤ suc x → covers l x ≡ false
covers-Below k [] x a h = refl
covers-Below k (g ∷ r) x a h = ground (arith, covers-Below g.first r x a.3)
