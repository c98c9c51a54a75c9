-- ===== src/Segments/Merge.antt =====
-- "try merge segment" of `Insert`: what the merges of a segment with its neighbours give.
use yacl_r.Base.{ℕ, ◌+◌, ◌-◌, ◌^◌, ◌<◌, ◌≡◌, ◌||◌, List, [], ◌∷◌, arith, ◌==◌, Bool-cases, inl, inr}
use yacl_r.Segments.{Segment, rebuild, merge_next, merge}
use yacl_r.Segments.Cover.{
  within, covers, total, Above, Below, rebuild-Above, covers-rebuild, total-rebuild,
}

-- What a rebuilt list must be: ordered, and with these numbers.
pub record Joins (l before : List Segment) (g : Segment) (after : List Segment) : Type 0 where
  pub ordered : Above 0 l
  pub same_set : (x : ℕ) → covers l x ≡ (covers before x || (within g x || covers after x))
  pub same_total : total l ≡ total before + (g.second - g.first) + total after

plain-Joins :
    (before : List Segment) (g : Segment) (after : List Segment)
    → g.first < g.second
    → g.second < 2 ^ 64
    → Below g.first before
    → Above (g.second + 1) after
    → Joins (rebuild before (g ∷ after)) before g after
plain-Joins before g after h m b a = record {
  ordered = rebuild-Above before (g ∷ after) g.first b (omega arith, h, m, a);
  same_set = λ x. covers-rebuild before (g ∷ after) x;
  same_total = omega (arith, total-rebuild before (g ∷ after));
}

-- Two segments that touch hold the numbers of both.
join_next :
    (l before : List Segment) (g n : Segment) (after : List Segment)
    → g.first < g.second
    → g.second ≡ n.first
    → n.first < n.second
    → Joins l before (record { first = g.first; second = n.second }) after
    → Joins l before g (n ∷ after)
join_next l before g n after h e k j = record {
  ordered = j.ordered;
  same_set = λ x. ground (arith, j.same_set x);
  same_total = omega (arith, j.same_total);
}

join_prev :
    (l before : List Segment) (p g : Segment) (after : List Segment)
    → g.first < g.second
    → p.second ≡ g.first
    → p.first < p.second
    → Joins l before (record { first = p.first; second = g.second }) after
    → Joins l (p ∷ before) g after
join_prev l before p g after h e k j = record {
  ordered = j.ordered;
  same_set = λ x. ground (arith, j.same_set x);
  same_total = omega (arith, j.same_total);
}

merge_next-Joins :
    (before : List Segment) (g : Segment) (after : List Segment)
    → g.first < g.second
    → g.second < 2 ^ 64
    → Below g.first before
    → Above g.second after
    → Joins (merge_next before g after) before g after
unfolding merge_next
merge_next-Joins before g [] h m b a = plain-Joins before g [] h m b tt
merge_next-Joins before g (n ∷ r) h m b a = elim (Bool-cases (n.first == g.second)) [
  | inl e ↦
      rw (e, merge_next)
        (join_next _ before g n r h (ground arith) a.1 (
          plain-Joins before (record { first = g.first; second = n.second }) r (omega arith) a.2 b
            a.3))
  | inr e ↦ rw (e, merge_next) (plain-Joins before g (n ∷ r) h m b (ground arith, a.1, a.2, a.3))
]

pub merge-Joins :
    (before : List Segment) (g : Segment) (after : List Segment)
    → g.first < g.second
    → g.second < 2 ^ 64
    → Below (g.first + 1) before
    → Above g.second after
    → Joins (merge before g after) before g after
unfolding merge
merge-Joins [] g after h m b a = merge_next-Joins [] g after h m tt a
merge-Joins (p ∷ before) g after h m b a = elim (Bool-cases (p.second == g.first)) [
  | inl e ↦
      rw (e, merge)
        (join_prev _ before p g after h (ground arith) b.1 (
          merge_next-Joins before (record { first = p.first; second = g.second }) after
            (ground arith) m b.3 a))
  | inr e ↦
      rw (e, merge) (merge_next-Joins (p ∷ before) g after h m (ground arith, b.1, b.2, b.3) a)
]
