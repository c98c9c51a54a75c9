-- ===== src/Segments/Insert.antt =====
-- The search of `Insert` and `Contains`, and the three cases of `Insert`.
use yacl_r.Base.{
  ℕ, ◌+◌, ◌^◌, ◌≤◌, ◌<◌, ◌≡◌, refl, Bool, true, false, not, ◌||◌, List, [], ◌∷◌, arith, ltb, ◌==◌,
  Bool-cases, inl, inr,
}
use yacl_r.Segments.{Segment, upper_bound, rebuild, merge, insert_between, succ_size}
use yacl_r.Segments.Cover.{
  covers, total, Above, Below, Above-mono, Below-mono, covers-Above, covers-Below,
}
use yacl_r.Segments.Merge.{Joins, merge-Joins}

-- The entries before the split: the nearest starts at `item` or below.
abbrev pub Reaches : ℕ → List Segment → Type 0
Reaches item [] = Unit {0}
Reaches item (c ∷ r) =
    (c.first ≤ item) × (c.first < c.second) × (c.second < 2 ^ 64) × Below c.first r

pub upper_bound-splits :
    (item k : ℕ) (before after : List Segment)
    → Reaches item before
    → Below k before
    → Above k after
    → let (b, a) = upper_bound item before after in
      Reaches item b × Above (item + 1) a × (rebuild b a ≡ rebuild before after)
unfolding upper_bound rebuild
upper_bound-splits item k before [] h b a = (h, tt, refl)
upper_bound-splits item k before (g ∷ r) h b a = elim (Bool-cases (ltb item g.first)) [
  | inl e ↦ rw (e, upper_bound) (h, (ground arith, a.1, a.2, a.3), refl)
  | inr e ↦
      rw (e, upper_bound)
        (upper_bound-splits item (g.second + 1) (g ∷ before) r
          (ground arith, a.1, a.2, Below-mono k g.first before a.0 b)
          (omega arith, a.1, a.2, Below-mono k g.first before a.0 b) a.3)
]

-- The outcome of an insertion between `before` and `after`.
pub record Inserts (item : ℕ) (before after : List Segment) (out : List Segment × Bool)
    : Type 0 where
  pub fresh : out.1 ≡ not (covers before item || covers after item)
  pub ordered : out.1 ≡ true → Above 0 out.0
  pub same_set :
      out.1 ≡ true → (x : ℕ) → covers out.0 x ≡ (x == item || (covers before x || covers after x))
  pub one_more : out.1 ≡ true → total out.0 ≡ total before + total after + 1

-- A new segment, short of the nearest before it.
new-Inserts :
    (item s : ℕ) (before after : List Segment)
    → s ≡ item + 1
    → item + 1 < 2 ^ 64
    → Below item before
    → Above (item + 1) after
    → Inserts item before after (merge before (record { first = item; second = s }) after, true)
new-Inserts item s before after e m b a = record {
  fresh = ground (arith, covers-Below item before item b, covers-Above (item + 1) after item a);
  ordered = λ _. j.ordered;
  same_set = λ _ x. ground (arith, j.same_set x);
  one_more = λ _. omega (arith, j.same_total);
}
  where
    j :
        Joins
          (merge before (record { first = item; second = s }) after)
          before
          (record { first = item; second = s })
          after
    j =
        merge-Joins before (record { first = item; second = s }) after (omega arith) (omega arith)
          (Below-mono item (item + 1) before (omega arith) b)
          (Above-mono s (item + 1) after (omega arith) a)

-- The nearest segment ends at the item, and grows by it.
grow-Inserts :
    (item s : ℕ) (c : Segment) (before after : List Segment)
    → s ≡ item + 1
    → item + 1 < 2 ^ 64
    → item ≡ c.second
    → c.first < c.second
    → Below c.first before
    → Above (item + 1) after
    → Inserts item
        (c ∷ before)
        after
        (merge before (record { first = c.first; second = s }) after, true)
grow-Inserts item s c before after e m here h b a = record {
  fresh = ground (arith, covers-Below c.first before item b, covers-Above (item + 1) after item a);
  ordered = λ _. j.ordered;
  same_set = λ _ x. ground (arith, j.same_set x);
  one_more = λ _. omega (arith, j.same_total);
}
  where
    j :
        Joins
          (merge before (record { first = c.first; second = s }) after)
          before
          (record { first = c.first; second = s })
          after
    j =
        merge-Joins before (record { first = c.first; second = s }) after (omega arith)
          (omega arith) (Below-mono c.first (c.first + 1) before (omega arith) b)
          (Above-mono s (item + 1) after (omega arith) a)

pub insert_between-Inserts :
    (item : ℕ) (before after : List Segment)
    → item + 1 < 2 ^ 64
    → Reaches item before
    → Above (item + 1) after
    → Inserts item before after (insert_between item before after)
unfolding insert_between
insert_between-Inserts item [] after m h a =
    new-Inserts item (succ_size item) [] after (omega arith) m tt a
insert_between-Inserts item (c ∷ before) after m h a = elim (Bool-cases (ltb c.second item)) [
  | inl e ↦
      let apart : (c.first == item) ≡ false = ground arith in
      rw (e, apart, insert_between)
        (new-Inserts item (succ_size item) (c ∷ before) after (omega arith) m
          (ground arith, h.1, h.2, h.3) a)
  | inr e ↦ elim (Bool-cases (item == c.second)) [
    | inl d ↦
        rw (e, d, insert_between)
          (grow-Inserts item (succ_size item) c before after (omega arith) m (ground arith) h.1 h.3
            a)
    | inr d ↦
        rw (e, d, insert_between)
          (record {
            fresh = ground arith;
            ordered = λ f. cc;
            same_set = λ f x. cc;
            one_more = λ f. cc;
          })
  ]
]
