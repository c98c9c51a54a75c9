-- ===== src/Segments/Set.antt =====
-- `Insert` and `Contains` against the set of numbers that the segments stand for.
use yacl_r.Base.{
  ℕ, ◌+◌, ◌^◌, ◌≤◌, ◌<◌, ◌≡◌, refl, sym, ap, ◌∙◌, true, false, not, ◌||◌, List, [], ◌∷◌, arith,
  ◌==◌, if◌then◌else◌, length, Bool-cases, inl, inr,
}
use yacl_r.Segments.{
  Segment, SegmentTree, new, upper_bound, rebuild, insert_between, insert, contains_in, contains,
  segments_count,
}
use yacl_r.Segments.Cover.{
  covers, total, Above, covers-rebuild, total-rebuild, covers-Above, covers-Below,
}
use yacl_r.Segments.Insert.{Reaches, Inserts, upper_bound-splits, insert_between-Inserts}

-- The representation invariant: the segments are ordered, disjoint, not empty and merged where
-- they touch, and `count_` is how many numbers they hold.
pub record IsValid (t : SegmentTree) : Type 0 where
  pub ordered : Above 0 t.segments
  pub counted : t.count ≡ total t.segments

new-IsValid : IsValid new
new-IsValid = omega arith

-- What the first `upper_bound` of an operation finds in a valid tree.
split_of :
    (item : ℕ) (t : SegmentTree)
    → IsValid t
    → let (b, a) = upper_bound item [] t.segments in
      Reaches item b × Above (item + 1) a × (rebuild b a ≡ t.segments)
unfolding rebuild
split_of item t v = upper_bound-splits item 0 [] t.segments tt tt v.ordered

covers-split :
    (item x : ℕ) (t : SegmentTree)
    → IsValid t
    → let (b, a) = upper_bound item [] t.segments in
      covers t.segments x ≡ (covers b x || covers a x)
covers-split item x t v =
    let (b, a) = upper_bound item [] t.segments in
    ap (λ l. covers l x) (sym (split_of item t v).2) ∙ covers-rebuild b a x

contains_in-covers :
    (item : ℕ) (b : List Segment) → Reaches item b → contains_in item b ≡ covers b item
unfolding contains_in
contains_in-covers item [] h = refl
contains_in-covers item (c ∷ r) h = ground (arith, covers-Below c.first r item h.3)

-- `Contains` looks at one segment, and finds what any of them holds.
contains-covers : (x : ℕ) (t : SegmentTree) → IsValid t → contains x t ≡ covers t.segments x
unfolding contains
contains-covers x t v =
    let (b, a) = upper_bound x [] t.segments in
    ground (
      arith,
      covers-split x x t v,
      contains_in-covers x b (split_of x t v).0,
      covers-Above (x + 1) a x (split_of x t v).1,
    )

total-split :
    (item : ℕ) (t : SegmentTree)
    → IsValid t
    → let (b, a) = upper_bound item [] t.segments in total t.segments ≡ total b + total a
total-split item t v =
    let (b, a) = upper_bound item [] t.segments in
    ap total (sym (split_of item t v).2) ∙ total-rebuild b a

insert_of :
    (item : ℕ) (t : SegmentTree)
    → item + 1 < 2 ^ 64
    → IsValid t
    → let (b, a) = upper_bound item [] t.segments in Inserts item b a (insert_between item b a)
insert_of item t m v =
    let (b, a) = upper_bound item [] t.segments in
    insert_between-Inserts item b a m (split_of item t v).0 (split_of item t v).1

-- `Insert` of any number but the largest of `size_t` keeps the segments ordered, disjoint and merged,
-- and the count right.
pub insert-IsValid :
    (item : ℕ) (t : SegmentTree) → item + 1 < 2 ^ 64 → IsValid t → IsValid (insert item t).0
unfolding insert
insert-IsValid item t m v =
    let (b, a) = upper_bound item [] t.segments in
    ground (arith, insert_of item t m v, total-split item t v)

covers-insert :
    (item x : ℕ) (t : SegmentTree)
    → item + 1 < 2 ^ 64
    → IsValid t
    → covers (insert item t).0.segments x ≡ (x == item || covers t.segments x)
unfolding insert
covers-insert item x t m v =
    let (b, a) = upper_bound item [] t.segments in
    let j : Inserts item b a (insert_between item b a) = insert_of item t m v in
    elim (Bool-cases (insert_between item b a).1) [
      | inl e ↦ ground (arith, j.same_set e x, covers-split item x t v)
      | inr e ↦ ground (arith, j.fresh, covers-split item x t v, covers-split item item t v)
    ]

-- After `Insert(item)`, `Contains` holds of `item` and of what it held of before, and of nothing else.
pub contains-insert :
    (item x : ℕ) (t : SegmentTree)
    → item + 1 < 2 ^ 64
    → IsValid t
    → contains x (insert item t).0 ≡ (x == item || contains x t)
contains-insert item x t m v =
    rw (contains-covers x (insert item t).0 (insert-IsValid item t m v), contains-covers x t v)
      (covers-insert item x t m v)

-- `Insert` returns true exactly for a number that was not in the set, and then the count grows by one;
-- otherwise nothing changes.
pub insert_fresh :
    (item : ℕ) (t : SegmentTree)
    → item + 1 < 2 ^ 64
    → IsValid t
    → ((insert item t).1 ≡ not (contains item t))
      × ((insert item t).0.count ≡ (if contains item t then t.count else t.count + 1))
unfolding insert
insert_fresh item t m v =
    let (b, a) = upper_bound item [] t.segments in
    let j : Inserts item b a (insert_between item b a) = insert_of item t m v in
    ground (arith, j.fresh, covers-split item item t v, contains-covers item t v)

-- A known number leaves the tree as it was.
pub insert_known :
    (item : ℕ) (t : SegmentTree)
    → item + 1 < 2 ^ 64
    → IsValid t
    → contains item t ≡ true
    → insert item t ≡ (t, false)
unfolding insert
insert_known item t m v known =
    let (b, a) = upper_bound item [] t.segments in
    let j : Inserts item b a (insert_between item b a) = insert_of item t m v in
    ground (arith, j.fresh, covers-split item item t v, contains-covers item t v)

covers_between :
    (l : List Segment) (lo hi x : ℕ)
    → length l ≤ 1
    → covers l lo ≡ true
    → covers l hi ≡ true
    → lo ≤ x
    → x ≤ hi
    → covers l x ≡ true
covers_between [] lo hi x one l h p q = cc
covers_between (g ∷ []) lo hi x one l h p q = ground arith
covers_between (g ∷ n ∷ r) lo hi x one l h p q = absurd (omega arith)

-- With one segment at most, two members have all numbers between them in the set.
pub contains_between :
    (t : SegmentTree) (lo hi x : ℕ)
    → IsValid t
    → segments_count t ≤ 1
    → contains lo t ≡ true
    → contains hi t ≡ true
    → lo ≤ x
    → x ≤ hi
    → contains x t ≡ true
unfolding segments_count
contains_between t lo hi x v one l h p q = ground (
  arith,
  contains-covers lo t v,
  contains-covers hi t v,
  contains-covers x t v,
  covers_between t.segments lo hi x,
)
