-- ===== src/Segments.antt =====
-- yacl/utils/segment_tree.h at `T = size_t`: a set of numbers as disjoint segments [first, second).
-- The `std::map` is the list of its entries by increasing key. An iterator is a split of that list:
-- the entries before it, nearest first, and those from it on.
pub mod Cover
mod Merge
mod Insert
pub mod Set
use yacl_r.Base.{
  ℕ, ◌+◌, ◌%◌, ◌^◌, Bool, true, false, List, [], ◌∷◌, ltb, leb, ◌==◌, if◌then◌else◌, length,
}

pub record Segment : Type 0 where
  pub first : ℕ
  pub second : ℕ

pub record SegmentTree : Type 0 where
  pub segments : List Segment
  pub count : ℕ

abbrev pub new : SegmentTree
new = record { segments = []; count = 0 }

-- `size_t` addition of 1
abbrev pub succ_size : ℕ → ℕ
succ_size n = (n + 1) % 2 ^ 64

-- `segments_.upper_bound(item)`: the entries with key ≤ item, nearest first, and the others.
pub upper_bound : ℕ → List Segment → List Segment → List Segment × List Segment
upper_bound item before [] = (before, [])
upper_bound item before (g ∷ r) = elim (ltb item g.first) [
  | true ↦ (before, g ∷ r)
  | false ↦ upper_bound item (g ∷ before) r
]

-- The entries `before`, nearest first, in front of `after`.
pub rebuild : List Segment → List Segment → List Segment
rebuild [] after = after
rebuild (g ∷ before) after = rebuild before (g ∷ after)

-- "try merge segment", first with the entry before and then with the one after
merge_next : List Segment → Segment → List Segment → List Segment
unfolding rebuild
merge_next before g [] = rebuild before (g ∷ [])
merge_next before g (n ∷ r) =
    if n.first == g.second
    then rebuild before (record { first = g.first; second = n.second } ∷ r)
    else rebuild before (g ∷ n ∷ r)

pub merge : List Segment → Segment → List Segment → List Segment
unfolding merge_next
merge [] g after = merge_next [] g after
merge (p ∷ before) g after =
    if p.second == g.first
    then merge_next before (record { first = p.first; second = g.second }) after
    else merge_next (p ∷ before) g after

-- The segments after the insertion of `item`, or `none` for an existing item.
pub insert_between : ℕ → List Segment → List Segment → List Segment × Bool
unfolding merge
insert_between item [] after =
    (merge [] (record { first = item; second = succ_size item }) after, true)
insert_between item (c ∷ before) after =
    if ltb c.second item
    then (
      if c.first == item
          then merge before c after
          else merge (c ∷ before) (record { first = item; second = succ_size item }) after,
      true,
    )
    else if item == c.second
    then (merge before (record { first = c.first; second = succ_size item }) after, true)
    else (rebuild (c ∷ before) after, false)

unfoldable pub insert : ℕ → SegmentTree → SegmentTree × Bool
unfolding upper_bound insert_between
insert item t =
    let (before, after) = upper_bound item [] t.segments in
    let (segments, fresh) = insert_between item before after in
    if fresh then (record { segments = segments; count = t.count + 1 }, true) else (t, false)

contains_in : ℕ → List Segment → Bool
contains_in item [] = false
contains_in item (c ∷ before) = if leb c.second item then false else true

unfoldable pub contains : ℕ → SegmentTree → Bool
unfolding upper_bound contains_in
contains item t = let (before, after) = upper_bound item [] t.segments in contains_in item before

unfoldable pub segments_count : SegmentTree → ℕ
segments_count t = length t.segments

-- `GetSegments`, in the order of the map's keys.
pub get_segments : SegmentTree → List (ℕ × ℕ)
get_segments t = pairs t.segments
  where
    pairs : List Segment → List (ℕ × ℕ)
    pairs [] = []
    pairs (s ∷ r) = (s.first, s.second) ∷ pairs r
