-- ===== src/Tests/Segments.antt =====
-- The segment set of yacl/utils/segment_tree.h on small inputs.
use yacl_r.Base.{◌^◌, ◌-◌, ◌≡◌, refl, true, false, ◌||◌, [], ◌∷◌, arith, ◌==◌, some}
use yacl_r.Segments.{SegmentTree, insert, contains}
use yacl_r.Segments.Set
use yacl_r.Segments.Set.{IsValid}
use yacl_r.Decimal.{simple_atoi, to_string, simple_atoi-to_string}

-- 1, 2 and 4, 5
abbrev gap : SegmentTree
gap = record {
  segments = record { first = 1; second = 3 } ∷ record { first = 4; second = 6 } ∷ [];
  count = 4;
}

gap-IsValid : IsValid gap
gap-IsValid = omega arith

-- The number between two segments merges them.
insert_merges :
    insert 3 gap ≡ (record { segments = record { first = 1; second = 6 } ∷ []; count = 5 }, true)
unfolding insert
insert_merges = refl

-- At the largest `size_t` the end of the new segment wraps to 0, and the number is not found again.
insert_largest : contains (2 ^ 64 - 1) (insert (2 ^ 64 - 1) gap).0 ≡ false
unfolding insert contains
insert_largest = refl

contains-insert_example : contains 4 (insert 3 gap).0 ≡ (4 == 3 || contains 4 gap)
contains-insert_example = Set.contains-insert 3 4 gap (omega arith) gap-IsValid

insert-IsValid_example : IsValid (insert 3 gap).0
insert-IsValid_example = Set.insert-IsValid 3 gap (omega arith) gap-IsValid

one_segment : SegmentTree
one_segment = record { segments = record { first = 1; second = 6 } ∷ []; count = 5 }

simple_atoi-to_string_example : simple_atoi (to_string 1024) ≡ some 1024
simple_atoi-to_string_example = simple_atoi-to_string 1024 (omega arith)
