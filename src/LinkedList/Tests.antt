-- ===== src/LinkedList/Tests.antt =====
-- Runs of kernel/kern/list.c on short lists.
use micro.Prelude.{none, ◌≡◌, refl, [], ◌∷◌, some, arith, if◌then◌else◌, ◌==◌}
use micro.LinkedList.{ListState, list_clear, list_remove, list_insert_after}
use micro.LinkedList.Segments.{Row, IsSegment, IsFresh, AreApart}
use micro.LinkedList.Ends.{IsLinked, IsCounted, list_clear-IsCounted, list_clear-endless}
use micro.LinkedList.Middle.{list_remove-IsLinked}
use micro.LinkedList.Inserts.{list_insert_after-IsLinked}

-- two nodes, at 10 and 20
abbrev two : ListState
two = (
  λ a.
      if a == 10
      then record { next = 20; prev = 0; datum = 1 }
      else record { next = 0; prev = 10; datum = 2 },
  record { head = 10; tail = 20; size = 2 },
)

abbrev row : Row
row = (10, 1) ∷ (20, 2) ∷ []

two-IsLinked : IsLinked two row
unfolding IsLinked IsSegment AreApart IsFresh
two-IsLinked = (
  (
    refl,
    (λ e. absurd (omega arith)),
    refl,
    refl,
    (refl, (λ e. absurd (omega arith)), refl, refl, (refl, refl)),
  ),
  (((λ e. absurd (omega arith)), tt), (tt, tt)),
)

two-IsCounted : IsCounted two row
unfolding IsCounted
two-IsCounted = (two-IsLinked, refl)

thirty-IsFresh : IsFresh 30 row
unfolding IsFresh
thirty-IsFresh = ((λ e. absurd (omega arith)), ((λ e. absurd (omega arith)), tt))

list_clear-IsCounted_example : (e : ListState) × (list_clear 2 two ≡ some e) × IsCounted e []
list_clear-IsCounted_example =
    list_clear-IsCounted row two 2 two-IsCounted (omega arith) (omega arith)

list_remove-IsLinked_example :
    ((list_remove two 1).0 ≡ 2)
    × IsLinked (list_remove two 1).1 ((10, 1) ∷ [])
    × ((list_remove two 1).1.1.size ≡ 2)
list_remove-IsLinked_example = list_remove-IsLinked two ((10, 1) ∷ []) [] 20 2 two-IsLinked

list_insert_after-IsLinked_example :
    IsLinked (list_insert_after two 0 30 3) ((10, 1) ∷ (30, 3) ∷ (20, 2) ∷ [])
list_insert_after-IsLinked_example =
    list_insert_after-IsLinked two [] ((20, 2) ∷ []) 10 1 30 3 two-IsLinked
      (λ e. absurd (omega arith)) thirty-IsFresh

list_clear-endless_example : list_clear 100 (list_remove two 1).1 ≡ none
list_clear-endless_example =
    let (d, linked, size) = list_remove-IsLinked two ((10, 1) ∷ []) [] 20 2 two-IsLinked in
    list_clear-endless 100 (list_remove two 1).1 ((10, 1) ∷ []) linked (omega (arith, size))
      (omega (arith, size))
