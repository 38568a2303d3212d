-- ===== src/Tests/Arrays.antt =====
-- Sorting a small array.
use isam_db_c_language.Base.{◌≡◌, refl, [], ◌∷◌, ok, Returns}
use isam_db_c_language.Sort.{swap, pivot_step, pivot_loop, pivot, quick_sort, selection_sort}
use isam_db_c_language.Sort.Selection.{selection_sort-Sorts}
use isam_db_c_language.Sort.Unique.{quick_sort-selection_sort}
use isam_db_c_language.Sort.Quick.{Sorts, quick_sort-Sorts}
use isam_db_c_language.Tests.Trees.{numbers}

quick_sort-runs : quick_sort numbers 5 (3 ∷ 1 ∷ 2 ∷ 1 ∷ []) 0 3 ≡ ok (1 ∷ 1 ∷ 2 ∷ 3 ∷ [])
unfolding swap pivot_step pivot_loop pivot quick_sort
quick_sort-runs = refl

quick_sort-Sorts_example :
    Returns (quick_sort numbers 5 (3 ∷ 1 ∷ 2 ∷ 1 ∷ []) 0 3) (Sorts numbers (3 ∷ 1 ∷ 2 ∷ 1 ∷ []))
quick_sort-Sorts_example = quick_sort-Sorts numbers (3 ∷ 1 ∷ 2 ∷ 1 ∷ [])

selection_sort-Sorts_example :
    Returns (selection_sort numbers (3 ∷ 1 ∷ 2 ∷ 1 ∷ []) 0 3) (Sorts numbers (3 ∷ 1 ∷ 2 ∷ 1 ∷ []))
selection_sort-Sorts_example = selection_sort-Sorts numbers (3 ∷ 1 ∷ 2 ∷ 1 ∷ [])

quick_sort-selection_sort_example :
    quick_sort numbers 5 (3 ∷ 1 ∷ 2 ∷ 1 ∷ []) 0 3 ≡ selection_sort numbers (3 ∷ 1 ∷ 2 ∷ 1 ∷ []) 0 3
quick_sort-selection_sort_example = quick_sort-selection_sort numbers (3 ∷ 1 ∷ 2 ∷ 1 ∷ [])
