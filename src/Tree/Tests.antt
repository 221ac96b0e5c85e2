-- ===== src/Tree/Tests.antt =====
-- Tests of the tree of ranks: 4 ranks, 2 children at most.
use circle.Prelude.{elem, ◌<◌, ◌≡◌, ◌↔◌, ◌^◌, refl, true, some, arith}
use circle.Tree.{make_tree, children}
use circle.Tree.Family.{tree_parent, tree_kids, children-parent}

children-parent_example :
    (children (make_tree 1 4 2) ≡ tree_kids 4 2 1)
    × ((make_tree 1 4 2).parent_rank ≡ tree_parent 4 2 1)
    × ((elem 3 (children (make_tree 1 4 2)) ≡ true)
        ↔ ((3 < 4) × ((make_tree 3 4 2).parent_rank ≡ some 1)))
children-parent_example = children-parent 1 3 4 2 (omega arith) (omega arith) (omega arith)

-- With a width of 2 ^ 30 the numbers of the children of rank 2 leave the range of `int`, and it takes
-- itself to have 2 ^ 30 children in a job of 3 ranks.
too_wide : (make_tree 2 3 (2 ^ 30)).nchildren ≡ 2 ^ 30
unfolding make_tree
too_wide = refl
