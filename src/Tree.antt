-- ===== src/Tree.antt =====
-- src/tree_state.cpp, `TreeState` (include/token.hpp): the k-ary tree of ranks, rooted at rank 0.
-- The constructor's products and sums are `int`s, given by their 32-bit patterns: what leaves the
-- range wraps, as the processors do it (the language leaves it open). `rank`, `nranks` and
-- `maxChildren` themselves are `int`s that are not negative. A rank that is MPI_PROC_NULL is `none`.
pub mod Family
mod Tests
use circle.Prelude.{
  ℕ, zero, suc, ◌+◌, ◌-◌, ◌*◌, ◌/◌, ◌%◌, ◌^◌, Bool, List, [], ◌∷◌, Option, none, some, not, ltb,
  if◌then◌else◌, get_or, set, replicate,
}

pub record TreeState : Type 0 where
  pub rank : ℕ
  pub nranks : ℕ
  pub parent_rank : Option ℕ
  pub nchildren : ℕ
  pub children_ranks : List (Option ℕ)
  pub max_children : ℕ

-- `a < b` on the patterns of two `int`s.
abbrev pub int_lt : ℕ → ℕ → Bool
int_lt a b = ltb ((a + 2 ^ 31) % 2 ^ 32) ((b + 2 ^ 31) % 2 ^ 32)

-- `for (i = 0; i < nchildren; i++) childrenRanks[i] = left + i`, from index `i` on with `n` rounds
-- left.
unfoldable pub fill : ℕ → ℕ → ℕ → List (Option ℕ) → List (Option ℕ)
fill zero left i ranks = ranks
fill (suc n) left i ranks = fill n left (i + 1) (set ranks i (some ((left + i) % 2 ^ 32)))

-- `TreeState::TreeState`. The allocation is taken to succeed. The quotient by `maxChildren` is not
-- computed on rank 0; on another rank it needs a positive `maxChildren`.
unfoldable pub make_tree : ℕ → ℕ → ℕ → TreeState
make_tree rank nranks max_children =
    let ranks = replicate max_children none in
    let parent : Option ℕ = if ltb 0 rank then some ((rank - 1) / max_children) else none in
    let left = (rank * max_children + 1) % 2 ^ 32 in
    let right = (rank * max_children + max_children) % 2 ^ 32 in
    let last = if not (int_lt right nranks) then nranks - 1 else right in
    let n = (last + 1 + 2 ^ 32 - left) % 2 ^ 32 in
    if int_lt left nranks
    then record {
      rank = rank;
      nranks = nranks;
      parent_rank = parent;
      nchildren = n;
      children_ranks = fill n left 0 ranks;
      max_children = max_children;
    }
    else record {
      rank = rank;
      nranks = nranks;
      parent_rank = parent;
      nchildren = 0;
      children_ranks = ranks;
      max_children = max_children;
    }

unfoldable pub get_children_count : TreeState → ℕ
get_children_count t = t.nchildren

unfoldable pub get_parent_rank : TreeState → Option ℕ
get_parent_rank t = t.parent_rank

unfoldable pub get_children_ranks : TreeState → List (Option ℕ)
get_children_ranks t = t.children_ranks

-- What the loops `for (i = 0; i < nchildren; i++) ... childrenRanks[i]` go over.
abbrev pub children_from : List (Option ℕ) → ℕ → List ℕ
children_from ranks zero = []
children_from [] (suc n) = []
children_from (some r ∷ ranks) (suc n) = r ∷ children_from ranks n
children_from (none ∷ ranks) (suc n) = children_from ranks n

abbrev pub children : TreeState → List ℕ
children t = children_from t.children_ranks t.nchildren
