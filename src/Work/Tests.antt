-- ===== src/Work/Tests.antt =====
-- Tests of the service of requests.
use circle.Prelude.{ℕ, ◌+◌, ◌<◌, ◌≡◌, false, List, [], ◌∷◌, arith, length, get_or, sum}
use circle.Work.{shares}
use circle.Work.Shares.{shares_lem}

abbrev three_zeros : List ℕ
three_zeros = 0 ∷ 0 ∷ 0 ∷ []

abbrev two_ranks : List ℕ
two_ranks = 0 ∷ 3 ∷ []

shares_lem_example :
    (length (shares false 12 2 8) ≡ 2 + 1)
    × (sum (shares false 12 2 8) ≡ 8)
    × (0 < get_or (shares false 12 2 8) 0 0)
shares_lem_example = shares_lem false 12 2 8 (omega arith) (omega arith)
