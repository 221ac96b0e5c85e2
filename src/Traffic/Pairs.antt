-- ===== src/Traffic/Pairs.antt =====
-- Requests and replies come in pairs, and so do transfers of work and receipts.
use circle.Prelude.{ℕ, ◌+◌, ◌*◌, ◌^◌, ◌≤◌, ◌<◌, ◌≡◌}
use circle.Traffic.{Traffic, Reach}
use circle.Traffic.Serve.{between, works_from}
use circle.Traffic.Receive.{waits_for}
use circle.Traffic.Invariant.{Traffic-Inv}

-- In every state that a job reaches, in any order of serving, asking, receiving, taking receipts,
-- adding and taking items: if rank `a` waits for rank `b`, either exactly one request from `a` to
-- `b` or exactly one reply from `b` to `a` is under way; if it does not, neither is. So no request
-- is lost, and none is answered twice. The pools and the numbers of strings fit an `int`, an item has
-- 1 to 2 ^ 31 - 1 bytes, the page size is positive, and the offset arrays can be extended.
pub Reach-paired :
    (page_size size : ℕ) (rand_r : ℕ → ℕ × ℕ) (fuel : ℕ) (w : Traffic) (a b : ℕ)
    → 0 < page_size
    → 2 ^ 32 + page_size * 4096 ≤ 2 ^ 64
    → Reach rand_r fuel page_size size w
    → w.requests a b + between b a w.jobs.parcels ≡ waits_for (w.jobs.ranks a) b
Reach-paired page_size size rand_r fuel w a b pages room r =
    (Traffic-Inv page_size size rand_r fuel pages room r).pairs a b

-- In every state that a job reaches, in any order of moves: the outstanding transfers that a
-- rank counts are the replies with work that it has under way and the receipts that are under way to
-- it. So the count is zero only if all the work that the rank has sent away has arrived. The pools
-- and the numbers of strings fit an `int`, an item has 1 to 2 ^ 31 - 1 bytes, the page size is
-- positive, and the offset arrays can be extended.
pub Reach-outstanding :
    (page_size size : ℕ) (rand_r : ℕ → ℕ × ℕ) (fuel : ℕ) (w : Traffic) (b : ℕ)
    → 0 < page_size
    → 2 ^ 32 + page_size * 4096 ≤ 2 ^ 64
    → Reach rand_r fuel page_size size w
    → (w.jobs.ranks b).terms.work_outstanding ≡ works_from b w.jobs.parcels + w.receipts b
Reach-outstanding page_size size rand_r fuel w b pages room r =
    (Traffic-Inv page_size size rand_r fuel pages room r).outstanding b
