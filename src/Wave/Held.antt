-- ===== src/Wave/Held.antt =====
-- What holds in every state of the periodic reduction.
use circle.Prelude.{
  ℕ, ◌+◌, ◌<◌, ◌≡◌, true, false, not, ◌&&◌, List, [], Option, some, length, bit, if◌then◌else◌,
  total,
}
use circle.Reduce.Rules.{objects_of}
use circle.Tree.Family.{ranks_from}
use circle.Wave.{Wave, is_out, invalids}

-- What rank `i` has in hand or under way: objects of valid results, and results that are not valid.
abbrev pub held : Wave → ℕ → ℕ
held w i = (if is_out w i then (w.reduces i).result_objects else 0) + objects_of (w.results i)

abbrev pub marks : Wave → ℕ → ℕ
marks w i = (if is_out w i && not (w.reduces i).result_valid then 1 else 0) + invalids (w.results i)

module _ (size : ℕ) (parent : ℕ → Option ℕ) (kids : ℕ → List ℕ) where
  -- `link`: while a rank is out, each child has been asked and has not begun, is out, has a result
  -- under way, or its result has been taken; otherwise none of this. `once`, `sum`: unless a result
  -- was not valid, a child has contributed once if its result has been sent, and what the ranks have
  -- contributed is in hand or under way. `marked`: a result that was not valid leaves a mark.
  pub record Inv (w : Wave) : Type 0 where
    pub link :
        (c p : ℕ)
        → c < size
        → parent c ≡ some p
        → w.starts c
            + bit (is_out w c)
            + length (w.results c)
            + (if is_out w p then bit (w.taken c) else 0)
          ≡ (if is_out w p then 1 else 0)
    pub count :
        (p : ℕ)
        → p < size
        → is_out w p ≡ true
        → (w.reduces p).reduce_replies ≡ total (λ c. bit (w.taken c)) (kids p)
    pub once :
        w.spoiled ≡ false
        → (c p : ℕ) → c < size
        → parent c ≡ some p
        → w.gave c ≡ (if is_out w p then length (w.results c) + bit (w.taken c) else w.gave p)
    pub root_new : w.spoiled ≡ false → is_out w 0 ≡ true → w.gave 0 ≡ 0
    pub root_sends : w.results 0 ≡ []
    pub sum :
        w.spoiled ≡ false
        → is_out w 0 ≡ true
        → total w.given (ranks_from 0 size) ≡ total (held w) (ranks_from 0 size)
    pub marked : w.spoiled ≡ true → is_out w 0 ≡ true → 0 < total (marks w) (ranks_from 0 size)
