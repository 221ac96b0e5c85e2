-- ===== src/Job/Totals.antt =====
-- The final reduction counts the work of all ranks.
use circle.Prelude.{ℕ, ◌+◌, ◌≡◌, refl, ap, ◌∙◌, List, [], ◌∷◌, Option, none, some, true, arith}
use circle.State.{ReduceState}
use circle.Reduce.{
  Callbacks, Reply, Result, call_init, call_operation, circle_reduce, take_all_replies, send_result,
  reduce_sync, deliver,
}
use circle.Job.{
  Subtree, Subtrees, node, no_more, child, reply_of, result_up, results_up, final_result,
}

-- The items that the ranks have processed.
abbrev mutual
  pub processed : Subtree → ℕ
  processed (node s kids) = s.work.local_objects_processed + processed_below kids

  pub processed_below : Subtrees → ℕ
  processed_below no_more = 0
  processed_below (child t ts) = processed t + processed_below ts

-- The sum of what replies count, valid or not.
abbrev counted : List Reply → ℕ
counted [] = 0
counted (m ∷ ms) = m.objects + counted ms

objects-call_init :
    (cb : Callbacks) (r : ReduceState) → (call_init cb r).result_objects ≡ r.result_objects
unfolding call_init circle_reduce
objects-call_init cb r = ground arith

objects-call_operation :
    (cb : Callbacks) (bytes : List ℕ) (r : ReduceState)
    → (call_operation cb bytes r).result_objects ≡ r.result_objects
unfolding call_operation circle_reduce
objects-call_operation cb bytes r = ground arith

objects-take_all_replies :
    (cb : Callbacks) (ms : List Reply) (r : ReduceState)
    → (take_all_replies cb r ms).result_objects ≡ r.result_objects + counted ms
unfolding take_all_replies
objects-take_all_replies cb [] r = omega arith
objects-take_all_replies cb (m ∷ ms) r =
    let r1 : ReduceState = record r { result_objects = r.result_objects + m.objects } in
    omega (
      arith,
      objects-take_all_replies cb ms (call_operation cb m.bytes r1),
      objects-call_operation cb m.bytes r1,
    )

objects-replies :
    (cb : Callbacks) (r : ReduceState) (count : ℕ) (ms : List Reply)
    → let fresh : ReduceState = record r {
      result_valid = true;
      result_objects = count;
      result_bytes = 0;
    } in
      (take_all_replies cb (call_init cb fresh) ms).result_objects ≡ count + counted ms
objects-replies cb r count ms =
    let fresh : ReduceState = record r {
      result_valid = true;
      result_objects = count;
      result_bytes = 0;
    } in
    omega (arith, objects-take_all_replies cb ms (call_init cb fresh), objects-call_init cb fresh)

objects-reduce_sync :
    (cb : Callbacks) (parent : Option ℕ) (r : ReduceState) (count : ℕ) (ms : List Reply)
    → (reduce_sync cb parent r count ms).0.result_objects ≡ count + counted ms
unfolding reduce_sync
objects-reduce_sync cb none r count ms = objects-replies cb r count ms
objects-reduce_sync cb (some p) r count ms = objects-replies cb r count ms

mutual
  unfolding result_up reduce_sync send_result

  objects-result_up :
      (cb : Callbacks) (p : ℕ) (t : Subtree) → (reply_of (result_up cb p t)).objects ≡ processed t
  objects-result_up cb p (node s kids) =
      objects-reduce_sync cb (some p) s.reduces s.work.local_objects_processed
        (results_up cb s.rank kids)
      ∙ ap (◌+◌ s.work.local_objects_processed) (counted-results_up cb s.rank kids)

  counted-results_up :
      (cb : Callbacks) (p : ℕ) (ts : Subtrees) → counted (results_up cb p ts) ≡ processed_below ts
  counted-results_up cb p no_more = refl
  counted-results_up cb p (child t ts) =
      omega (arith, objects-result_up cb p t, counted-results_up cb p ts)

-- At the end of a run the root delivers a result, whose number of objects is the sum of what all
-- ranks of the tree have processed; no reply is left out or counted twice.
pub final_result-processed :
    (cb : Callbacks) (t : Subtree)
    → (r : Result) × (final_result cb t ≡ some r) × (r.total ≡ processed t)
unfolding final_result reduce_sync deliver
final_result-processed cb (node s kids) = (
  _,
  refl,
  objects-reduce_sync cb none s.reduces s.work.local_objects_processed (results_up cb s.rank kids)
      ∙ ap (◌+◌ s.work.local_objects_processed) (counted-results_up cb s.rank kids),
)
