-- ===== src/Reduce/Whole.antt =====
-- Whole reductions: several checks of one rank, from the start to the result.
use circle.Prelude.{
  bit, ℕ, ◌+◌, ◌≡◌, ◌≢◌, refl, Bool, true, false, not, ◌&&◌, List, [], ◌∷◌, ◌++◌, Option, none,
  some, arith, length, take, if◌then◌else◌,
}
use circle.State.{ReduceState, Message, Send, to_children}
use circle.Reduce.{Reply, Callbacks, circle_reduce, send_result, deliver, is_asked, reduce_check}
use circle.Reduce.Rules.{
  present, all_valid, objects_of, Progress, take_replies-Progress, take_replies-Adds,
  start-Progress,
}

-- A check of an outstanding reduction takes the replies that are there. While one is missing it
-- sends and delivers nothing. With the last one the reduction is over, and the parent gets one
-- result: valid if every reply was valid, and with the objects of the valid replies and the rank's
-- own count.
pub reduce_check-Progress :
    (cb : Callbacks) (p : ℕ) (kids : List ℕ) (r : ReduceState) (count : ℕ) (cleanup : Bool)
    (ms : List (Option Reply)) (now : ℕ) (pm : Bool) (received : List Reply)
    → Progress r received
    → let (r1, sent, result) = reduce_check cb (some p) kids r count cleanup ms now pm in
      let all = received ++ present ms in
      (length all ≢ length kids → Progress r1 all × (sent ≡ []) × (result ≡ none))
      × (length all ≡ length kids
          → (r1.reduce_outstanding ≡ false)
            × (take 1 sent
                ≡ (
                  p,
                  Message.reduce_result (all_valid all) (objects_of all + count) r1.reduce_buf_size,
                )
                  ∷ []))
unfolding reduce_check send_result
reduce_check-Progress cb p kids r count cleanup ms now pm received pr =
    let t = take_replies-Progress cb r received ms pr in
    (λ ne. ground (arith, t), λ e. (ground (arith, t), ground (arith, t)))

-- On the root the last reply ends the reduction, and a result is delivered exactly if all replies
-- were valid: the objects of all of them with the rank's own count.
pub reduce_check_root :
    (cb : Callbacks) (kids : List ℕ) (r : ReduceState) (count : ℕ) (cleanup : Bool)
    (ms : List (Option Reply)) (now : ℕ) (pm : Bool) (received : List Reply)
    → Progress r received
    → length (received ++ present ms) ≡ length kids
    → let (r1, sent, result) = reduce_check cb none kids r count cleanup ms now pm in
      let all = received ++ present ms in
      (r1.reduce_outstanding ≡ false)
      × (sent ≡ [])
      × (result ≡ (
          if all_valid all
          then some (record {
            total = objects_of all + count;
            delivered = if cb.finalize then some (take r1.reduce_buf_size r1.reduce_buf) else none;
          })
          else none))
unfolding reduce_check deliver
reduce_check_root cb kids r count cleanup ms now pm received pr e =
    ground (arith, take_replies-Progress cb r received ms pr)

-- The results that a list of messages carries to the parent.
abbrev pub results : List Send → ℕ
results [] = 0
results ((_, Message.reduce_result _ _ _) ∷ ms) = 1 + results ms
results (_ ∷ ms) = results ms

results-to_children : (kids : List ℕ) → results (to_children kids Message.reduce_start) ≡ 0
results-to_children [] = refl
results-to_children (k ∷ kids) = results-to_children kids

-- Away from the root every request of the parent is answered by one result: a check that takes a
-- request makes the reduction outstanding or, in cleanup, answers at once; otherwise a result goes
-- up exactly when an outstanding reduction ends.
pub reduce_check_answers :
    (cb : Callbacks) (p : ℕ) (kids : List ℕ) (r : ReduceState) (count : ℕ) (cleanup : Bool)
    (ms : List (Option Reply)) (now : ℕ) (pm : Bool)
    → let (r1, sent, _) = reduce_check cb (some p) kids r count cleanup ms now pm in
      results sent + bit r1.reduce_outstanding
      ≡ bit r.reduce_outstanding
        + bit (not r.reduce_outstanding && is_asked (some p) cleanup now pm r)
unfolding reduce_check send_result
reduce_check_answers cb p kids r count cleanup ms now pm =
    ground
      (arith, take_replies-Adds cb ms r, results-to_children kids, start-Progress cb kids now r)

-- In cleanup no reduction is begun, whatever the clock and the parent say: the children hear
-- nothing, and the user's buffer is left alone.
pub reduce_check_cleanup :
    (cb : Callbacks) (parent : Option ℕ) (kids : List ℕ) (r : ReduceState) (count : ℕ)
    (ms : List (Option Reply)) (now : ℕ) (pm : Bool)
    → r.reduce_outstanding ≡ false
    → let (r1, sent, result) = reduce_check cb parent kids r count true ms now pm in
      (r1.reduce_outstanding ≡ false)
      × (r1.reduce_buf ≡ r.reduce_buf)
      × (result ≡ none)
      × (sent ≡ (elim parent [
        | none ↦ []
        | some p ↦
            if is_asked (some p) true now pm r
            then (p, Message.reduce_result false r.result_objects r.result_bytes) ∷ []
            else []
      ]))
unfolding reduce_check
reduce_check_cleanup cb none kids r count ms now pm e = ground arith
reduce_check_cleanup cb (some p) kids r count ms now pm e = ground arith

-- `Circle::reduce` with no data drops the buffer but not its size: the next result announces the
-- bytes of the old buffer, and no byte is there to follow.
pub stale_size :
    (r : ReduceState) (p : ℕ)
    → ((circle_reduce [] r).reduce_buf ≡ [])
      × (take 1 (send_result p true (circle_reduce [] r))
          ≡ (p, Message.reduce_result r.result_valid r.result_objects r.reduce_buf_size) ∷ [])
unfolding circle_reduce send_result
stale_size r p = (refl, refl)
