-- ===== src/Wave/Checks.antt =====
-- What one check of the periodic reduction returns.
use circle.Prelude.{
  ltb, ℕ, ◌+◌, ◌≡◌, refl, Bool, true, false, ◌&&◌, List, [], ◌∷◌, Option, none, some, arith, length,
  elem, bit, ◌==◌, ==→eq, if◌then◌else◌, NoDup, Bool-cases, inl, inr,
}
use circle.State.{ReduceState, Message, to_children}
use circle.Reduce.{
  Callbacks, Reply, Result, start, refuse, complete, send_result, deliver, is_asked, reduce_check,
  take_replies,
}
use circle.Reduce.Rules.{call_init-same}
use circle.Wave.{starts_to, results_in}

starts_to-to_children :
    (j : ℕ) (kids : List ℕ)
    → NoDup kids
    → starts_to j (to_children kids Message.reduce_start) ≡ bit (elem j kids)
starts_to-to_children j [] once = refl
starts_to-to_children j (c ∷ kids) once =
    ground (arith, starts_to-to_children j kids once.1, once.0, ==→eq c j)

results_in-to_children : (kids : List ℕ) → results_in (to_children kids Message.reduce_start) ≡ []
results_in-to_children [] = refl
results_in-to_children (c ∷ kids) = results_in-to_children kids

module _ (cb : Callbacks) where
  pub complete_waits :
      (parent : Option ℕ) (n count : ℕ) (r : ReduceState)
      → (r.reduce_replies == n) ≡ false
      → complete cb parent n count r ≡ (r, [], none)
  unfolding complete
  complete_waits parent n count r e = rw e refl

  -- What a rank below the root sends at the end.
  pub complete_ends :
      (p n count : ℕ) (r : ReduceState)
      → (r.reduce_replies == n) ≡ true
      → let (r1, sent, result) = complete cb (some p) n count r in
        (m : Reply) × (r1.reduce_outstanding ≡ false)
        × ((j : ℕ) → starts_to j sent ≡ 0)
        × (results_in sent ≡ m ∷ [])
        × (m.valid ≡ r.result_valid)
        × (m.objects ≡ r.result_objects + count)
        × (result ≡ none)
  unfolding complete send_result
  complete_ends p n count r e = elim (Bool-cases (ltb 0 r.reduce_buf_size && r.result_valid)) [
    | inl b ↦
        rw (e, b)
          (
            record { valid = r.result_valid; objects = r.result_objects + count; bytes = _ },
            refl,
            λ j. refl,
            refl,
            refl,
            refl,
            refl,
          )
    | inr b ↦
        rw (e, b)
          (
            record { valid = r.result_valid; objects = r.result_objects + count; bytes = _ },
            refl,
            λ j. refl,
            refl,
            refl,
            refl,
            refl,
          )
  ]

  pub complete_root :
      (n count : ℕ) (r : ReduceState)
      → (r.reduce_replies == n) ≡ true
      → let (r1, sent, result) = complete cb none n count r in
        (r1.reduce_outstanding ≡ false)
        × (sent ≡ [])
        × ((x : Result)
            → result ≡ some x
            → (r.result_valid ≡ true) × (x.total ≡ r.result_objects + count))
  unfolding complete deliver
  complete_root n count r e = rw e (refl, refl, λ x h. ground (arith, h))

  pub start_lem :
      (kids : List ℕ) (now : ℕ) (r : ReduceState)
      → NoDup kids
      → let (r1, sent, result) = start cb kids now r in
        (r1.reduce_outstanding ≡ true)
        × (r1.reduce_replies ≡ 0)
        × (r1.result_valid ≡ true)
        × (r1.result_objects ≡ 0)
        × ((j : ℕ) → starts_to j sent ≡ bit (elem j kids))
        × (results_in sent ≡ [])
        × (result ≡ none)
  unfolding start
  start_lem kids now r once =
      let same = call_init-same cb (record r {
        reduce_time_last = now;
        reduce_outstanding = true;
        reduce_replies = 0;
        result_valid = true;
        result_objects = 0;
        result_bytes = 0;
      }) in
      (
        same.outstanding,
        same.replies,
        same.valid,
        same.objects,
        λ j. starts_to-to_children j kids once,
        results_in-to_children kids,
        refl,
      )

  module _ (parent : Option ℕ) (kids : List ℕ) (r : ReduceState) (count : ℕ) (cleanup : Bool)
      (ms : List (Option Reply)) (now : ℕ) (pm : Bool) where
    pub check_out :
        r.reduce_outstanding ≡ true
        → reduce_check cb parent kids r count cleanup ms now pm
          ≡ complete cb parent (length kids) count (take_replies cb r ms)
    unfolding reduce_check
    check_out e = rw e refl

    pub check_not_asked :
        r.reduce_outstanding ≡ false
        → is_asked parent cleanup now pm r ≡ false
        → reduce_check cb parent kids r count cleanup ms now pm ≡ (r, [], none)
    unfolding reduce_check
    check_not_asked e a = rw (e, a) refl

    pub check_asked :
        r.reduce_outstanding ≡ false
        → is_asked parent cleanup now pm r ≡ true
        → reduce_check cb parent kids r count cleanup ms now pm
          ≡ (if cleanup then refuse parent r else start cb kids now r)
    unfolding reduce_check
    check_asked e a = rw (e, a) refl

  pub refuse_lem :
      (p : ℕ) (r : ReduceState)
      → let (r1, sent, result) = refuse (some p) r in
        (m : Reply) × (r1.reduce_outstanding ≡ r.reduce_outstanding)
        × ((j : ℕ) → starts_to j sent ≡ 0)
        × (results_in sent ≡ m ∷ [])
        × (m.valid ≡ false)
        × (result ≡ none)
  unfolding refuse
  refuse_lem p r =
      (record { valid = false; objects = _; bytes = _ }, refl, λ j. refl, refl, refl, refl)

  pub refuse_root : (r : ReduceState) → refuse none r ≡ (r, [], none)
  unfolding refuse
  refuse_root r = refl

  pub message_asked :
      (p : ℕ) (cleanup : Bool) (now : ℕ) (pm : Bool) (r : ReduceState)
      → is_asked (some p) cleanup now pm r ≡ true
      → pm ≡ true
  unfolding is_asked
  message_asked p cleanup now pm r e = ground (arith, e)
