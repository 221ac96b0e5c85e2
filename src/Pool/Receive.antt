-- ===== src/Pool/Receive.antt =====
-- Asking and taking in, on one rank.
use circle.Prelude.{
  ℕ, ◌≡◌, ◌⊎◌, inl, inr, refl, sym, ap, ◌∙◌, Bool-cases, Option-cases, Bool, true, false, List, [],
  none, some, arith, subst,
}
use circle.Queue.{Queue}
use circle.Queue.Layout.{contents, IsValid, Layout, items}
use circle.State.{State}
use circle.Work.{extend_offsets}
use circle.Receive.{work_receive, check_reply, ask, request_work}
use circle.Receive.Exchange.{work_receive-some}
use circle.Loop.Working.{WaitsEmpty}
use circle.Pool.{Parcel, is_work}
use circle.Pool.Share.{strings_of, InOrder}

-- A valid queue without strings begins at the start of its pool.
pub empty_head : (q : Queue) → IsValid q → q.count ≡ 0 → (q.head ≡ 0) × (contents q ≡ [])
empty_head q v e = (
  subst (λ n. Layout q.strings.cell n q.head) e v.layout,
  ap (λ n. items q.base.cell q.strings.cell n q.head) e,
)

work_receive-nothing :
    (page_size : ℕ) (s : State) (source : ℕ) (ints cs : List ℕ)
    → is_work ints ≡ false
    → (work_receive page_size true s source ints cs).1.queue ≡ s.queue
unfolding work_receive extend_offsets
work_receive-nothing page_size s source ints cs e = ground (arith, e)

module _ (rand_r : ℕ → ℕ × ℕ) (fuel page_size : ℕ) where
  pub request_work-none :
      (s : State) (cleanup : Bool)
      → WaitsEmpty s
      → (s.queue.count ≡ 0) ⊎ (cleanup ≡ true)
      → let s1 = (request_work rand_r fuel page_size true s cleanup none).1 in
        (s1.queue ≡ s.queue) × WaitsEmpty s1
  unfolding request_work check_reply ask
  request_work-none s cleanup waits may = elim (Option-cases s.work.next_processor) [
    | inl e ↦ ground (arith, e, waits, may)
    | inr (r, e) ↦ ground (arith, e, waits, may)
  ]

  asked_before :
      (s : State) (cleanup : Bool) (ints cs : List ℕ)
      → s.work.work_requested ≡ true
      → let s1 = (request_work rand_r fuel page_size true s cleanup (some (ints, cs))).1 in
        (s1.queue ≡ (work_receive page_size true s s.work.work_requested_rank ints cs).1.queue)
        × (s1.work.work_requested ≡ false)
  unfolding request_work check_reply
  asked_before s cleanup ints cs asked = ground (arith, asked)

  pub request_work-some :
      (s : State) (cleanup : Bool) (p : Parcel)
      → IsValid s.queue
      → s.work.work_requested ≡ true
      → s.queue.count ≡ 0
      → InOrder page_size p
      → let s1 = (request_work rand_r fuel page_size true s cleanup (some (p.ints, p.chars))).1 in
        IsValid s1.queue
        × (contents s1.queue ≡ strings_of page_size p)
        × (s1.work.work_requested ≡ false)
  request_work-some s cleanup p v asked empty o =
      let e = empty_head s.queue v empty in
      let (same, over) = asked_before s cleanup p.ints p.chars asked in
      elim (Bool-cases (is_work p.ints)) [
        | inl w ↦
            let (q1, took, valid, holds) = o.fits w s.queue e.0 in
            let got =
              work_receive-some page_size s s.work.work_requested_rank p.ints p.chars q1 o.there
                (ground (arith, w)) (o.small w) took in
            let q : (request_work rand_r fuel page_size true s cleanup
                  (some (p.ints, p.chars))).1.queue
                ≡ q1 =
              same ∙ got.1 in
            (subst IsValid (sym q) valid, ap contents q ∙ holds, over)
        | inr n ↦
            let q =
              same ∙ work_receive-nothing page_size s s.work.work_requested_rank p.ints p.chars n in
            let none_in : strings_of page_size p ≡ [] = rw n refl in
            (subst IsValid (sym q) v, ap contents q ∙ (e.1 ∙ sym none_in), over)
      ]
