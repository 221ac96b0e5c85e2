-- ===== src/Receive.antt =====
-- src/state.cpp, `workReceive` and `requestWork`: a rank without work asks another, and takes in
-- what it gets. `ints` and `chars` are the messages that a reply is made of, the second of which
-- follows only if there is work; `next` is what `getNextProc` is given.
pub mod Split
pub mod Transfer
pub mod Exchange
pub mod Requests
pub mod Conserve
mod Tests
use circle.Prelude.{
  ℕ, zero, suc, ◌+◌, ◌-◌, ◌^◌, Bool, true, false, not, ◌&&◌, ◌||◌, List, [], ◌∷◌, Option, none,
  some, ltb, ◌==◌, if◌then◌else◌, length, get_or,
}
use circle.Buffer.{Buffer, put, copy_in}
use circle.Queue.{Queue, Status, success, failure, u64, extend, extend_str}
use circle.State.{State, AbortState, WorkState, Message, Send, get_next_proc}
use circle.Work.{payload_abort, extend_offsets}

-- What the source returns: 0, PAYLOAD_ABORT, -1 for a negative count, or not at all since it ends
-- the job by MPI_Abort.
pub data Outcome : Type 0 where
  received aborted bad_count job_ends : Outcome

-- `(uintptr_t)` of an `int` pattern.
abbrev pub sign_extend : ℕ → ℕ
sign_extend w = if ltb w (2 ^ 31) then w else w + (2 ^ 64 - 2 ^ 32)

-- `strings[i] = offsets_recv_buf[i + 2]`, for `n` indices from `i` on.
unfoldable pub set_offsets : Buffer → List ℕ → ℕ → ℕ → Buffer
set_offsets strings ints i zero = strings
set_offsets strings ints i (suc n) =
    set_offsets (put strings i (sign_extend (get_or ints (i + 2) 0))) ints (i + 1) n

-- Room for `count` strings.
unfoldable pub room_strings : Queue → ℕ → Queue
room_strings q count = if ltb q.strings.size count then (extend_str q count).1 else q

module _ (page_size : ℕ) where
  -- Room for `bytes` more bytes in the pool.
  unfoldable pub room_base : Queue → ℕ → Queue
  room_base q bytes =
      let new_bytes = u64 (q.head + sign_extend bytes) in
      if ltb q.base.size new_bytes then (extend page_size q new_bytes).1 else q

  -- The work goes to the start of the pool. `none` if the first string does not begin there.
  unfoldable pub take_in : Queue → List ℕ → List ℕ → Option Queue
  unfolding room_base room_strings set_offsets
  take_in q ints chars =
      let items = get_or ints 0 0 in
      let bytes = get_or ints 1 0 in
      let q1 = room_strings (room_base q bytes) items in
      let strings = set_offsets q1.strings ints 0 items in
      if strings.cell 0 == 0
      then some (record {
        base = copy_in q1.base 0 chars;
        head = u64 (q1.head + sign_extend bytes);
        strings = strings;
        count = items;
      })
      else none

  module _ (allocates : Bool) where
    unfoldable pub work_receive : State → ℕ → List ℕ → List ℕ → Outcome × State × List Send
    work_receive s source ints chars =
        let (there, w1) = extend_offsets allocates (length ints) s.work in
        let s1 : State = record s { work = w1 } in
        let items = get_or ints 0 0 in
        let taken : Outcome × State × List Send = elim (take_in s.queue ints chars) [
          | none ↦ (job_ends, s1, [])
          | some q ↦ (received, record s1 { queue = q }, (source, Message.work_receipt) ∷ [])
        ] in
        if length ints == 0
        then (job_ends, s, [])
        else if not there
        then (job_ends, s1, [])
        else if items == 0
        then (
          received,
          record s1 { work = record w1 { local_no_work_received = w1.local_no_work_received + 1 } },
          [],
        )
        else if items == payload_abort
        then (aborted, record s1 { aborts = record s1.aborts { abort_flag = true } }, [])
        else if ltb items (2 ^ 31)
        then taken
        else (bad_count, s1, [])

-- A reply: its `int`s, and its bytes.
abbrev pub WorkReply : Type 0
WorkReply = List ℕ × List ℕ

module _ (rand_r : ℕ → ℕ × ℕ) (fuel page_size : ℕ) (allocates : Bool) where
  -- The reply of the rank that was asked, if it is there.
  unfoldable pub check_reply : State → Option WorkReply → Outcome × State × List Send
  check_reply s none = (received, s, [])
  check_reply s (some (ints, chars)) =
      let (rc, s1, sent) =
        work_receive page_size allocates s s.work.work_requested_rank ints chars in
      (rc, record s1 { work = record s1.work { work_requested = false } }, sent)

  -- A request to the next rank, if there is one.
  unfoldable pub ask : State → Option ℕ → State × List Send
  ask s none = (s, [])
  ask s (some source) =
      let w : WorkState = record s.work {
        local_work_requested = s.work.local_work_requested + 1;
        work_requested = true;
        work_requested_rank = source;
      } in
      (
        record s { work = get_next_proc rand_r fuel s.size s.rank w },
        (source, Message.work_request) ∷ [],
      )

  unfoldable pub request_work : State → Bool → Option WorkReply → Outcome × State × List Send
  request_work s cleanup reply =
      let (s1, sent) = ask s s.work.next_processor in
      if s.work.work_requested
      then check_reply s reply
      else if not cleanup && not s.aborts.abort_flag
      then (received, s1, sent)
      else (received, s, [])
