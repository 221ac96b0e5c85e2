-- ===== src/Work.antt =====
-- src/state.cpp, `extendOffsets`, `spread_counts`, `sendNoWork`, `sendWork`, `sendWorkToMany`,
-- `workreceiptCheck`, `workreqCheck`: a rank serves requests for work. An `int` in a message is its
-- 32-bit pattern. `allocates` says whether `realloc` and `malloc` return memory.
pub mod Spread
pub mod Shares
pub mod Serve
mod Tests
use circle.Prelude.{
  ℕ, zero, suc, ◌+◌, ◌-◌, ◌*◌, ◌/◌, ◌%◌, ◌^◌, Bool, true, false, not, ◌&&◌, ◌||◌, List, [], ◌∷◌,
  ◌++◌, Option, none, some, ltb, leb, ◌==◌, if◌then◌else◌, length, set, get_or, replicate,
}
use circle.Buffer.{slice}
use circle.Queue.{Queue, sub_u64}
use circle.State.{State, WorkState, TermState, black, Message, Send}

-- The cast of a number to `int`, as a pattern, and PAYLOAD_ABORT, which is -32.
abbrev pub to_int : ℕ → ℕ
to_int n = n % 2 ^ 32

abbrev pub payload_abort : ℕ
payload_abort = 2 ^ 32 - 32

-- `while (count < size) count += 4096`, on fuel.
unfoldable pub grow_offsets : ℕ → ℕ → ℕ → ℕ
grow_offsets zero count size = count
grow_offsets (suc fuel) count size =
    let rest = grow_offsets fuel (count + 4096) size in if ltb count size then rest else count

-- The result is whether the arrays are there. The new length is recorded in either case.
unfoldable pub extend_offsets : Bool → ℕ → WorkState → Bool × WorkState
extend_offsets allocates size w =
    if leb size w.offsets_count
    then (true, w)
    else (allocates, record w { offsets_count = grow_offsets (size + 1) w.offsets_count size })

-- `sizes[i] = v` for `n` indices from `i` on.
unfoldable pub fill_counts : ℕ → ℕ → ℕ → List ℕ → List ℕ
fill_counts zero i v sizes = sizes
fill_counts (suc n) i v sizes = fill_counts n (i + 1) v (set sizes i v)

-- The two loops of `spread_counts`.
unfoldable pub spread_counts : List ℕ → ℕ → ℕ → List ℕ
spread_counts sizes ranks count =
    let base = count / ranks in
    let extra = count - base * ranks in
    fill_counts (ranks - extra) extra base (fill_counts extra 0 (base + 1) sizes)

-- One `int` is sent: 0, or the code that kills the job.
unfoldable pub send_no_work : State → ℕ → List Send
send_no_work s dest =
    (dest, Message.work_reply ((if s.aborts.abort_flag then payload_abort else 0) ∷ [])) ∷ []

-- Where `n` strings from index `i` on begin, counted from `start`.
unfoldable pub send_offsets : (ℕ → ℕ) → ℕ → ℕ → ℕ → List ℕ
send_offsets strings start i zero = []
send_offsets strings start i (suc n) =
    to_int (sub_u64 (strings i) start) ∷ send_offsets strings start (i + 1) n

-- The process turns black if it sends to a lower rank or to the rank that its token comes from.
unfoldable pub blacken : State → ℕ → State
blacken s dest =
    if ltb dest s.rank || (dest == s.tokens.token_src)
    then record s { tokens = record s.tokens { token_proc = black } }
    else s

-- The two messages that carry the last `count` strings of a queue.
unfoldable pub work_messages : Queue → ℕ → ℕ → List Send
work_messages q dest count =
    let start_elem = q.count - count in
    let start_offset = q.strings.cell start_elem in
    let bytes = to_int (sub_u64 q.head start_offset) in
    (
      dest,
      Message.work_reply
          (to_int count ∷ bytes ∷ send_offsets q.strings.cell start_offset start_elem count),
    )
    ∷ (dest, Message.work_chars (slice q.base.cell start_offset bytes))
    ∷ []

unfoldable pub send_no_work_to_all : State → List ℕ → List Send
send_no_work_to_all s [] = []
send_no_work_to_all s (r ∷ requestors) = send_no_work s r ++ send_no_work_to_all s requestors

-- The queue without its last `count` strings.
unfoldable pub without_last : Queue → ℕ → Queue
without_last q count = record q { count = q.count - count; head = q.strings.cell (q.count - count) }

module _ (allocates : Bool) where
  -- The first part of the result is whether `sendWork` returns 0.
  unfoldable pub send_work : State → ℕ → ℕ → Bool × State × List Send
  unfolding blacken work_messages without_last send_no_work
  send_work s dest count =
      let s1 = blacken s dest in
      let (there, w1) = extend_offsets allocates (2 + count) s1.work in
      let s2 : State = record s1 { work = w1 } in
      let s3 : State = record s2 {
        queue = without_last s.queue count;
        terms = record s2.terms { work_outstanding = s2.terms.work_outstanding + 1 };
      } in
      if count == 0
      then (true, s, send_no_work s dest)
      else if there
      then (true, s3, work_messages s.queue dest count)
      else (false, s2, [])

  -- The loop of `sendWorkToMany`: each requestor gets the next share.
  unfoldable pub send_shares : State → List ℕ → List ℕ → State × List Send
  send_shares s [] sizes = (s, [])
  send_shares s (r ∷ requestors) [] = (s, [])
  send_shares s (r ∷ requestors) (n ∷ sizes) =
      let (_, s1, sent) = send_work s r n in
      let (s2, rest) = send_shares s1 requestors sizes in (s2, sent ++ rest)

-- How many of `count` items go away at random: at least one, and not all. `number` is the result of
-- `rand_r`.
unfoldable pub random_amount : ℕ → ℕ → ℕ
random_amount number count =
    let send_count = number % count + 1 in
    if send_count == count then send_count - 1 else send_count

-- The array `sizes` of `sendWorkToMany`: first what this rank keeps, then the requestors' shares.
-- The first argument is SPLIT_EQUAL.
unfoldable pub shares : Bool → ℕ → ℕ → ℕ → List ℕ
shares equal number rcount count =
    let send_count = random_amount number count in
    if equal
    then spread_counts (replicate (rcount + 1) 0) (rcount + 1) count
    else (count - send_count) ∷ spread_counts (replicate rcount 0) rcount send_count

abbrev pub tail : List ℕ → List ℕ
tail [] = []
tail (x ∷ xs) = xs

-- The generator is used only for a random split.
unfoldable pub reseed : State → ℕ → State
reseed s next_seed =
    if s.split_equal then s else record s { work = record s.work { seed = next_seed } }

module _ (rand_r : ℕ → ℕ × ℕ) (allocates : Bool) where
  -- With no requestor the program exits; the caller never asks that. Nor does `malloc` fail: the job
  -- would be killed.
  unfoldable pub send_work_to_many : State → List ℕ → State × List Send
  send_work_to_many s requestors =
      let (number, next_seed) = rand_r s.work.seed in
      send_shares allocates (reseed s next_seed) requestors
        (tail (shares s.split_equal number (length requestors) s.queue.count))

  -- `requestors` are the ranks whose requests the probes find, in order.
  unfoldable pub workreq_check : State → List ℕ → Bool → State × List Send
  workreq_check s [] cleanup = (s, [])
  workreq_check s (r ∷ requestors) cleanup =
      if (s.queue.count == 0) || cleanup || s.aborts.abort_flag
      then (s, send_no_work_to_all s (r ∷ requestors))
      else send_work_to_many s (r ∷ requestors)

-- `n` receipts are found at most; each clears the flag of the termination allreduce.
unfoldable pub workreceipt_check : TermState → ℕ → TermState
workreceipt_check t zero = t
workreceipt_check t (suc n) =
    let t1 : TermState = record t {
      work_outstanding = t.work_outstanding - 1;
      term_flag = false;
    } in
    let rest = workreceipt_check t1 n in if ltb 0 t.work_outstanding then rest else t
