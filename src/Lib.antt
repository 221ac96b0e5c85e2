-- ===== src/Lib.antt =====
-- Circle, a library for distributed queues over MPI: each rank keeps a queue of work items and runs
-- a loop that processes them, gives some to ranks that ask, asks others when it has none, and finds
-- out together with them when all is done. This library models what a rank computes; MPI is what
-- carries the messages between the ranks.
--
-- What stands where:
--   Queue        src/queue.cpp, include/queue.hpp: `Queue`, its growth, `push`, `pop`, `lastSize`,
--                `dump`, `print`
--   Checkpoint   src/queue.cpp, src/circle.cpp: `write`, `read`, `checkpoint`, `readRestarts`
--   Tree         src/tree_state.cpp: `TreeState`, the k-ary tree of ranks
--   State        include/token.hpp, src/state.cpp: the data of `State`, its constructor,
--                `getNextProc`, and the messages by tag
--   Token        src/state.cpp: `tokenIsSend`, `tokenRecv`, `tokenCheck`, `checkForTerm`
--   Term         src/state.cpp: `checkForTermAllReduce`
--   Barrier      src/state.cpp: `barrierStart`, `barrierTest`
--   Abort        src/state.cpp: `abortStart`, `abortCheck`, `abortReduce`
--   Reduce       src/state.cpp, src/circle.cpp: `reduceCheck`, `reduceSync`, `Circle::reduce`
--   Work         src/state.cpp: `extendOffsets`, `spread_counts`, `sendNoWork`, `sendWork`,
--                `sendWorkToMany`, `workreqCheck`, `workreceiptCheck`
--   Receive      src/state.cpp: `workReceive`, `requestWork`
--   Pool         src/state.cpp: the work of all ranks, in their queues and under way
--   Traffic      src/state.cpp: the same with the requests and the receipts under way
--   Wave         src/state.cpp: `reduceCheck` on all ranks
--   Loop         src/state.cpp: `mainLoop`
--   Flags        include/lanl_circle.hpp, include/lanl_circle.h: `RuntimeFlags` with its operators,
--                `LogLevel`, and the enumerations of C
--   Setup        src/circle.cpp: `GlobalInit`, `circle::init`
--   Instance     src/circle.cpp, include/circle.hpp, src/lanl_circle.cpp: `CircleImpl`, `Circle`,
--                `execute`, `printSummary`, and the C interface
--   Gather       what `barrierTest` and `checkForTermAllReduce` have in common on a tree of ranks,
--                as an abstract protocol with its messages under way; Barrier and Term show that
--                their handlers, on all ranks, move as it does
--   Job          src/state.cpp: `abortReduce` and `reduceSync` over the whole tree of ranks
--   Python       src/python/lanl_circle.cpp: the functions of the Python module
--   Api          src/circle.cpp, src/lanl_circle.cpp: the queue for the user's callbacks
-- Prelude and Buffer hold what these share, and Examples the data of the tests. The children of a
-- module hold its proofs.
--
-- How the parts interact: `Loop` calls the handlers of the other parts on one `State`, in the order
-- of the source. A handler takes the part of the state that it reads, and what its probes find as
-- further arguments (a flag, an optional message, a list of messages in order of arrival). It
-- returns the new state and the messages that it sends, each with the rank that it goes to. So a
-- run of a rank is a list of what its rounds find. Token.Ring lets all ranks of the ring move in
-- any order, Barrier.System and Term.System do so with the ranks of the tree, with one barrier and
-- one allreduce, Pool and Traffic with the handlers of work, Wave with the periodic reduction,
-- Abort.System with the broadcast of an abort, and Job puts the messages of all ranks of the tree
-- together. Loop.Main composes the loops, and Instance.Execute puts a run together from the
-- constructor to the summary.
--
-- Parameters: the page size of `sysconf`, `rand_r` as a function from a seed to a number and the
-- next seed, whether `realloc` of the offset arrays succeeds, the calls on a checkpoint file that
-- succeed, the clock, and the user's callbacks: `process` is a function on the queue, those of the
-- reduction are functions on its buffer.
--
-- Bounds and fuel: sums on `size_t` and `uintptr_t` are reduced modulo 2 ^ 64, a length in `push`
-- is cut to 32 bits, and an `int` in a message is its 32-bit pattern. `count`, ranks and the
-- numbers of replies are `int`s that stay in range, and are plain numbers, as are the counters. The
-- numbers of the children that the constructor of `TreeState` computes are 32-bit patterns too,
-- which wrap for a very large width. Wave, Barrier.System, Term.System and Abort.System take the
-- tree in plain numbers (`tree_parent` and `tree_kids` of Tree.Family), which is the one that the
-- constructor computes on each rank whose numbers stay in range. The size of the reduction buffer
-- is taken to fit an `int`. The loops of `extend` and `extendStr` get as fuel one more than the
-- amount, which is enough since each round adds at least one; the loop of `write` gets one more
-- than `count`. The loop of `getNextProc` has an argument as fuel, since it ends only if the
-- generator draws another rank.
--
-- Not modelled: MPI itself; the error handler, which only aborts; the text of the log and of the
-- summary; destructors and the failure of `malloc`, which end the job; the binding for Fortran;
-- stack traces; the experiment under experimental/.
pub mod Prelude
pub mod Buffer
pub mod Queue
pub mod Checkpoint
pub mod Tree
pub mod State
pub mod Token
pub mod Term
pub mod Flags
pub mod Setup
pub mod Gather
pub mod Barrier
pub mod Abort
pub mod Reduce
pub mod Work
pub mod Receive
pub mod Pool
pub mod Api
pub mod Loop
pub mod Instance
pub mod Job
pub mod Examples
pub mod Traffic
pub mod Wave
pub mod Python
