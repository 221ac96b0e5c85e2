-- ===== src/Token/Rules.antt =====
-- What the token does on one rank.
use circle.Prelude.{
  ℕ, zero, suc, ◌+◌, ◌-◌, ◌≤◌, ◌≡◌, ◌≢◌, ◌↔◌, ◌⊎◌, Bool, true, false, [], ◌∷◌, Option, none, some,
  arith, length, ltb, if◌then◌else◌,
}
use circle.State.{Color, white, terminate, TokenState, Message}
use circle.Token.{check_for_term, ends_run}

-- How many tokens a rank holds.
abbrev pub held : TokenState → ℕ
held t = elim t.token_is_local [ true ↦ 1 | false ↦ 0 ]

abbrev pub arriving : Option Color → ℕ
arriving none = 0
arriving (some _) = 1

-- On a rank that has not terminated a check neither makes up nor loses a token: what the rank holds
-- and sends afterwards is what it held and received. A token arrives only at a rank that holds none.
pub check_for_term_conserves :
    (rank size : ℕ) (aborted : Bool) (t : TokenState) (incoming : Option Color)
    → t.token_proc ≢ terminate
    → held t + arriving incoming ≤ 1
    → let (_, t1, sent) = check_for_term rank size aborted t incoming in
      held t1 + length sent ≡ held t + arriving incoming
unfolding check_for_term
check_for_term_conserves rank size aborted t none running one = ground arith
check_for_term_conserves rank size aborted t (some c) running one = ground arith

-- A check reports termination in two cases only: the rank has terminated before, or it holds no
-- token and one arrives that ends the run. That is the terminate token, or at rank 0 a white one.
pub check_for_term_terminates :
    (rank size : ℕ) (aborted : Bool) (t : TokenState) (incoming : Option Color)
    → ((check_for_term rank size aborted t incoming).0 ≡ terminate) ↔ (
        (t.token_proc ≡ terminate)
        ⊎ ((t.token_is_local ≡ false)
            × ((incoming ≡ some terminate) ⊎ ((rank ≡ 0) × (incoming ≡ some white)))))
unfolding check_for_term
check_for_term_terminates rank size aborted t none = ground arith
check_for_term_terminates rank size aborted t (some c) = ground arith

-- A rank in the middle of the ring that learns of the termination tells its successor, once, unless
-- it has aborted; the last rank tells nobody.
pub terminate_forwarded :
    (rank size : ℕ) (t : TokenState) (c : Color)
    → t.token_proc ≢ terminate
    → t.token_is_local ≡ false
    → ends_run rank c ≡ true
    → let (_, t1, sent) = check_for_term rank size false t (some c) in
      (t1.token_proc ≡ terminate)
      × (sent ≡ (if ltb rank (size - 1) then (t.token_dest, Message.token terminate) ∷ [] else []))
unfolding check_for_term
terminate_forwarded rank size t c running away ends = ground arith

-- `n` checks of a rank with the abort flag, while no token arrives.
abbrev pub checks : ℕ → ℕ → ℕ → TokenState → TokenState
checks zero rank size t = t
checks (suc n) rank size t = (check_for_term rank size true (checks n rank size t) none).1

Stays : TokenState → Type 0
Stays t = (t.token_is_local ≡ true) × (t.token_proc ≢ terminate)

check-Stays :
    (rank size : ℕ) (t : TokenState) → Stays t → Stays (check_for_term rank size true t none).1
unfolding check_for_term Stays
check-Stays rank size t h = ground arith

checks-Stays : (n rank size : ℕ) (t : TokenState) → Stays t → Stays (checks n rank size t)
checks-Stays zero rank size t h = h
checks-Stays (suc n) rank size t h =
    check-Stays rank size (checks n rank size t) (checks-Stays n rank size t h)

check_quiet :
    (rank size : ℕ) (t : TokenState)
    → Stays t
    → let (result, _, sent) = check_for_term rank size true t none in (result ≡ white) × (sent ≡ [])
unfolding check_for_term Stays
check_quiet rank size t h = ground arith

-- A rank with the abort flag that holds the token and has not terminated keeps it: no number of
-- further checks reports termination or sends anything.
pub aborted_holder_stuck :
    (n rank size : ℕ) (t : TokenState)
    → t.token_is_local ≡ true
    → t.token_proc ≢ terminate
    → let (result, _, sent) = check_for_term rank size true (checks n rank size t) none in
      (result ≡ white) × (sent ≡ [])
unfolding Stays
aborted_holder_stuck n rank size t here running =
    check_quiet rank size (checks n rank size t) (checks-Stays n rank size t (here, running))
