-- ===== src/Token/Round.antt =====
-- One round of the token through idle ranks.
use circle.Prelude.{
  ℕ, ◌+◌, ◌<◌, ◌≡◌, ◌≢◌, ◌↔◌, refl, ◌∙◌, Bool, true, false, ◌||◌, List, [], ◌∷◌, ◌++◌, none, some,
  arith, if◌then◌else◌, All,
}
use circle.State.{Color, white, black, terminate, is_black, TokenState, Message, Send}
use circle.Token.{check_for_term}

-- An idle rank that the token comes to: one check receives it, the next sends it on.
unfoldable pub pass : ℕ → ℕ → TokenState → Color → TokenState × List Send
pass rank size t c =
    let (_, t1, sent1) = check_for_term rank size false t (some c) in
    let (_, t2, sent2) = check_for_term rank size false t1 none in (t2, sent1 ++ sent2)

-- Away from rank 0, a token that is not the terminate token leaves black if the rank was black, and
-- with its own colour otherwise; the rank is white afterwards and no longer holds it.
pub pass_color :
    (rank size : ℕ) (t : TokenState) (c : Color)
    → rank ≢ 0
    → t.token_is_local ≡ false
    → t.token_proc ≢ terminate
    → c ≢ terminate
    → let (t1, sent) = pass rank size t c in
      (sent ≡ (t.token_dest, Message.token (if is_black t.token_proc then black else c)) ∷ [])
      × (t1.token_proc ≡ white)
      × (t1.token_is_local ≡ false)
unfolding pass check_for_term is_black
pass_color rank size t c ring away running going = ground arith

-- The colour of the token that a list of messages sends.
abbrev sent_color : List Send → Color
sent_color [] = terminate
sent_color ((_, Message.token c) ∷ _) = c
sent_color (_ ∷ _) = terminate

-- The token, of colour `c`, goes through the ranks from `rank` on.
unfoldable pub round : ℕ → ℕ → List TokenState → Color → Color
round rank size [] c = c
round rank size (t ∷ ts) c = round (rank + 1) size ts (sent_color (pass rank size t c).1)

abbrev pub any_black : List TokenState → Bool
any_black [] = false
any_black (t ∷ ts) = is_black t.token_proc || any_black ts

-- An idle rank of the ring: it runs, and waits for the token.
abbrev pub Waits : TokenState → Type 0
Waits t = (t.token_is_local ≡ false) × (t.token_proc ≢ terminate)

round_step :
    (b : Bool) (m : Bool) (c : Color)
    → (if m then black else (if b then black else c)) ≡ (if b || m then black else c)
round_step true true c = refl
round_step true false c = refl
round_step false m c = refl

still_going : (b : Bool) (c : Color) → c ≢ terminate → (if b then black else c) ≢ terminate
still_going true c going = λ e. cc
still_going false c going = going

round_color :
    (ts : List TokenState) (rank size : ℕ) (c : Color)
    → 0 < rank
    → All Waits ts
    → c ≢ terminate
    → round rank size ts c ≡ (if any_black ts then black else c)
unfolding round
round_color [] rank size c pos idle going = refl
round_color (t ∷ ts) rank size c pos idle going =
    let (e, _, _) = pass_color rank size t c (omega arith) idle.0.0 idle.0.1 going in
    rw e (
      round_color ts (rank + 1) size (if is_black t.token_proc then black else c) (omega arith)
        idle.1 (still_going (is_black t.token_proc) c going)
      ∙ round_step (is_black t.token_proc) (any_black ts) c)

-- Rank 0, idle, sends a white token round the other ranks, all idle. When it comes back rank 0
-- reports termination exactly when none of them was black.
pub round_terminates :
    (ts : List TokenState) (size : ℕ) (t0 : TokenState)
    → Waits t0
    → All Waits ts
    → ((check_for_term 0 size false t0 (some (round 1 size ts white))).0 ≡ terminate)
      ↔ (any_black ts ≡ false)
unfolding check_for_term
round_terminates ts size t0 waits idle =
    rw (round_color ts 1 size white (omega arith) idle (λ e. cc)) (ground arith)
