-- ===== src/Token.antt =====
-- src/state.cpp, `tokenIsSend`, `tokenRecv`, `tokenCheck`, `checkForTerm`: the token that goes round
-- the ring of ranks to detect termination. `aborted` is ABORT_FLAG; `incoming` is the token that a
-- probe of `token_src` finds, if any.
pub mod Rules
pub mod Ring
pub mod Round
mod Tests
use circle.Prelude.{
  ℕ, ◌-◌, Bool, true, false, ◌&&◌, ◌||◌, List, [], ◌∷◌, Option, none, some, ltb, ◌==◌,
  if◌then◌else◌,
}
use circle.State.{
  Color, white, black, terminate, is_white, is_black, is_terminate, TokenState, Message, Send,
}

-- A synchronous send: it stays pending until the token is received.
unfoldable pub token_is_send : Bool → TokenState → TokenState × List Send
token_is_send true t = (t, [])
token_is_send false t = (
  record t { token_send_pending = true; token_is_local = false },
  (t.token_dest, Message.token t.token_buf) ∷ [],
)

-- Black on black turns white.
unfoldable pub recolor : Color → Color → Color
unfolding is_black
recolor proc token = if is_black proc && is_black token then white else proc

-- Does a token end the run on this rank?
unfoldable pub ends_run : ℕ → Color → Bool
unfolding is_white is_terminate
ends_run rank token = (rank == 0 && is_white token) || is_terminate token

-- `tokenRecv`; the pending send, if there is one, is waited for.
unfoldable pub token_recv : ℕ → ℕ → Bool → TokenState → Color → TokenState × List Send
unfolding ends_run recolor token_is_send
token_recv rank size aborted t token =
    let t1 : TokenState = record t {
      token_is_local = true;
      token_send_pending = false;
      token_buf = token;
      token_proc = recolor t.token_proc token;
    } in
    let t2 : TokenState = record t1 { token_buf = terminate } in
    let (t3, sent) = token_is_send aborted t2 in
    if ends_run rank token
    then (if ltb rank (size - 1)
        then (record t3 { token_proc = terminate }, sent)
        else (record t2 { token_proc = terminate }, []))
    else (t1, [])

unfoldable pub token_check : ℕ → ℕ → Bool → TokenState → Option Color → TokenState × List Send
unfolding token_recv
token_check rank size aborted t none = (t, [])
token_check rank size aborted t (some token) = token_recv rank size aborted t token

-- The colour that an idle holder gives the token before it sends it.
unfoldable pub token_color : ℕ → TokenState → Color
unfolding is_black
token_color rank t =
    if rank == 0 then white else if is_black t.token_proc then black else t.token_buf

-- The result is the process's colour at the end.
unfoldable pub check_for_term :
    ℕ → ℕ → Bool → TokenState → Option Color → Color × TokenState × List Send
unfolding token_check token_is_send token_color is_terminate
check_for_term rank size aborted t incoming =
    let (passed, sent) = token_is_send aborted (record t { token_buf = token_color rank t }) in
    let (checked, forwarded) = token_check rank size aborted t incoming in
    if is_terminate t.token_proc
    then (terminate, t, [])
    else if t.token_is_local
    then (white, record passed { token_proc = white }, sent)
    else (checked.token_proc, checked, forwarded)
