-- ===== src/Abort/Rules.antt =====
-- What an abort does on one rank.
use circle.Prelude.{
  ℕ, ◌+◌, ◌≡◌, ◌↔◌, ◌⊎◌, inr, refl, Bool, true, false, List, [], ◌∷◌, Option, none, some, arith,
  length, append-nil, length-append,
}
use circle.State.Sends.{length-to_children}
use circle.State.{AbortState, Message, to_children}
use circle.Abort.{neighbours, abort_check}

-- The flag is on once the rank has entered the abort state.
abbrev pub IsMarked : AbortState → Type 0
IsMarked a = a.abort_state ≡ true → a.abort_flag ≡ true

-- A check enters the abort state exactly if the flag is set or a request is there, and never
-- leaves it. The flag follows.
pub abort_check_enters :
    (parent : Option ℕ) (kids : List ℕ) (cleanup : Bool) (a : AbortState) (request : Option ℕ)
    (all_done : Bool)
    → IsMarked a
    → let (a1, _) = abort_check parent kids cleanup a request all_done in
      IsMarked a1
      × ((a1.abort_state ≡ true) ↔ ((a.abort_flag ≡ true) ⊎ ((r : ℕ) × (request ≡ some r))))
unfolding abort_check
abort_check_enters parent kids cleanup a none all_done m = ground (arith, m)
abort_check_enters parent kids cleanup a (some r) all_done m =
    (λ e. ground arith, (λ e. inr (r, refl), λ h. ground arith))

-- Outside cleanup, entering the state asks every neighbour in the tree once; later checks ask
-- nobody and only answer.
pub abort_check_asks :
    (parent : Option ℕ) (kids : List ℕ) (a : AbortState) (request : Option ℕ) (all_done : Bool)
    → (a.abort_flag ≡ true) ⊎ ((r : ℕ) × (request ≡ some r))
    → let (_, sent) = abort_check parent kids false a request all_done in
      length sent
      ≡ (elim a.abort_state [ true ↦ 0 | false ↦ length (neighbours parent kids) ])
        + (elim request [ none ↦ 0 | some _ ↦ 1 ])
unfolding abort_check
abort_check_asks parent kids a none all_done h = ground (
  arith,
  length-to_children (neighbours parent kids) Message.abort_request,
  append-nil (to_children (neighbours parent kids) Message.abort_request),
)
abort_check_asks parent kids a (some r) all_done h = ground (
  arith,
  length-to_children (neighbours parent kids) Message.abort_request,
  length-append (to_children (neighbours parent kids) Message.abort_request)
      ((r, Message.abort_reply) ∷ []),
)
