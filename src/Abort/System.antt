-- ===== src/Abort/System.antt =====
-- The abort broadcast on all ranks of a job in their working loops, in any order of checks. `parent`
-- and `kids` are the tree of ranks. `requests a b`: the requests under way from rank `a` to rank `b`;
-- `called`: whether a callback, or a reply to a request for work, has set a rank's abort flag.
use circle.Prelude.{
  ℕ, suc, ◌+◌, ◌-◌, ◌<◌, ◌≡◌, Bool, true, false, ◌&&◌, List, [], ◌∷◌, Option, none, some, update,
  ◌==◌, if◌then◌else◌,
}
use circle.State.{AbortState, Message, Send}
use circle.Abort.{abort_check}

pub record Aborts : Type 0 where
  pub aborts : ℕ → AbortState
  pub requests : ℕ → ℕ → ℕ
  pub called : Bool

-- The requests to rank `b` among some messages.
abbrev pub asks_to : ℕ → List Send → ℕ
asks_to b [] = 0
asks_to b ((r, Message.abort_request) ∷ ms) = if r == b then suc (asks_to b ms) else asks_to b ms
asks_to b (_ ∷ ms) = asks_to b ms

-- Somebody sets the flag of rank `i`.
abbrev pub flagged : Aborts → ℕ → Aborts
flagged w i = record w {
  aborts = update w.aborts i (record (w.aborts i) { abort_flag = true });
  called = true;
}

abbrev pub is_source : Option ℕ → ℕ → Bool
is_source none a = false
is_source (some s) a = a == s

module _ (parent : ℕ → Option ℕ) (kids : ℕ → List ℕ) where
  -- `abortCheck` on rank `i`, which takes the request of `source`, if there is one.
  abbrev pub aborted : Aborts → ℕ → Option ℕ → Bool → Aborts
  aborted w i source all_done =
      let (a, sent) = abort_check (parent i) (kids i) false (w.aborts i) source all_done in
      record w {
        aborts = update w.aborts i a;
        requests = λ x y.
            (if is_source source x && (y == i) then w.requests x y - 1 else w.requests x y)
            + (if x == i then asks_to y sent else 0);
      }

  pub data Step (size : ℕ) (w : Aborts) : Aborts → Type 0 where
    flags : (i : ℕ) → i < size → Step size w (flagged w i)
    checks :
        (i : ℕ) (source : Option ℕ) (all_done : Bool)
        → i < size
        → ((s : ℕ) → source ≡ some s → 0 < w.requests s i)
        → Step size w (aborted w i source all_done)

  pub data Reach (size : ℕ) : Aborts → Type 0 where
    here :
        (aborts : ℕ → AbortState)
        → ((i : ℕ) → (aborts i).abort_flag ≡ false)
        → ((i : ℕ) → (aborts i).abort_state ≡ false)
        → Reach size (record { aborts = aborts; requests = λ a b. 0; called = false })
    next : {v w : Aborts} → Reach size v → Step size v w → Reach size w
