-- ===== src/State/Sends.antt =====
-- The messages that a rank sends to several others.
use circle.Prelude.{ℕ, suc, ◌≡◌, refl, ap, List, [], ◌∷◌, length}
use circle.State.{Message, to_children}

pub length-to_children :
    (ranks : List ℕ) (m : Message) → length (to_children ranks m) ≡ length ranks
length-to_children [] m = refl
length-to_children (r ∷ ranks) m = ap suc (length-to_children ranks m)
