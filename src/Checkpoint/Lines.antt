-- ===== src/Checkpoint/Lines.antt =====
-- Printing a string and reading it back as a line.
use circle.Prelude.{ℕ, ◌≡◌, ◌≢◌, refl, ap, ◌∙◌, List, [], ◌∷◌, ◌++◌, append_assoc, arith, All}
use circle.Checkpoint.{newline, c_str, line, lines}

-- No NUL and no line end: what survives "%s\n".
abbrev pub IsPlain : List ℕ → Type 0
IsPlain x = All (λ c. (c ≢ 0) × (c ≢ newline)) x

pub c_str_plain : (x : List ℕ) → IsPlain x → c_str x ≡ x
unfolding c_str
c_str_plain [] p = refl
c_str_plain (c ∷ x) p = ground (arith, c_str_plain x p.1)

-- The line of a plain string is read back as that string.
pub lines-line : (x t : List ℕ) → IsPlain x → lines (line x ++ t) ≡ x ∷ lines t
unfolding lines
lines-line x t p = rw (c_str_plain x p, append_assoc) (go x p)
  where
    go : (y : List ℕ) → IsPlain y → lines (y ++ newline ∷ t) ≡ y ∷ lines t
    go [] p = refl
    go (c ∷ y) p = ground (arith, go y p.1)

-- The text that a list of strings is printed as.
abbrev pub text_of : List (List ℕ) → List ℕ
text_of [] = []
text_of (x ∷ xs) = line x ++ text_of xs

pub lines-text_of : (xs : List (List ℕ)) → All IsPlain xs → lines (text_of xs) ≡ xs
unfolding lines
lines-text_of [] p = refl
lines-text_of (x ∷ xs) p = lines-line x (text_of xs) p.0 ∙ ap (◌∷◌ x) (lines-text_of xs p.1)
