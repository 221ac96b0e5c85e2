-- ===== src/Gather/Post.antt =====
-- `MPI_Send` of a rank, as messages under way to the rank addressed.
use circle.Prelude.{
  ℕ, ◌≡◌, refl, ap, ◌∙◌, Bool, true, false, List, [], ◌∷◌, ◌++◌, Option, none, some, if◌then◌else◌,
}
use circle.State.{Message, Send, to_children}
use circle.Gather.{sent, sent_up, sent_down}

abbrev pub post : ℕ → List Send → (ℕ → ℕ → ℕ) → ℕ → ℕ → ℕ
post i [] flight = flight
post i ((r, m) ∷ sends) flight = post i sends (sent i r flight)

abbrev pub to_parent : Option ℕ → Message → List Send
to_parent none m = []
to_parent (some p) m = (p, m) ∷ []

post-append :
    (i : ℕ) (xs ys : List Send) (f : ℕ → ℕ → ℕ) → post i (xs ++ ys) f ≡ post i ys (post i xs f)
post-append i [] ys f = refl
post-append i ((r, m) ∷ xs) ys f = post-append i xs ys (sent i r f)

post-to_children :
    (i : ℕ) (kids : List ℕ) (m : Message) (f : ℕ → ℕ → ℕ)
    → post i (to_children kids m) f ≡ sent_down i kids f
post-to_children i [] m f = refl
post-to_children i (k ∷ kids) m f = post-to_children i kids m (sent i k f)

post-to_parent :
    (i : ℕ) (o : Option ℕ) (m : Message) (f : ℕ → ℕ → ℕ) → post i (to_parent o m) f ≡ sent_up i o f
post-to_parent i none m f = refl
post-to_parent i (some p) m f = refl

pub post-both :
    (i : ℕ) (up down : Message) (parent : Option ℕ) (kids : List ℕ) (goes done : Bool)
    (f : ℕ → ℕ → ℕ)
    → post i
        ((if goes then to_parent parent up else []) ++ (if done then to_children kids down else []))
        f
      ≡ (let f1 = if goes then sent_up i parent f else f in
          if done then sent_down i kids f1 else f1)
post-both i up down parent kids false false f = refl
post-both i up down parent kids false true f = post-to_children i kids down f
post-both i up down parent kids true false f =
    post-append i (to_parent parent up) [] f ∙ post-to_parent i parent up f
post-both i up down parent kids true true f =
    post-append i (to_parent parent up) (to_children kids down) f
    ∙ (post-to_children i kids down (post i (to_parent parent up) f)
        ∙ ap (sent_down i kids) (post-to_parent i parent up f))
