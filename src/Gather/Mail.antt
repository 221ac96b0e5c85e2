-- ===== src/Gather/Mail.antt =====
-- Messages under way that carry a flag: between two ranks they arrive in the order they were sent.
use circle.Prelude.{
  ℕ, ◌+◌, ◌-◌, ◌<◌, ◌≡◌, refl, ◌∙◌, Bool, false, ◌&&◌, List, [], ◌∷◌, ◌++◌, Option, none, some,
  arith, length, drop, ◌==◌, if◌then◌else◌,
}
use circle.State.{Message, Send}
use circle.Gather.{sent, received}
use circle.Gather.Moves.{sent-cong, received-cong, received_all, received_up, Available}
use circle.Gather.Post.{post}

abbrev pub Mail : Type 0
Mail = ℕ → ℕ → List Bool

abbrev pub put : ℕ → ℕ → Bool → Mail → Mail
put a b v mail x y = if (x == a) && (y == b) then mail x y ++ (v ∷ []) else mail x y

abbrev pub get : ℕ → ℕ → Mail → Mail
get a b mail x y = if (x == a) && (y == b) then drop 1 (mail x y) else mail x y

abbrev pub first : List Bool → Bool
first [] = false
first (v ∷ vs) = v

abbrev pub lengths : Mail → ℕ → ℕ → ℕ
lengths mail x y = length (mail x y)

-- The flags of these ranks' messages to `i`, and the mail without them.
abbrev pub flags_from : ℕ → List ℕ → Mail → List Bool
flags_from i [] mail = []
flags_from i (c ∷ cs) mail = first (mail c i) ∷ flags_from i cs (get c i mail)

abbrev pub get_all : ℕ → List ℕ → Mail → Mail
get_all i [] mail = mail
get_all i (c ∷ cs) mail = get_all i cs (get c i mail)

abbrev pub get_up : ℕ → Option ℕ → Mail → Mail
get_up i none mail = mail
get_up i (some p) mail = get p i mail

-- The flag of a message. No other message is sent on these channels.
abbrev pub flag : Message → Bool
flag (Message.term v) = v
flag _ = false

abbrev pub post_flags : ℕ → List Send → Mail → Mail
post_flags i [] mail = mail
post_flags i ((r, m) ∷ sends) mail = post_flags i sends (put i r (flag m) mail)

length-snoc : (vs : List Bool) (v : Bool) → length (vs ++ (v ∷ [])) ≡ length vs + 1
length-snoc [] v = refl
length-snoc (w ∷ vs) v = ground (arith, length-snoc vs v)

length-drop_one : (vs : List Bool) → length (drop 1 vs) ≡ length vs - 1
length-drop_one [] = refl
length-drop_one (w ∷ vs) = ground arith

lengths-put :
    (a b : ℕ) (v : Bool) (mail : Mail) (x y : ℕ)
    → lengths (put a b v mail) x y ≡ sent a b (lengths mail) x y
lengths-put a b v mail x y = ground (arith, length-snoc (mail x y) v)

lengths-get :
    (a b : ℕ) (mail : Mail) (x y : ℕ) → lengths (get a b mail) x y ≡ received a b (lengths mail) x y
lengths-get a b mail x y = ground (arith, length-drop_one (mail x y))

received_all-cong :
    (i : ℕ) (cs : List ℕ) (f g : ℕ → ℕ → ℕ)
    → ((x y : ℕ) → f x y ≡ g x y)
    → (x y : ℕ) → received_all i cs f x y ≡ received_all i cs g x y
received_all-cong i [] f g e x y = e x y
received_all-cong i (c ∷ cs) f g e x y =
    received_all-cong i cs (received c i f) (received c i g)
      (λ a b. received-cong c i f g a b (e a b)) x y

pub lengths-get_all :
    (i : ℕ) (cs : List ℕ) (mail : Mail) (x y : ℕ)
    → lengths (get_all i cs mail) x y ≡ received_all i cs (lengths mail) x y
lengths-get_all i [] mail x y = refl
lengths-get_all i (c ∷ cs) mail x y =
    lengths-get_all i cs (get c i mail) x y
    ∙ received_all-cong i cs (lengths (get c i mail)) (received c i (lengths mail))
        (lengths-get c i mail) x y

pub lengths-get_up :
    (i : ℕ) (o : Option ℕ) (mail : Mail) (f : ℕ → ℕ → ℕ) (x y : ℕ)
    → lengths mail x y ≡ f x y
    → lengths (get_up i o mail) x y ≡ received_up i o f x y
lengths-get_up i none mail f x y e = e
lengths-get_up i (some p) mail f x y e =
    lengths-get p i mail x y ∙ received-cong p i (lengths mail) f x y e

pub lengths-post_flags :
    (i : ℕ) (sends : List Send) (mail : Mail) (f : ℕ → ℕ → ℕ)
    → ((x y : ℕ) → lengths mail x y ≡ f x y)
    → (x y : ℕ) → lengths (post_flags i sends mail) x y ≡ post i sends f x y
lengths-post_flags i [] mail f e x y = e x y
lengths-post_flags i ((r, m) ∷ sends) mail f e x y =
    lengths-post_flags i sends (put i r (flag m) mail) (sent i r f)
      (λ a b. lengths-put i r (flag m) mail a b ∙ sent-cong i r (lengths mail) f a b (e a b)) x y

-- That messages are there, on the mail.
abbrev pub IsThere : ℕ → List ℕ → Mail → Type 0
IsThere i [] mail = Unit
IsThere i (c ∷ cs) mail = (0 < length (mail c i)) × IsThere i cs (get c i mail)

pub IsThere-Available :
    (i : ℕ) (cs : List ℕ) (mail : Mail) (f : ℕ → ℕ → ℕ)
    → ((x y : ℕ) → lengths mail x y ≡ f x y)
    → IsThere i cs mail
    → Available i cs f
IsThere-Available i [] mail f e there = tt
IsThere-Available i (c ∷ cs) mail f e there = (
  ground (arith, e c i, there.0),
  IsThere-Available i cs (get c i mail) (received c i f)
      (λ a b. lengths-get c i mail a b ∙ received-cong c i (lengths mail) f a b (e a b)) there.1,
)
