-- ===== src/Term/Flags.antt =====
-- The termination allreduce on all ranks: nobody is told to terminate before everybody has been
-- without outstanding transfers.
use circle.Prelude.{
  ℕ, ◌<◌, ◌≡◌, ◌≢◌, inl, inr, refl, sym, ap, subst, Bool, true, false, ◌&&◌, List, [], ◌∷◌, ◌++◌,
  Option, none, some, arith, length, drop, ◌==◌, ==→eq, if◌then◌else◌, Bool-cases,
}
use circle.State.{Message, Send, to_children}
use circle.Term.Rules.{all_flags}
use circle.Term.System.{reply_of, IsTold}
use circle.Gather.Post.{to_parent}
use circle.Gather.Mail.{Mail, put, get, first, get_all, get_up, post_flags}

-- Every flag on its way down the tree is set.
pub record AllTrue (parent : ℕ → Option ℕ) (mail : Mail) : Type 0 where
  pub set : (p i : ℕ) → parent i ≡ some p → all_flags (mail p i) ≡ true

all_flags-drop : (vs : List Bool) → all_flags vs ≡ true → all_flags (drop 1 vs) ≡ true
all_flags-drop [] h = refl
all_flags-drop (v ∷ vs) h = ground (arith, h)

all_flags-snoc :
    (vs : List Bool) (v : Bool) → all_flags vs ≡ true → v ≡ true → all_flags (vs ++ (v ∷ [])) ≡ true
all_flags-snoc [] v h e = ground (arith, e)
all_flags-snoc (w ∷ vs) v h e = ground (arith, all_flags-snoc vs v, h, e)

post_flags-append :
    (i : ℕ) (xs ys : List Send) (mail : Mail)
    → post_flags i (xs ++ ys) mail ≡ post_flags i ys (post_flags i xs mail)
post_flags-append i [] ys mail = refl
post_flags-append i ((r, m) ∷ xs) ys mail = post_flags-append i xs ys (put i r _ mail)

module _ {parent : ℕ → Option ℕ} where
  AllTrue-get : (a b : ℕ) (mail : Mail) → AllTrue parent mail → AllTrue parent (get a b mail)
  AllTrue-get a b mail t = record {
    set = λ p i e. elim (Bool-cases ((p == a) && (i == b))) [
      | inl same ↦ rw same (all_flags-drop (mail p i) (t.set p i e))
      | inr other ↦ rw other (t.set p i e)
    ];
  }

  pub AllTrue-get_all :
      (i : ℕ) (cs : List ℕ) (mail : Mail) → AllTrue parent mail → AllTrue parent (get_all i cs mail)
  AllTrue-get_all i [] mail t = t
  AllTrue-get_all i (c ∷ cs) mail t = AllTrue-get_all i cs (get c i mail) (AllTrue-get c i mail t)

  pub AllTrue-get_up :
      (i : ℕ) (o : Option ℕ) (mail : Mail) → AllTrue parent mail → AllTrue parent (get_up i o mail)
  AllTrue-get_up i none mail t = t
  AllTrue-get_up i (some p) mail t = AllTrue-get p i mail t

  AllTrue-put :
      (a b : ℕ) (v : Bool) (mail : Mail)
      → (parent b ≡ some a → v ≡ true)
      → AllTrue parent mail
      → AllTrue parent (put a b v mail)
  AllTrue-put a b v mail new t = record {
    set = λ p i e. elim (Bool-cases ((p == a) && (i == b))) [
      | inl same ↦ rw same (
          all_flags-snoc (mail p i) v (t.set p i e) (
            new (ground (arith, e, same, ==→eq p a, ap parent (==→eq i b (ground (arith, same)))))))
      | inr other ↦ rw other (t.set p i e)
    ];
  }

  -- What a rank sends up does not travel down.
  AllTrue-up :
      (i : ℕ) (mail : Mail)
      → ((a b : ℕ) → parent b ≡ some a → a < b)
      → (o : Option ℕ) → parent i ≡ o
      → AllTrue parent mail
      → AllTrue parent (post_flags i (to_parent o (Message.term false)) mail)
  AllTrue-up i mail lower none e t = t
  AllTrue-up i mail lower (some p) e t =
      AllTrue-put i p false mail (λ up. absurd (omega (arith, lower i p up, lower p i e))) t

  AllTrue-down :
      (i : ℕ) (kids : List ℕ) (mail : Mail)
      → AllTrue parent mail
      → AllTrue parent (post_flags i (to_children kids (Message.term true)) mail)
  AllTrue-down i [] mail t = t
  AllTrue-down i (k ∷ kids) mail t =
      AllTrue-down i kids (put i k true mail) (AllTrue-put i k true mail (λ e. refl) t)

  pub AllTrue-sends :
      (i : ℕ) (kids : List ℕ) (up down : Bool) (mail : Mail)
      → ((a b : ℕ) → parent b ≡ some a → a < b)
      → AllTrue parent mail
      → AllTrue parent (
          post_flags i
            ((if up then to_parent (parent i) (Message.term false) else [])
              ++ (if down then to_children kids (Message.term true) else []))
            mail)
  AllTrue-sends i kids false false mail lower t = t
  AllTrue-sends i kids false true mail lower t = AllTrue-down i kids mail t
  AllTrue-sends i kids true false mail lower t =
      subst (AllTrue parent)
        (sym (post_flags-append i (to_parent (parent i) (Message.term false)) [] mail))
        (AllTrue-up i mail lower (parent i) refl t)
  AllTrue-sends i kids true true mail lower t =
      subst (AllTrue parent)
        (sym (
          post_flags-append i (to_parent (parent i) (Message.term false))
            (to_children kids (Message.term true)) mail))
        (AllTrue-down i kids _ (AllTrue-up i mail lower (parent i) refl t))

-- So what a rank hears of its parent is never 0.
pub reply-set :
    (parent : ℕ → Option ℕ) (i : ℕ) (o : Option ℕ) (told : Bool) (mail : Mail)
    → parent i ≡ o
    → AllTrue parent mail
    → IsTold o i told mail
    → reply_of o i told mail ≢ some false
reply-set parent i none told mail e t there h = cc
reply-set parent i (some p) false mail e t there h = cc
reply-set parent i (some p) true mail e t there h = head (mail p i) (t.set p i e) there h
  where
    head : (vs : List Bool) → all_flags vs ≡ true → 0 < length vs → some (first vs) ≢ some false
    head [] t there h = absurd (omega (arith, there))
    head (v ∷ vs) t there h = ground (arith, t, h)

pub AllTrue-get_done :
    {parent : ℕ → Option ℕ} (i : ℕ) (cs : List ℕ) (o : Option ℕ) (done : Bool) (mail : Mail)
    → AllTrue parent mail
    → AllTrue parent (if done then get_up i o (get_all i cs mail) else get_all i cs mail)
AllTrue-get_done i cs o true mail t =
    AllTrue-get_up i o (get_all i cs mail) (AllTrue-get_all i cs mail t)
AllTrue-get_done i cs o false mail t = AllTrue-get_all i cs mail t
