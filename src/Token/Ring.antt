-- ===== src/Token/Ring.antt =====
-- The ring of all ranks, with the tokens that are under way.
use circle.Prelude.{
  update, ℕ, zero, suc, ◌+◌, ◌≤◌, ◌<◌, ◌≡◌, ◌≢◌, refl, ap, ◌∙◌, Bool, true, false, List, [], ◌∷◌,
  ◌++◌, Option, none, some, arith, length, length-append, ◌==◌, Bool-cases, inl, inr, ==→eq, ==→ne,
}
use circle.State.{Color, terminate, TokenState, State, Message, Send, new_tokens}
use circle.Token.{token_check, token_recv, token_is_send, check_for_term}
use circle.Token.Rules.{held, check_for_term_conserves}
use circle.Work.{blacken}

pub record Ring : Type 0 where
  pub tokens : ℕ → TokenState
  pub flight : List Send

abbrev pub start : ℕ → Ring
start size = record { tokens = λ i. new_tokens i size; flight = [] }

-- The ring after a move of rank `i`, if `flight` was under way besides.
abbrev pub moved : Ring → ℕ → TokenState → List Send → List Send → Ring
moved g i t sent flight = record { tokens = update g.tokens i t; flight = sent ++ flight }

abbrev pub checked : Ring → ℕ → ℕ → Bool → Option Color → List Send → Ring
checked g size i aborted incoming flight =
    let (_, t, sent) = check_for_term i size aborted (g.tokens i) incoming in
    moved g i t sent flight

abbrev pub drained : Ring → ℕ → ℕ → Bool → Color → List Send → Ring
drained g size i aborted c flight =
    let (t, sent) = token_check i size aborted (g.tokens i) (some c) in moved g i t sent flight

-- Until a rank has terminated it checks for termination, without a token or with one that is there
-- for it. It turns black when it sends work. In the cleaning loop it drains tokens.
pub data Step (size : ℕ) (g : Ring) : Ring → Type 0 where
  idles :
      (i : ℕ) (aborted : Bool)
      → i < size
      → (g.tokens i).token_proc ≢ terminate
      → Step size g (checked g size i aborted none g.flight)
  receives :
      (i : ℕ) (aborted : Bool) (c : Color) (before after : List Send)
      → i < size
      → (g.tokens i).token_proc ≢ terminate
      → g.flight ≡ before ++ (i, Message.token c) ∷ after
      → Step size g (checked g size i aborted (some c) (before ++ after))
  sends_work :
      (i : ℕ) (s : State) (dest : ℕ)
      → i < size
      → s.tokens ≡ g.tokens i
      → Step size g (moved g i (blacken s dest).tokens [] g.flight)
  drains :
      (i : ℕ) (aborted : Bool) (c : Color) (before after : List Send)
      → i < size
      → g.flight ≡ before ++ (i, Message.token c) ∷ after
      → Step size g (drained g size i aborted c (before ++ after))

pub data Reach (size : ℕ) : Ring → Type 0 where
  here : Reach size (start size)
  next : {g h : Ring} → Reach size g → Step size g h → Reach size h

-- How many of the first `n` ranks hold a token.
abbrev pub holders : (ℕ → TokenState) → ℕ → ℕ
holders ts zero = 0
holders ts (suc n) = held (ts n) + holders ts n

-- All tokens, held and under way.
abbrev pub all_tokens : ℕ → Ring → ℕ
all_tokens size g = holders g.tokens size + length g.flight

holders_same :
    (ts : ℕ → TokenState) (i : ℕ) (t : TokenState) (n : ℕ)
    → n ≤ i
    → holders (update ts i t) n ≡ holders ts n
holders_same ts i t zero h = refl
holders_same ts i t (suc n) h = ground (arith, holders_same ts i t n)

holders-update :
    (ts : ℕ → TokenState) (i : ℕ) (t : TokenState) (n : ℕ)
    → i < n
    → holders (update ts i t) n + held (ts i) ≡ holders ts n + held t
holders-update ts i t zero h = absurd (omega arith)
holders-update ts i t (suc n) h = elim (Bool-cases (n == i)) [
  | inl e ↦ ground (arith, holders_same ts i t n, ==→eq n i e)
  | inr e ↦ ground (arith, holders-update ts i t n, ==→ne n i e)
]

held-le : (ts : ℕ → TokenState) (i n : ℕ) → i < n → held (ts i) ≤ holders ts n
held-le ts i zero h = absurd (omega arith)
held-le ts i (suc n) h = elim (Bool-cases (n == i)) [
  | inl e ↦ ground (arith, ==→eq n i e)
  | inr e ↦ ground (arith, held-le ts i n, ==→ne n i e)
]

token_check-held :
    (i size : ℕ) (aborted : Bool) (t : TokenState) (c : Color)
    → held t ≡ 0
    → let (u, sent) = token_check i size aborted t (some c) in held u + length sent ≡ 1
unfolding token_check token_recv token_is_send
token_check-held i size aborted t c h = ground arith

blacken-held : (s : State) (dest : ℕ) → held (blacken s dest).tokens ≡ held s.tokens
unfolding blacken
blacken-held s dest = ground arith

held-zero : (t : TokenState) → held t ≡ 0 → t.token_is_local ≡ false
held-zero t h = elim (Bool-cases t.token_is_local) [
  | inl e ↦ absurd (omega (arith, ap {B = ℕ} (λ b. elim b [ true ↦ 1 | false ↦ 0 ]) e))
  | inr e ↦ e
]

start-one : (size n : ℕ) → 0 < n → holders (start size).tokens n ≡ 1
unfolding new_tokens
start-one size zero h = absurd (omega arith)
start-one size (suc zero) h = refl
start-one size (suc (suc n)) h = ground (arith, start-one size (suc n) (omega arith))

length-split :
    {flight : List Send} (before after : List Send) (m : Send)
    → flight ≡ before ++ m ∷ after
    → length flight ≡ length (before ++ after) + 1
length-split before after m e =
    ap length e ∙ omega (arith, length-append before (m ∷ after), length-append before after)

-- A move that conserves what its rank holds, receives and sends conserves all tokens.
moved-all_tokens :
    (size : ℕ) (g : Ring) (i : ℕ) (t : TokenState) (sent flight : List Send) (taken : ℕ)
    → i < size
    → length g.flight ≡ length flight + taken
    → held t + length sent ≡ held (g.tokens i) + taken
    → all_tokens size (moved g i t sent flight) ≡ all_tokens size g
moved-all_tokens size g i t sent flight taken h rest kept =
    omega (arith, holders-update g.tokens i t size h, length-append sent flight)

pub Step-all_tokens :
    {size : ℕ} {g h : Ring} → Step size g h → all_tokens size g ≡ 1 → all_tokens size h ≡ 1
Step-all_tokens {size} {g} (idles i aborted lt running) one =
    let few = held-le g.tokens i size lt in
    let kept = check_for_term_conserves i size aborted (g.tokens i) none running (omega arith) in
    moved-all_tokens size g i _ _ g.flight 0 lt (omega arith) kept ∙ one
Step-all_tokens {size} {g} (receives i aborted c before after lt running e) one =
    let n = length-split before after (i, Message.token c) e in
    let few = held-le g.tokens i size lt in
    let kept =
      check_for_term_conserves i size aborted (g.tokens i) (some c) running (omega arith) in
    moved-all_tokens size g i _ _ (before ++ after) 1 lt n kept ∙ one
Step-all_tokens {size} {g} (sends_work i s dest lt same) one =
    moved-all_tokens size g i _ [] g.flight 0 lt (omega arith)
      (omega (arith, blacken-held s dest, ap held same))
    ∙ one
Step-all_tokens {size} {g} (drains i aborted c before after lt e) one =
    let n = length-split before after (i, Message.token c) e in
    let few = held-le g.tokens i size lt in
    let kept = token_check-held i size aborted (g.tokens i) c (omega arith) in
    moved-all_tokens size g i _ _ (before ++ after) 1 lt n (omega arith) ∙ one

-- In every state that a ring of some ranks can reach, in whatever order they check, receive, send
-- work and drain, with or without an abort, there is exactly one token: held by one rank or under
-- way.
pub Reach-one_token : {size : ℕ} {g : Ring} → 0 < size → Reach size g → all_tokens size g ≡ 1
Reach-one_token {size} some_rank here = omega (arith, start-one size size some_rank)
Reach-one_token some_rank (next r st) = Step-all_tokens st (Reach-one_token some_rank r)

-- So a rank for which a token is under way does not hold one: what `tokenRecv` marks as an error
-- does not happen.
pub receiver_free :
    {size : ℕ} {g : Ring}
    → Reach size g
    → (i : ℕ) (c : Color) (before after : List Send) → i < size
    → g.flight ≡ before ++ (i, Message.token c) ∷ after
    → (g.tokens i).token_is_local ≡ false
receiver_free {size} {g} r i c before after lt e =
    let one = Reach-one_token (omega arith) r in
    let n = length-split before after (i, Message.token c) e in
    let few = held-le g.tokens i size lt in held-zero (g.tokens i) (omega arith)
