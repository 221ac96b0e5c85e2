-- ===== src/Pool/Share.antt =====
-- What a rank sends when it serves requests: every parcel holds what has left its queue.
use circle.Prelude.{
  ℕ, ◌+◌, ◌*◌, ◌^◌, ◌≤◌, ◌<◌, ◌≡◌, ◌≢◌, refl, sym, ap, ◌∙◌, true, List, [], ◌∷◌, ◌++◌, none, some,
  arith, length, get_or, if◌then◌else◌,
}
use circle.Queue.{Queue, new_queue}
use circle.Queue.Layout.{contents, IsValid, length-items}
use circle.State.{Send}
use circle.Work.{work_messages, without_last}
use circle.Receive.{take_in}
use circle.Receive.Transfer.{
  reply, chars, taken, take_in-taken, taken-IsValid, taken-contents, count-eq,
}
use circle.Receive.Conserve.{strings_in}
use circle.Pool.{Parcel, is_work, parcels_of}

-- Any measure of items, added up.
abbrev pub weight : (List ℕ → ℕ) → List (List ℕ) → ℕ
weight f [] = 0
weight f (x ∷ xs) = f x + weight f xs

pub weight-append :
    (f : List ℕ → ℕ) (xs ys : List (List ℕ)) → weight f (xs ++ ys) ≡ weight f xs + weight f ys
weight-append f [] ys = omega arith
weight-append f (x ∷ xs) ys = omega (arith, weight-append f xs ys)

append_cancel :
    (xs ys rest : List (List ℕ)) → length xs ≡ length ys → xs ++ rest ≡ ys ++ rest → xs ≡ ys
append_cancel [] [] rest h e = refl
append_cancel [] (y ∷ ys) rest h e = absurd (omega (arith, h))
append_cancel (x ∷ xs) [] rest h e = absurd (omega (arith, h))
append_cancel (x ∷ xs) (y ∷ ys) rest h e =
    ground (arith, e, append_cancel xs ys rest (omega (arith, h)))

module _ (page_size : ℕ) where
  -- The strings in a parcel.
  abbrev pub strings_of : Parcel → List (List ℕ)
  strings_of p = if is_work p.ints then strings_in page_size p.ints p.chars else []

  abbrev pub weigh : (List ℕ → ℕ) → List Parcel → ℕ
  weigh f [] = 0
  weigh f (p ∷ ps) = weight f (strings_of p) + weigh f ps

  pub weigh-append :
      (f : List ℕ → ℕ) (ps qs : List Parcel) → weigh f (ps ++ qs) ≡ weigh f ps + weigh f qs
  weigh-append f [] qs = omega arith
  weigh-append f (p ∷ ps) qs = omega (arith, weigh-append f ps qs)

  -- A parcel is in order: it says that it brings no work, or any empty queue takes it in.
  pub record InOrder (p : Parcel) : Type 0 where
    pub there : length p.ints ≢ 0
    pub small : is_work p.ints ≡ true → get_or p.ints 0 0 < 2 ^ 31
    pub fits :
        is_work p.ints ≡ true
        → (q : Queue) → q.head ≡ 0
        → (q1 : Queue) × (take_in page_size q p.ints p.chars ≡ some q1)
          × IsValid q1
          × (contents q1 ≡ strings_of p)

  module _ (pages : 0 < page_size) (room : 2 ^ 31 + page_size * 4096 ≤ 2 ^ 64) where
    module _ (s : Queue) (k : ℕ) (v : IsValid s) (some_work : 0 < k) (in_queue : k ≤ s.count)
        (few : s.count < 2 ^ 31) (small : s.head < 2 ^ 31) where
      abbrev pub ints_sent : List ℕ
      ints_sent = reply page_size pages s new_queue k v some_work in_queue few small refl room

      abbrev pub chars_sent : List ℕ
      chars_sent = chars page_size pages s new_queue k v some_work in_queue few small refl room

      abbrev pub parcel : ℕ → ℕ → Parcel
      parcel i r = record { from = i; to = r; ints = ints_sent; chars = chars_sent }

      brings_work : is_work ints_sent ≡ true
      brings_work =
          ground
            (arith, count-eq page_size pages s new_queue k v some_work in_queue few small refl room)

      same_strings :
          (q : Queue) (fresh : q.head ≡ 0)
          → contents (taken page_size pages s q k v some_work in_queue few small fresh room)
            ≡ contents
                (taken page_size pages s new_queue k v some_work in_queue few small refl room)
      same_strings q fresh =
          append_cancel _ _ (contents (without_last s k))
            (length-items _ _ _ _ ∙ sym (length-items _ _ _ _))
            (sym (taken-contents page_size pages s q k v some_work in_queue few small fresh room)
              ∙ taken-contents page_size pages s new_queue k v some_work in_queue few small refl
                  room)

      strings-parcel :
          (i r : ℕ)
          → strings_of (parcel i r)
            ≡ contents
                (taken page_size pages s new_queue k v some_work in_queue few small refl room)
      strings-parcel i r = rw brings_work (
          ap (λ o. elim o [ none ↦ [] | some q ↦ contents q ])
            (take_in-taken page_size pages s new_queue k v some_work in_queue few small refl room))

      pub parcel-InOrder : (i r : ℕ) → InOrder (parcel i r)
      parcel-InOrder i r = record {
        there = ground arith;
        small = λ e. omega (
          arith,
          count-eq page_size pages s new_queue k v some_work in_queue few small refl room,
        );
        fits = λ e q fresh. (
          taken page_size pages s q k v some_work in_queue few small fresh room,
          take_in-taken page_size pages s q k v some_work in_queue few small fresh room,
          taken-IsValid page_size pages s q k v some_work in_queue few small fresh room,
          same_strings q fresh ∙ sym (strings-parcel i r),
        );
      }

      pub parcel-weight :
          (f : List ℕ → ℕ) (i r : ℕ)
          → weight f (contents s)
            ≡ weight f (strings_of (parcel i r)) + weight f (contents (without_last s k))
      parcel-weight f i r =
          ap (weight f)
            (taken-contents page_size pages s new_queue k v some_work in_queue few small refl room)
          ∙ weight-append f _ (contents (without_last s k))
          ∙ ap (λ l. weight f l + weight f (contents (without_last s k))) (sym (strings-parcel i r))

      pub parcels-work_messages :
          (i r : ℕ) (last : List ℕ) (rest : List Send)
          → parcels_of i last (work_messages s r k ++ rest)
            ≡ parcel i r ∷ parcels_of i ints_sent rest
      unfolding work_messages
      parcels-work_messages i r last rest = rw brings_work refl
