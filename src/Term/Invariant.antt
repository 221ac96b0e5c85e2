-- ===== src/Term/Invariant.antt =====
-- A call of the allreduce on one of all ranks keeps what every reachable state satisfies.
use circle.Prelude.{
  ℕ, suc, ◌+◌, ◌≤◌, ◌<◌, ◌≡◌, ◌≢◌, inl, inr, refl, sym, ap, ◌∙◌, subst, Bool, true, false, ◌||◌,
  List, [], ◌∷◌, ◌++◌, Option, none, some, arith, length, update, update_all, ltb, ==→eq,
  if◌then◌else◌, Bool-cases,
}
use circle.State.{is_terminate, Message, to_children}
use circle.Term.{check_for_term_all_reduce}
use circle.Term.System.{Terms, reply_of, IsTold, checked}
use circle.Term.Moves.{goes, is_some, is_root, completes, IsOpen, check-goes}
use circle.Gather.{Gather}
use circle.Gather.Shape.{tree_parent, tree_kids, children-IsTree}
use circle.Gather.Moves.{
  Same, Reaches, Reaches-Same, received_all, received_up, Told, readies-Reaches,
}
use circle.Gather.Call.{called, called-Reaches}
use circle.Gather.Post.{post, to_parent, post-both}
use circle.Gather.Mail.{
  Mail, get, lengths, flags_from, get_all, get_up, post_flags, lengths-get_all, lengths-get_up,
  lengths-post_flags, IsThere, IsThere-Available,
}
use circle.Term.Flags.{AllTrue, AllTrue-get_all, AllTrue-get_done, AllTrue-sends, reply-set}

-- The allreduce as the protocol sees it.
abbrev pub view : Terms → Gather
view w = record {
  ready = w.idle;
  replies = λ i. (w.terms i).term_replies;
  up = λ i. (w.terms i).term_up;
  left = w.finished;
  flight = lengths w.mail;
}

length-flags_from : (i : ℕ) (cs : List ℕ) (mail : Mail) → length (flags_from i cs mail) ≡ length cs
length-flags_from i [] mail = refl
length-flags_from i (c ∷ cs) mail = ap suc (length-flags_from i cs (get c i mail))

lengths-get_done :
    (i : ℕ) (cs : List ℕ) (parent : Option ℕ) (done : Bool) (mail : Mail) (x y : ℕ)
    → lengths (if done then get_up i parent (get_all i cs mail) else get_all i cs mail) x y
      ≡ (let f1 = received_all i cs (lengths mail) in if done then received_up i parent f1 else f1)
          x y
lengths-get_done i cs parent true mail x y =
    lengths-get_up i parent (get_all i cs mail) (received_all i cs (lengths mail)) x y
      (lengths-get_all i cs mail x y)
lengths-get_done i cs parent false mail x y = lengths-get_all i cs mail x y

to-IsTold :
    (o : Option ℕ) (i : ℕ) (told : Bool) (mail : Mail) (f : ℕ → ℕ → ℕ)
    → ((x y : ℕ) → lengths mail x y ≡ f x y)
    → IsTold o i told mail
    → is_root o || is_some (reply_of o i told mail) ≡ true
    → Told i o f
to-IsTold none i told mail f e there h = tt
to-IsTold (some p) i false mail f e there h = cc
to-IsTold (some p) i true mail f e there h = omega (arith, e p i, there)

module _ (size k : ℕ) (pos : 0 < k) where
  pub record Inv (w : Terms) : Type 0 where
    pub moves : Reaches size (tree_parent size k) (tree_kids size k) (view w)
    pub open_terms :
        (i : ℕ) → IsOpen (tree_parent size k i) (length (tree_kids size k i)) (w.terms i)
    pub flags : AllTrue (tree_parent size k) w.mail

  module _ (w : Terms) (i : ℕ) (cs : List ℕ) (told : Bool) (v : Inv w)
      (room : (w.terms i).term_replies + length cs ≤ length (tree_kids size k i))
      (there : IsTold (tree_parent size k i) i told (get_all i cs w.mail)) where
    reply_is_set : reply_of (tree_parent size k i) i told (get_all i cs w.mail) ≢ some false
    reply_is_set =
        reply-set (tree_parent size k) i (tree_parent size k i) told (get_all i cs w.mail) refl
          (AllTrue-get_all i cs w.mail v.flags) there

    pub call_lem :
        let t = w.terms i in
        let kids = tree_kids size k i in
        let parent = tree_parent size k i in
        let reply = reply_of parent i told (get_all i cs w.mail) in
        let (color, t1, sends) =
          check_for_term_all_reduce parent kids t (flags_from i cs w.mail) reply in
        let up = goes (length kids) t (length cs) in
        let done = is_terminate color in
        (done ≡ completes parent (length kids) t (length cs) reply)
        × (done ≡ false
            → (t1.term_replies ≡ t.term_replies + length cs) × (t1.term_up ≡ (t.term_up || up)))
        × (sends
            ≡ (if up then to_parent parent (Message.term false) else [])
              ++ (if done then to_children kids (Message.term true) else []))
        × IsOpen parent (length kids) t1
    call_lem = rw (sym (length-flags_from i cs w.mail)) (
        check-goes (tree_parent size k i) (tree_kids size k i) (w.terms i) (flags_from i cs w.mail)
          (reply_of (tree_parent size k i) i told (get_all i cs w.mail))
          (omega (arith, length-flags_from i cs w.mail, room)) (v.open_terms i) reply_is_set)

    -- The state in which the protocol makes the call: the rank counts as idle from here on.
    before : Gather
    before = record (view w) {
      ready = if ltb 0 (w.terms i).work_outstanding then w.idle else update w.idle i true;
    }

    before-Reaches : Reaches size (tree_parent size k) (tree_kids size k) before
    unfolding before
    before-Reaches = elim (Bool-cases (ltb 0 (w.terms i).work_outstanding)) [
      | inl busy ↦ rw busy v.moves
      | inr free ↦
          rw free (readies-Reaches size (tree_parent size k) (tree_kids size k) (view w) i v.moves)
    ]

    checked-Same :
        Same
          (called
            (tree_parent size k)
            (tree_kids size k)
            before
            i
            cs
            (goes (length (tree_kids size k i)) (w.terms i) (length cs))
            (is_terminate
              (check_for_term_all_reduce
                (tree_parent size k i)
                (tree_kids size k i)
                (w.terms i)
                (flags_from i cs w.mail)
                (reply_of (tree_parent size k i) i told (get_all i cs w.mail))).0))
          (view (checked size k w i cs told))
    unfolding before
    checked-Same =
        let kids = tree_kids size k i in
        let parent = tree_parent size k i in
        let mail1 = get_all i cs w.mail in
        let (color, t1, sends) =
          check_for_term_all_reduce parent kids (w.terms i) (flags_from i cs w.mail)
            (reply_of parent i told mail1) in
        let up = goes (length kids) (w.terms i) (length cs) in
        let f1 = received_all i cs (lengths w.mail) in
        let f2 = if is_terminate color then received_up i parent f1 else f1 in
        record {
          ready = λ j. refl;
          left = λ j. refl;
          flight = λ x y.
              ap (λ f. f x y)
                (sym (
                  post-both i (Message.term false) (Message.term true) parent kids up
                    (is_terminate color) f2))
              ∙ (ap (λ s. post i s f2 x y) (sym call_lem.2)
                  ∙ sym (
                      lengths-post_flags i sends
                        (if is_terminate color then get_up i parent mail1 else mail1) f2
                        (lengths-get_done i cs parent (is_terminate color) w.mail) x y));
          replies = λ j e. ground (arith, e, call_lem.1);
          up = λ j e. ground (arith, e, call_lem.1, ==→eq j i);
        }

    pub checked-Inv :
        i < size → w.finished i ≡ false → IsThere i cs w.mail → Inv (checked size k w i cs told)
    unfolding before
    checked-Inv lt stays probed =
        let tree = children-IsTree size k pos in
        let parent = tree_parent size k i in
        let kids = tree_kids size k i in
        let mail1 = get_all i cs w.mail in
        let reply = reply_of parent i told mail1 in
        let (color, t1, sends) =
          check_for_term_all_reduce parent kids (w.terms i) (flags_from i cs w.mail) reply in
        let up = goes (length kids) (w.terms i) (length cs) in
        let mail2 = if is_terminate color then get_up i parent mail1 else mail1 in
        record {
          moves = Reaches-Same size (tree_parent size k) (tree_kids size k) checked-Same (
              called-Reaches size (tree_parent size k) (tree_kids size k) before i cs up
                (is_terminate color) lt (λ e. absurd (omega (arith, tree.lower i i e))) stays room
                (IsThere-Available i cs w.mail (lengths w.mail) (λ x y. refl) probed)
                (λ e. ground (arith, e))
                (λ e.
                  let c : completes parent (length kids) (w.terms i) (length cs) reply ≡ true =
                    sym call_lem.0 ∙ e in
                  (
                    ground (arith, c),
                    to-IsTold parent i told mail1 _ (lengths-get_all i cs w.mail) there
                        (ground (arith, c)),
                  ))
                before-Reaches);
          open_terms =
              update_all (λ j. IsOpen (tree_parent size k j) (length (tree_kids size k j))) w.terms
                i _ call_lem.3 v.open_terms;
          flags =
              subst (λ s. AllTrue (tree_parent size k) (post_flags i s mail2)) (sym call_lem.2)
                (AllTrue-sends i kids up (is_terminate color) _ (λ a b. tree.lower b a)
                  (AllTrue-get_done i cs parent (is_terminate color) w.mail v.flags));
        }
