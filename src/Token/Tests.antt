-- ===== src/Token/Tests.antt =====
-- Tests of the token ring of 3 ranks.
use circle.Prelude.{◌≡◌, ◌↔◌, refl, true, false, [], ◌∷◌, some, none, arith}
use circle.State.{white, black, terminate, Message}
use circle.Token.{check_for_term}
use circle.Token.Rules.{checks, aborted_holder_stuck}
use circle.Token.Ring.{
  Ring, start, checked, idles, Reach, here, next, all_tokens, Reach-one_token, receiver_free,
}
use circle.Token.Round.{any_black, round, round_terminates}
use circle.Examples.{no_token, black_rank, holder}

round_terminates_example :
    ((check_for_term 0 3 false no_token (some (round 1 3 (no_token ∷ black_rank ∷ []) white))).0
      ≡ terminate)
    ↔ (any_black (no_token ∷ black_rank ∷ []) ≡ false)
round_terminates_example =
    round_terminates (no_token ∷ black_rank ∷ []) 3 no_token (refl, λ e. cc)
      ((refl, λ e. cc), ((refl, λ e. cc), tt))

aborted_holder_stuck_example :
    let (result, _, sent) = check_for_term 1 3 true (checks 5 1 3 holder) none in
    (result ≡ white) × (sent ≡ [])
aborted_holder_stuck_example = aborted_holder_stuck 5 1 3 holder refl (λ e. cc)

abbrev first_step : Ring
first_step = checked (start 3) 3 0 false none []

first_step-Reach : Reach 3 first_step
unfolding circle.State.new_tokens
first_step-Reach = next here (idles 0 false (omega arith) (λ e. cc))

Reach-one_token_example : all_tokens 3 first_step ≡ 1
Reach-one_token_example = Reach-one_token (omega arith) first_step-Reach

receiver_free_example : (first_step.tokens 1).token_is_local ≡ false
unfolding circle.Token.check_for_term circle.State.new_tokens
receiver_free_example = receiver_free first_step-Reach 1 white [] [] (omega arith) refl
