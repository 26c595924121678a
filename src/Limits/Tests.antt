-- ===== src/Limits/Tests.antt =====
-- Runs of the limits, and their theorems at concrete inputs.
use dabdub.Prelude.{◌≤◌, ◌<◌, ◌≡◌, ◌↔◌, refl, true, none, some, [], ◌∷◌, arith, pos}
use dabdub.Limits.Rate.{
  in_last_hour, scores_after, check_api_key_rate_limit, serve, serve-bounded,
  check_api_key_rate_limit_iff,
}
use dabdub.Limits.Slippage.{rejected, check_slippage}

serve-bounded_example : in_last_hour 5000 (serve "merchant" (1000 ∷ 2000 ∷ 5000 ∷ []) [] []) ≤ 1000
serve-bounded_example =
    serve-bounded "merchant" 0 (1000 ∷ 2000 ∷ 5000 ∷ []) [] []
      (omega arith, (omega arith, (omega arith, tt))) (λ later on. refl) (omega arith)

check_api_key_rate_limit_iff_example :
    ((check_api_key_rate_limit "merchant" 5000
        (scores_after "merchant" (1000 ∷ 2000 ∷ 5000 ∷ []) [])).0.allowed
      ≡ true)
    ↔ (in_last_hour 5000 (serve "merchant" (1000 ∷ 2000 ∷ 5000 ∷ []) [] []) < 1000)
check_api_key_rate_limit_iff_example =
    check_api_key_rate_limit_iff "merchant" (1000 ∷ 2000 ∷ 5000 ∷ []) 5000
      (omega arith, (omega arith, (omega arith, tt))) (omega arith)

-- A rate of 1.00 that becomes 1.02 exceeds one per cent.
two_per_cent : check_slippage (some (pos 100)) (some (pos 102)) none ≡ rejected 100 (pos 200)
unfolding check_slippage
two_per_cent = refl
