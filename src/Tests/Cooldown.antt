-- ===== src/Tests/Cooldown.antt =====
-- The cooldowns on a tracker with one failure of one provider.
use ottie.Prelude.{leb, ◌-◌, [], ◌∷◌, ◌+◌, ◌≤◌, ◌≡◌, ◌↔◌, true, arith}
use ottie.Providers.Reason.{rate_limit}
use ottie.Providers.Cooldown.{
  CooldownTracker, new_cooldown_tracker, mark_failure, mark_success, is_available,
  cooldown_remaining,
}
use ottie.Providers.Cooldown.Blocks.{cooldown_remaining_exact}
use ottie.Providers.Cooldown.Streak.{mark_failures, documented_cooldown, streak_blocks}

abbrev one_failure : CooldownTracker
one_failure = mark_failure 100 "openai" rate_limit new_cooldown_tracker

cooldown_remaining_exact_example :
    (is_available (100 + 7) "openai" one_failure ≡ true)
    ↔ (cooldown_remaining 100 "openai" one_failure ≤ 7)
cooldown_remaining_exact_example = cooldown_remaining_exact 100 7 "openai" one_failure

near : 300 - 150 ≤ one_failure.failure_window
unfolding mark_failure new_cooldown_tracker
near = omega arith

streak_blocks_example :
    is_available 400 "openai"
      (mark_failures "openai" rate_limit (150 ∷ 300 ∷ []) (mark_success "openai" one_failure))
    ≡ leb (300 + documented_cooldown rate_limit 2) 400
streak_blocks_example = streak_blocks "openai" rate_limit one_failure 150 (300 ∷ []) 400 (near, tt)
