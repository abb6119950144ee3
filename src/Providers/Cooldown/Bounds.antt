-- ===== src/Providers/Cooldown/Bounds.antt =====
-- The size of the two cooldowns of cooldown.go, against the tables in its comments.
use ottie.Prelude.{ℕ, zero, suc, ◌-◌, ◌*◌, ◌≤◌, ◌≡◌, refl, min, max, arith}
use ottie.Providers.Cooldown.{calculate_standard_cooldown, calculate_billing_cooldown, millisecond}

abbrev pub minute : ℕ
minute = 60_000 * millisecond

abbrev pub hour : ℕ
hour = 60 * minute

-- The table in the comment of `calculateStandardCooldown`.
abbrev pub standard_table : ℕ → ℕ
standard_table zero = minute
standard_table (suc zero) = minute
standard_table (suc (suc zero)) = 5 * minute
standard_table (suc (suc (suc zero))) = 25 * minute
standard_table (suc (suc (suc (suc n)))) = hour

-- The table in the comment of `calculateBillingCooldown`.
abbrev pub billing_table : ℕ → ℕ
billing_table zero = 5 * hour
billing_table (suc zero) = 5 * hour
billing_table (suc (suc zero)) = 10 * hour
billing_table (suc (suc (suc zero))) = 20 * hour
billing_table (suc (suc (suc (suc n)))) = 24 * hour

pub standard_cooldown-table : (n : ℕ) → calculate_standard_cooldown n ≡ standard_table n
unfolding calculate_standard_cooldown
standard_cooldown-table zero = refl
standard_cooldown-table (suc zero) = refl
standard_cooldown-table (suc (suc zero)) = refl
standard_cooldown-table (suc (suc (suc zero))) = refl
standard_cooldown-table (suc (suc (suc (suc n)))) =
    let e : min (max 1 (suc (suc (suc (suc n)))) - 1) 3 ≡ 3 = omega arith in rw e refl

billing_exponent : (n : ℕ) → 11 ≤ n → min (max 1 n - 1) 10 ≡ 10
billing_exponent n h = omega arith

pub billing_cooldown-table : (n : ℕ) → calculate_billing_cooldown n ≡ billing_table n
unfolding calculate_billing_cooldown
billing_cooldown-table zero = refl
billing_cooldown-table (suc zero) = refl
billing_cooldown-table (suc (suc zero)) = refl
billing_cooldown-table (suc (suc (suc zero))) = refl
billing_cooldown-table (suc (suc (suc (suc zero)))) = refl
billing_cooldown-table (suc (suc (suc (suc (suc zero))))) = refl
billing_cooldown-table (suc (suc (suc (suc (suc (suc zero)))))) = refl
billing_cooldown-table (suc (suc (suc (suc (suc (suc (suc zero))))))) = refl
billing_cooldown-table (suc (suc (suc (suc (suc (suc (suc (suc zero)))))))) = refl
billing_cooldown-table (suc (suc (suc (suc (suc (suc (suc (suc (suc zero))))))))) = refl
billing_cooldown-table (suc (suc (suc (suc (suc (suc (suc (suc (suc (suc zero)))))))))) = refl
billing_cooldown-table (suc (suc (suc (suc (suc (suc (suc (suc (suc (suc (suc n))))))))))) =
    let m : ℕ = suc (suc (suc (suc (suc (suc (suc (suc (suc (suc (suc n)))))))))) in
    rw (billing_exponent m (omega arith)) refl

pub standard_table_bounds : (n : ℕ) → (minute ≤ standard_table n) × (standard_table n ≤ hour)
standard_table_bounds zero = omega arith
standard_table_bounds (suc zero) = omega arith
standard_table_bounds (suc (suc zero)) = omega arith
standard_table_bounds (suc (suc (suc zero))) = omega arith
standard_table_bounds (suc (suc (suc (suc n)))) = omega arith

pub billing_table_bounds : (n : ℕ) → (5 * hour ≤ billing_table n) × (billing_table n ≤ 24 * hour)
billing_table_bounds zero = omega arith
billing_table_bounds (suc zero) = omega arith
billing_table_bounds (suc (suc zero)) = omega arith
billing_table_bounds (suc (suc (suc zero))) = omega arith
billing_table_bounds (suc (suc (suc (suc n)))) = omega arith

-- The cooldown after any number of errors is the documented one of both tables: 1, 5, 25 and then
-- 60 minutes for a standard failure, 5, 10, 20 and then 24 hours for a billing failure, so it lies
-- between 1 minute and 1 hour, and between 5 and 24 hours.
pub cooldown_tables :
    (n : ℕ)
    → (calculate_standard_cooldown n ≡ standard_table n)
      × (calculate_billing_cooldown n ≡ billing_table n)
      × (minute ≤ calculate_standard_cooldown n)
      × (calculate_standard_cooldown n ≤ hour)
      × (5 * hour ≤ calculate_billing_cooldown n)
      × (calculate_billing_cooldown n ≤ 24 * hour)
cooldown_tables n = (
  standard_cooldown-table n,
  billing_cooldown-table n,
  rw standard_cooldown-table (standard_table_bounds n).0,
  rw standard_cooldown-table (standard_table_bounds n).1,
  rw billing_cooldown-table (billing_table_bounds n).0,
  rw billing_cooldown-table (billing_table_bounds n).1,
)
