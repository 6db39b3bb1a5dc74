-- ===== src/Gateway/Backoff.antt =====
-- The wait before a reconnect.
use Prim.Native.Nat.{min}
use native.Mathlib.Nat.{pow-suc}
use voxter.Common.{ℕ, zero, suc, ◌-◌, ◌*◌, ◌^◌, ◌≤◌, ◌≡◌, refl, arith}
use voxter.Gateway.{reconnect_delay}

pow_late : (m : ℕ) → 64 ≤ 2 ^ suc (suc (suc (suc (suc (suc m)))))
pow_late zero = omega arith
pow_late (suc m) = rw (pow-suc 2 (suc (suc (suc (suc (suc (suc m))))))) (omega (arith, pow_late m))

capped : (k : ℕ) → min 6 (suc (suc (suc (suc (suc (suc (suc k)))))) - 1) ≡ 6
capped k = omega arith

-- The wait before attempt n + 1 is 500 ms doubled n times, at most 30 seconds: the bound that the
-- shift has of its own changes no wait.
pub reconnect_delay_lem : (n : ℕ) → reconnect_delay (suc n) ≡ min 30000 (500 * 2 ^ n)
unfolding reconnect_delay
reconnect_delay_lem zero = refl
reconnect_delay_lem (suc zero) = refl
reconnect_delay_lem (suc (suc zero)) = refl
reconnect_delay_lem (suc (suc (suc zero))) = refl
reconnect_delay_lem (suc (suc (suc (suc zero)))) = refl
reconnect_delay_lem (suc (suc (suc (suc (suc zero))))) = refl
reconnect_delay_lem (suc (suc (suc (suc (suc (suc m)))))) =
    rw (capped m) (omega (arith, pow_late m))
