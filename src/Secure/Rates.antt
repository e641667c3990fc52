-- ===== src/Secure/Rates.antt =====
-- The rate limiter of secure.go over a sequence of attempts.
use wireguard_mesh.Prelude.{
  ℕ, suc, ◌+◌, ◌-◌, ◌<◌, ◌≡◌, List, [], ◌∷◌, arith, length, if◌then◌else◌, All,
}
use Prim.Native.Nat.{min}
use wireguard_mesh.Secure.State.{SecureRate, allow}

-- How many attempts at these times are granted.
abbrev pub granted : SecureRate → ℕ → List ℕ → ℕ
granted r limit [] = 0
granted r limit (now ∷ times) =
    let (r', admitted) = allow r now limit in
    let later = granted r' limit times in if admitted then suc later else later

-- Within one window the limiter grants exactly what is left of the limit, and no more.
pub granted_window :
    (r : SecureRate) (limit : ℕ) (times : List ℕ)
    → All (λ now. now < r.until) times
    → granted r limit times ≡ min (length times) (limit - r.used)
unfolding allow
granted_window r limit [] h = omega arith
granted_window r limit (now ∷ times) h = ground (
  arith,
  granted_window r limit times h.1,
  granted_window (record r { used = r.used + 1 }) limit times h.1,
)
