-- ===== src/Prelude/Bits.antt =====
-- Single bits of a 64-bit word, and the left shift that drops what leaves the word.
use Prim.Native.Nat.{ℕ, zero, suc, ◌+◌, ◌*◌, ◌/◌, ◌%◌, ◌^◌, ◌<◌}
use mathlib.Core.Path.{◌≡◌, ap, ◌∙◌, subst, sym}
use mathlib.Core.Bool.{Bool, true}
use native.Mathlib.Omega.{arith}
use native.Mathlib.Nat.{
  pow-suc, one-le-pow, div-add-mod, mul-add-mod_self_left, mod-eq_of_lt, mod-lt, zero-add, mul-one,
  suc-add,
}
use wireguard_mesh.Prelude.Tests.{◌==◌}

-- `w & (1 << k) != 0`
unfoldable pub test_bit : ℕ → ℕ → Bool
test_bit w zero = w % 2 == 1
test_bit w (suc k) = test_bit (w / 2) k

-- `w | 1 << k`
unfoldable pub set_bit : ℕ → ℕ → ℕ
set_bit w zero = w / 2 * 2 + 1
set_bit w (suc k) = set_bit (w / 2) k * 2 + w % 2

-- `w << d` on a uint64
unfoldable pub shift_left : ℕ → ℕ → ℕ
shift_left w d = w * 2 ^ d % 2 ^ 64

pub test_bit-set_bit_self : (w k : ℕ) → test_bit (set_bit w k) k ≡ true
unfolding test_bit set_bit
test_bit-set_bit_self w zero = ground arith
test_bit-set_bit_self w (suc k) =
    subst (λ t. test_bit t k ≡ true) (omega arith) (test_bit-set_bit_self (w / 2) k)

pub test_bit-set_bit_old : (w k j : ℕ) → test_bit w j ≡ true → test_bit (set_bit w k) j ≡ true
unfolding test_bit set_bit
test_bit-set_bit_old w zero zero h = ground arith
test_bit-set_bit_old w zero (suc j) h = subst (λ t. test_bit t j ≡ true) (omega arith) h
test_bit-set_bit_old w (suc k) zero h = ground arith
test_bit-set_bit_old w (suc k) (suc j) h =
    subst (λ t. test_bit t j ≡ true) (omega arith) (test_bit-set_bit_old (w / 2) k j h)

-- The remainder by twice a number: the remainder of the half, and the lowest bit.
mod_double : (w m n : ℕ) → 0 < m → n ≡ 2 * m → w % n ≡ w / 2 % m * 2 + w % 2
mod_double w m n pos e =
    let low : ℕ = w / 2 % m * 2 + w % 2 in
    let split : w ≡ n * (w / 2 / m) + low =
      omega (arith, div-add-mod (w / 2) m, ap (λ (t : ℕ). t * (w / 2 / m)) e) in
    let fits : low < n = omega (arith, mod-lt (w / 2) pos) in
    ap (λ (t : ℕ). t % n) split ∙ mul-add-mod_self_left n (w / 2 / m) low ∙ mod-eq_of_lt fits

half-mod : (w m : ℕ) → w % 2 ^ suc m / 2 ≡ w / 2 % 2 ^ m
half-mod w m = omega (
  arith,
  mod_double w (2 ^ m) (2 ^ suc m) (one-le-pow m 2 (omega arith)) (omega (arith, pow-suc 2 m)),
)

test_bit-mod : (w m j : ℕ) → j < m → test_bit (w % 2 ^ m) j ≡ test_bit w j
unfolding test_bit
test_bit-mod w zero j h = elim h [ ]
test_bit-mod w (suc m) zero h = grind (
  arith,
  mod_double w (2 ^ m) (2 ^ suc m) (one-le-pow m 2 (omega arith)) (omega (arith, pow-suc 2 m)),
)
test_bit-mod w (suc m) (suc j) h = rw (half-mod w m) (test_bit-mod (w / 2) m j (omega arith))

test_bit-mul : (w d j : ℕ) → test_bit (w * 2 ^ d) (d + j) ≡ test_bit w j
unfolding test_bit
test_bit-mul w zero j = rw (zero-add j, mul-one w)
test_bit-mul w (suc d) j =
    subst (λ t. test_bit (w * 2 ^ suc d) t ≡ test_bit w j) (sym (suc-add d j))
      (subst (λ t. test_bit t (d + j) ≡ test_bit w j)
        (omega (arith, ap (λ (t : ℕ). w * t) (pow-suc 2 d))) (test_bit-mul w d j))

-- A shift moves each bit up; a bit that stays in the word is kept.
pub test_bit-shift_left :
    (w d j e : ℕ) → e ≡ d + j → e < 64 → test_bit (shift_left w d) e ≡ test_bit w j
unfolding shift_left
test_bit-shift_left w d j e p h =
    rw p (test_bit-mod (w * 2 ^ d) 64 (d + j) (omega arith) ∙ test_bit-mul w d j)
