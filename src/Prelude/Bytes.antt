-- ===== src/Prelude/Bytes.antt =====
-- Fixed-width byte strings as `encoding/binary` writes them: big-endian, one number to a byte.
use Prim.Native.Nat.{ℕ, zero, suc, ◌+◌, ◌*◌, ◌/◌, ◌%◌, ◌^◌, ◌<◌}
use mathlib.Core.Path.{◌≡◌, refl, ◌∙◌}
use mathlib.Core.List.{List, [], ◌∷◌, ◌++◌}
use native.Mathlib.Omega.{arith}
use native.Mathlib.Nat.{pow-suc}
use wireguard_mesh.Prelude.Lists.{length, length-append}

abbrev pub Bytes : Type 0
Bytes = List ℕ

-- the `n` bytes of a number
unfoldable pub be : ℕ → ℕ → Bytes
be zero x = []
be (suc n) x = be n (x / 256) ++ (x % 256 ∷ [])

be_value : ℕ → Bytes → ℕ
be_value acc [] = acc
be_value acc (b ∷ bs) = be_value (acc * 256 + b) bs

unfoldable pub of_be : Bytes → ℕ
unfolding be_value
of_be bs = be_value 0 bs

pub length-be : (n x : ℕ) → length (be n x) ≡ n
unfolding be
length-be zero x = refl
length-be (suc n) x =
    omega (arith, length-append (be n (x / 256)) (x % 256 ∷ []), length-be n (x / 256))

be_value-snoc :
    (acc : ℕ) (bs : Bytes) (b : ℕ) → be_value acc (bs ++ (b ∷ [])) ≡ be_value acc bs * 256 + b
unfolding be_value
be_value-snoc acc [] b = refl
be_value-snoc acc (c ∷ bs) b = be_value-snoc (acc * 256 + c) bs b

-- A number that fits its width is read back.
pub of_be-be : (n x : ℕ) → x < 256 ^ n → of_be (be n x) ≡ x
unfolding be of_be
of_be-be zero x h = omega arith
of_be-be (suc n) x h =
    be_value-snoc 0 (be n (x / 256)) (x % 256)
    ∙ omega (arith, of_be-be n (x / 256) (omega (arith, pow-suc 256 n)))
