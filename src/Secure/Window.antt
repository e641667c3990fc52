-- ===== src/Secure/Window.antt =====
-- The replay window of a session (the data branch of `receive` in secure.go): a counter is taken
-- once, at most 63 behind the highest one.
use wireguard_mesh.Prelude.{
  ℕ, ◌-◌, ◌≡◌, refl, Bool, true, false, ◌&&◌, ◌||◌, List, [], ◌∷◌, arith, ltb, leb, contains,
  if◌then◌else◌, Bool-cases, inl, inr,
}
use wireguard_mesh.Prelude.Bits.{
  test_bit, set_bit, shift_left, test_bit-set_bit_self, test_bit-set_bit_old, test_bit-shift_left,
}
use wireguard_mesh.Secure.State.{SecureSession}

-- The test that refuses a counter: too old, or seen.
unfoldable pub replayed : SecureSession → ℕ → Bool
replayed s n = leb n s.highest && (leb 64 (s.highest - n) || test_bit s.window (s.highest - n))

-- What an authenticated packet records.
unfoldable pub commit_window : SecureSession → ℕ → SecureSession
commit_window s n =
    let s' =
      if ltb s.highest n
      then record s { window = shift_left s.window (n - s.highest); highest = n }
      else s in
    record s' { window = set_bit s'.window (s'.highest - n) }

-- A recorded counter is refused from then on.
pub replayed-commit_window_self :
    (s : SecureSession) (n : ℕ) → replayed (commit_window s n) n ≡ true
unfolding replayed commit_window
replayed-commit_window_self s n = ground (
  arith,
  test_bit-set_bit_self (shift_left s.window (n - s.highest)) (n - n),
  test_bit-set_bit_self s.window (s.highest - n),
)

-- What was refused stays refused when another counter is recorded.
pub replayed-commit_window_old :
    (s : SecureSession) (n m : ℕ) → replayed s m ≡ true → replayed (commit_window s n) m ≡ true
unfolding replayed commit_window
replayed-commit_window_old s n m h = ground (
  arith,
  test_bit-set_bit_old (shift_left s.window (n - s.highest)) (n - n) (n - m),
  test_bit-set_bit_old s.window (s.highest - n) (s.highest - m),
  test_bit-shift_left s.window (n - s.highest) (s.highest - m) (n - m),
)

-- The counters that are taken when authenticated packets arrive with these counters, in order.
unfoldable pub accepted : SecureSession → List ℕ → List ℕ
accepted s [] = []
accepted s (n ∷ ns) =
    let later = accepted (commit_window s n) ns in
    let others = accepted s ns in if replayed s n then others else n ∷ later

not-accepted :
    (s : SecureSession) (m : ℕ) (ns : List ℕ)
    → replayed s m ≡ true
    → contains (accepted s ns) m ≡ false
unfolding accepted
not-accepted s m [] h = refl
not-accepted s m (n ∷ ns) h = elim (Bool-cases (replayed s n)) [
  | inl old ↦ rw old (not-accepted s m ns h)
  | inr fresh ↦
      ground (arith, not-accepted (commit_window s n) m ns (replayed-commit_window_old s n m h))
]

-- No number stands twice in the list.
abbrev pub NoRepeat : List ℕ → Type 0
NoRepeat [] = Unit
NoRepeat (n ∷ ns) = (contains ns n ≡ false) × NoRepeat ns

-- Whatever counters arrive, in whatever order and however often, none is taken twice.
pub accepted-NoRepeat : (s : SecureSession) (ns : List ℕ) → NoRepeat (accepted s ns)
unfolding accepted
accepted-NoRepeat s [] = tt
accepted-NoRepeat s (n ∷ ns) = elim (Bool-cases (replayed s n)) [
  | inl old ↦ rw old (accepted-NoRepeat s ns)
  | inr fresh ↦ rw fresh (
    not-accepted (commit_window s n) n ns (replayed-commit_window_self s n),
    accepted-NoRepeat (commit_window s n) ns,
  )
]
