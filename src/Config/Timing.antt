-- ===== src/Config/Timing.antt =====
-- What the timing of an accepted configuration (config.go) means for the measurements of mesh.go.
use native.Mathlib.Nat.{
  div-add-mod, mod-lt, mul-div-le, le_of_mul-le-mul_left, lt_of_mul-lt-mul_left,
}
use wireguard_mesh.Prelude.{ℕ, ◌+◌, ◌-◌, ◌*◌, ◌/◌, ◌≡◌, ◌≤◌, ◌<◌, Bool, true, some, subst, arith}
use wireguard_mesh.Config.Read.{Netip, Config, minute, milliseconds, timing_ok, read_config}
use wireguard_mesh.Mesh.State.{Measurements}
use wireguard_mesh.Mesh.State
use wireguard_mesh.Mesh.Measure.{needed, median}
use wireguard_mesh.Mesh.Medians.{IsMedianOf, votes, median-IsMedianOf}

-- The fields of the configuration that the event loop reads. The size of the least gain and the test of
-- the relative gain are not in `Config`, which has their signs only.
abbrev pub mesh_config : Config → ℕ → (ℕ → ℕ → Bool) → State.Config
mesh_config d min_gain gain_kept = record {
  window = d.window;
  probe = d.probe;
  failure = d.failure;
  cooldown = d.cooldown;
  min_gain = min_gain;
  gain_kept = gain_kept;
}

three_fit : (w p : ℕ) → 0 < p → 3 * p ≤ w → 3 ≤ w / p
three_fit w p h l =
    let q = w / p in
    let whole = div-add-mod w p in
    let part = mod-lt w h in
    let below : p * 3 < p * (q + 1) = omega (arith, whole, part, l) in
    omega (arith, lt_of_mul-lt-mul_left p below)

at_most_fit : (w p n : ℕ) → 0 < p → w ≤ p * n → w / p ≤ n
at_most_fit w p n h l =
    let floor = mul-div-le w p in le_of_mul-le-mul_left (omega (arith, floor, l)) h

module _ (N : Netip) where
  read_config-timing_ok : (c d : Config) → read_config N c ≡ some d → timing_ok N d ≡ true
  unfolding read_config timing_ok
  read_config-timing_ok c d h = ground arith

  unfoldable Window : Config → Type 0
  Window d = (100 * milliseconds ≤ d.probe) × (3 * d.probe ≤ d.window) × (d.window ≤ minute)

  timing_ok-Window : (d : Config) → timing_ok N d ≡ true → Window d
  unfolding timing_ok Window
  timing_ok-Window d h = ground arith

  -- Under an accepted configuration a median needs at least three answers, so that no single probe
  -- decides on a path, and at most 480, which the bound of 1024 on the samples that are kept allows.
  pub needed-Attainable :
      (c d : Config) (min_gain : ℕ) (gain_kept : ℕ → ℕ → Bool)
      → read_config N c ≡ some d
      → (3 ≤ needed (mesh_config d min_gain gain_kept))
        × (needed (mesh_config d min_gain gain_kept) ≤ 480)
  unfolding needed Window
  needed-Attainable c d min_gain gain_kept h =
      let (low, fits, high) = timing_ok-Window d (read_config-timing_ok c d h) in
      let positive : 0 < d.probe = omega (arith, low) in
      let least = three_fit d.window d.probe positive fits in
      let most = at_most_fit d.window d.probe 600 positive (omega (arith, low, high)) in
      (omega (arith, least), omega (arith, most))

  -- Under an accepted configuration a median stands on at least three answers within the window, and on
  -- measurements that have gone on for at least 300 milliseconds.
  pub median-ThreeAnswers :
      (c d : Config) (min_gain : ℕ) (gain_kept : ℕ → ℕ → Bool) (w : Measurements) (now rtt : ℕ)
      → read_config N c ≡ some d
      → median w now (mesh_config d min_gain gain_kept) ≡ some rtt
      → (3 ≤ votes (λ _. true) now d.window w.samples) × (300 * milliseconds ≤ now - w.since)
  unfolding Window
  median-ThreeAnswers c d min_gain gain_kept w now rtt h e =
      let m = mesh_config d min_gain gain_kept in
      let (low, fits, high) = timing_ok-Window d (read_config-timing_ok c d h) in
      let least = three_fit d.window d.probe (omega (arith, low)) fits in
      let of_answers = subst (IsMedianOf w now m) e (median-IsMedianOf w now m) in
      (omega (arith, least, of_answers.2), omega (arith, low, fits, of_answers.1))
