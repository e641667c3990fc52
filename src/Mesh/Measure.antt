-- ===== src/Mesh/Measure.antt =====
-- Round-trip times and the choice of a path by them (`measurements`, `improves` and `fresh`).
use wireguard_mesh.Prelude.{
  ℕ, ◌+◌, ◌-◌, ◌*◌, ◌/◌, Bool, not, ◌&&◌, ◌||◌, Option, none, List, [], ◌∷◌, ◌++◌, length, filter,
  map, get_elem?, ltb, leb, if◌then◌else◌, ◌==◌,
}
use wireguard_mesh.Mesh.State.{Config, Sample, Measurements, MeshPath}

unfoldable pub add : Measurements → ℕ → ℕ → ℕ → Measurements
add w now rtt window =
    let kept = filter (λ (s : Sample). leb (now - s.at) window) w.samples in
    record w {
      samples =
          if ltb (length kept) 1024 then kept ++ (record { at = now; rtt = rtt } ∷ []) else kept;
    }

-- `slices.Sort`
unfoldable pub insert_sorted : ℕ → List ℕ → List ℕ
insert_sorted x [] = x ∷ []
insert_sorted x (y ∷ ys) = if leb x y then x ∷ y ∷ ys else y ∷ insert_sorted x ys

unfoldable pub sort : List ℕ → List ℕ
unfolding insert_sorted
sort [] = []
sort (x ∷ xs) = insert_sorted x (sort xs)

-- the round-trip times that are not older than the window
unfoldable pub recent : Measurements → ℕ → Config → List ℕ
recent w now c =
    map (λ (s : Sample). s.rtt) (filter (λ (s : Sample). leb (now - s.at) c.window) w.samples)

-- 80% of the scheduled probes, rounded up
unfoldable pub needed : Config → ℕ
needed c = (c.window / c.probe * 8 + 9) / 10

unfoldable pub median : Measurements → ℕ → Config → Option ℕ
unfolding recent needed sort
median w now c =
    if w.since == 0 || ltb (now - w.since) c.window
    then none
    else if ltb (length (recent w now c)) (needed c)
    then none
    else get_elem? (sort (recent w now c)) (length (recent w now c) / 2)

unfoldable pub improves : ℕ → ℕ → Config → Bool
improves candidate baseline c =
    ltb candidate baseline
    && leb c.min_gain (baseline - candidate)
    && c.gain_kept candidate baseline

unfoldable pub fresh : MeshPath → ℕ → Config → Bool
fresh path now c =
    not (path.port == 0) && not (path.last_pong == 0) && ltb (now - path.last_pong) c.failure
