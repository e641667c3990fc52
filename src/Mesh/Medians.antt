-- ===== src/Mesh/Medians.antt =====
-- What a median is (`median` in mesh.go).
use wireguard_mesh.Prelude.{
  ℕ, zero, suc, ◌+◌, ◌-◌, ◌*◌, ◌/◌, ◌≡◌, ◌≢◌, ◌≤◌, ◌<◌, refl, Bool, true, ◌&&◌, Option, none, some,
  List, [], ◌∷◌, arith, length, get_elem?, filter, map, ltb, leb, ◌==◌, if◌then◌else◌, ◌⊎◌, inl,
  inr, ◌∙◌, sym, All, Bool-cases,
}
use wireguard_mesh.Mesh.State.{Config, Sample, Measurements}
use wireguard_mesh.Mesh.Measure.{insert_sorted, sort, recent, needed, median}

-- How many numbers pass this test.
unfoldable pub count : (ℕ → Bool) → List ℕ → ℕ
count keep [] = 0
count keep (x ∷ xs) = (if keep x then 1 else 0) + count keep xs

-- How many samples have a time within this window and a round-trip time that passes this test.
unfoldable pub votes : (ℕ → Bool) → ℕ → ℕ → List Sample → ℕ
votes keep now window [] = 0
votes keep now window (s ∷ ss) =
    (if leb now (s.at + window) && keep s.rtt then 1 else 0) + votes keep now window ss

-- Each number is at most those after it.
abbrev Ordered : List ℕ → Type 0
Ordered [] = Unit
Ordered (x ∷ xs) = All (λ y. x ≤ y) xs × Ordered xs

count-insert_sorted :
    (keep : ℕ → Bool) (x : ℕ) (xs : List ℕ)
    → count keep (insert_sorted x xs) ≡ (if keep x then 1 else 0) + count keep xs
unfolding insert_sorted count
count-insert_sorted keep x [] = refl
count-insert_sorted keep x (y ∷ xs) = ground (arith, count-insert_sorted keep x xs)

count-sort : (keep : ℕ → Bool) (xs : List ℕ) → count keep (sort xs) ≡ count keep xs
unfolding sort count
count-sort keep [] = refl
count-sort keep (x ∷ xs) = ground (arith, count-insert_sorted keep x (sort xs), count-sort keep xs)

All-weaker : (x y : ℕ) (xs : List ℕ) → x ≤ y → All (λ z. y ≤ z) xs → All (λ z. x ≤ z) xs
All-weaker x y [] l h = tt
All-weaker x y (z ∷ xs) l h = (omega (arith, h.0), All-weaker x y xs l h.1)

All-insert_sorted :
    (x y : ℕ) (xs : List ℕ) → x ≤ y → All (λ z. x ≤ z) xs → All (λ z. x ≤ z) (insert_sorted y xs)
unfolding insert_sorted
All-insert_sorted x y [] l h = (l, tt)
All-insert_sorted x y (z ∷ xs) l h = ground (arith, All-insert_sorted x y xs)

insert_sorted-Ordered : (x : ℕ) (xs : List ℕ) → Ordered xs → Ordered (insert_sorted x xs)
unfolding insert_sorted
insert_sorted-Ordered x [] h = (tt, tt)
insert_sorted-Ordered x (y ∷ xs) h = elim (Bool-cases (leb x y)) [
  | inl l ↦ rw l ((ground arith, All-weaker x y xs (ground arith) h.0), h)
  | inr l ↦ rw l (All-insert_sorted y x xs (ground arith) h.0, insert_sorted-Ordered x xs h.1)
]

sort-Ordered : (xs : List ℕ) → Ordered (sort xs)
unfolding sort
sort-Ordered [] = tt
sort-Ordered (x ∷ xs) = insert_sorted-Ordered x (sort xs) (sort-Ordered xs)

count-below : (x : ℕ) (xs : List ℕ) → All (λ y. x ≤ y) xs → count (λ y. ltb y x) xs ≡ 0
unfolding count
count-below x [] h = refl
count-below x (y ∷ xs) h = ground (arith, count-below x xs)

get_elem?-bound :
    (x y : ℕ) (xs : List ℕ) (i : ℕ) → All (λ z. x ≤ z) xs → get_elem? xs i ≡ some y → x ≤ y
get_elem?-bound x y [] i h e = ground arith
get_elem?-bound x y (z ∷ xs) zero h e = ground arith
get_elem?-bound x y (z ∷ xs) (suc i) h e = get_elem?-bound x y xs i h.1 e

-- In an ordered list at most i numbers are below the number at i, and more than i do not exceed it.
rank :
    (x : ℕ) (xs : List ℕ) (i : ℕ)
    → Ordered xs
    → get_elem? xs i ≡ some x
    → (count (λ y. ltb y x) xs ≤ i) × (i < count (λ y. leb y x) xs) × (0 < count (λ y. y == x) xs)
unfolding count
rank x [] i h e = ground arith
rank x (y ∷ xs) zero h e = ground (arith, count-below y xs)
rank x (y ∷ xs) (suc i) h e =
    let tail = rank x xs i h.1 e in let below = get_elem?-bound y x xs i h.0 e in ground arith

count-recent :
    (keep : ℕ → Bool) (now window : ℕ) (ss : List Sample)
    → count keep (map (λ (s : Sample). s.rtt) (filter (λ (s : Sample). leb (now - s.at) window) ss))
      ≡ votes keep now window ss
unfolding count votes
count-recent keep now window [] = refl
count-recent keep now window (s ∷ ss) = ground (arith, count-recent keep now window ss)

count-all : (xs : List ℕ) → count (λ _. true) xs ≡ length xs
unfolding count
count-all [] = refl
count-all (x ∷ xs) = ground (arith, count-all xs)

get_elem?-none : (xs : List ℕ) (i : ℕ) → get_elem? xs i ≡ none → length xs ≤ i
get_elem?-none [] i e = omega arith
get_elem?-none (x ∷ xs) zero e = ground arith
get_elem?-none (x ∷ xs) (suc i) e = ground (arith, get_elem?-none xs i)

-- A median stands on measurements that have gone on for a whole window, with an answer within the
-- window to at least 80% of the scheduled probes; it is one of these answers, at most half of them are
-- below it, and more than half do not exceed it. There is no median where this cannot be.
abbrev pub IsMedianOf : Measurements → ℕ → Config → Option ℕ → Type 0
IsMedianOf w now c none =
    (w.since ≡ 0)
    ⊎ (now - w.since < c.window)
    ⊎ (10 * votes (λ _. true) now c.window w.samples < 8 * (c.window / c.probe))
    ⊎ (votes (λ _. true) now c.window w.samples ≡ 0)
IsMedianOf w now c (some rtt) =
    (w.since ≢ 0)
    × (c.window ≤ now - w.since)
    × (8 * (c.window / c.probe) ≤ 10 * votes (λ _. true) now c.window w.samples)
    × (0 < votes (λ x. x == rtt) now c.window w.samples)
    × (2 * votes (λ x. ltb x rtt) now c.window w.samples ≤ votes (λ _. true) now c.window w.samples)
    × (votes (λ _. true) now c.window w.samples < 2 * votes (λ x. leb x rtt) now c.window w.samples)

count-votes :
    (keep : ℕ → Bool) (w : Measurements) (now : ℕ) (c : Config)
    → count keep (sort (recent w now c)) ≡ votes keep now c.window w.samples
unfolding recent
count-votes keep w now c =
    count-sort keep (recent w now c) ∙ count-recent keep now c.window w.samples

length-recent :
    (w : Measurements) (now : ℕ) (c : Config)
    → length (recent w now c) ≡ votes (λ _. true) now c.window w.samples
length-recent w now c =
    sym (count-all (recent w now c))
    ∙ sym (count-sort (λ _. true) (recent w now c))
    ∙ count-votes (λ _. true) w now c

length-sort : (xs : List ℕ) → length (sort xs) ≡ length xs
length-sort xs = sym (count-all (sort xs)) ∙ count-sort (λ _. true) xs ∙ count-all xs

middle-IsMedianOf :
    (w : Measurements) (now : ℕ) (c : Config) (o : Option ℕ)
    → w.since ≢ 0
    → c.window ≤ now - w.since
    → needed c ≤ length (recent w now c)
    → get_elem? (sort (recent w now c)) (length (recent w now c) / 2) ≡ o
    → IsMedianOf w now c o
unfolding needed
middle-IsMedianOf w now c none h l n e =
    let outside = get_elem?-none (sort (recent w now c)) (length (recent w now c) / 2) e in
    let xs = length-recent w now c in
    let same = length-sort (recent w now c) in inr (inr (inr (omega (arith, outside, xs, same))))
middle-IsMedianOf w now c (some rtt) h l n e =
    let (below, upto, itself) =
      rank rtt (sort (recent w now c)) (length (recent w now c) / 2) (sort-Ordered _) e in
    let xs = length-recent w now c in
    let a = count-votes (λ y. ltb y rtt) w now c in
    let b = count-votes (λ y. leb y rtt) w now c in
    let d = count-votes (λ y. y == rtt) w now c in
    (
      h,
      l,
      omega (arith, n, xs),
      omega (arith, itself, d),
      omega (arith, below, xs, a),
      omega (arith, upto, xs, b),
    )

few_votes :
    (w : Measurements) (now : ℕ) (c : Config)
    → ltb (length (recent w now c)) (needed c) ≡ true
    → 10 * votes (λ _. true) now c.window w.samples < 8 * (c.window / c.probe)
unfolding needed
few_votes w now c h =
    let few : length (recent w now c) < needed c = ground arith in
    omega (arith, few, length-recent w now c)

-- Measurements give a median exactly where they have gone on for a whole window and at least 80% of the
-- scheduled probes in it were answered, one at least; it is the round-trip time of such an answer, at
-- most half of them are below it, and more than half do not exceed it.
pub median-IsMedianOf :
    (w : Measurements) (now : ℕ) (c : Config) → IsMedianOf w now c (median w now c)
unfolding median
median-IsMedianOf w now c = elim (Bool-cases (w.since == 0)) [
  | inl unused ↦ rw (unused, IsMedianOf) (inl (ground arith))
  | inr used ↦ elim (Bool-cases (ltb (now - w.since) c.window)) [
    | inl early ↦ rw (used, early, IsMedianOf) (inr (inl (ground arith)))
    | inr late ↦ elim (Bool-cases (ltb (length (recent w now c)) (needed c))) [
      | inl few ↦ rw (used, late, few, IsMedianOf) (inr (inr (inl (few_votes w now c few))))
      | inr enough ↦
          rw (used, late, enough)
            (middle-IsMedianOf w now c _ (ground arith) (ground arith) (ground arith) refl)
    ]
  ]
]
