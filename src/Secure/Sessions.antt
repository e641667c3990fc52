-- ===== src/Secure/Sessions.antt =====
-- The session table of secure.go: expiry, pruning and the limits on its size.
use wireguard_mesh.Prelude.{
  ℕ, suc, ◌+◌, ◌*◌, ◌≤◌, ◌≡◌, refl, Bool, true, not, ◌&&◌, List, [], ◌∷◌, Option, none, some, arith,
  length, filter, lookup, insert, erase, contains, ltb, leb, if◌then◌else◌, ◌==◌, length-filter-le,
  filter-Distinct, Distinct, length-insert-le, length-insert_old, length-erase-le, insert-Distinct,
  erase-Distinct,
}
use wireguard_mesh.Secure.State.{Secure, SecureSession, second}

unfoldable pub expire : Secure → ℕ → Secure
expire s now = record s { sessions = filter (λ e. ltb now e.1.expires) s.sessions }

-- `Prune` on one session: its new state, or none where it is deleted.
unfoldable pub prune_one : List ℕ → ℕ → ℕ → SecureSession → Option SecureSession
prune_one used now id session =
    if not session.ready
    then some session
    else if contains used id
    then some (record session { unused_since = 0 })
    else if session.unused_since == 0
    then some (record session { unused_since = now })
    else if leb (session.unused_since + 10 * second) now
    then none
    else some session

unfoldable pub prune_all : List ℕ → ℕ → List (ℕ × SecureSession) → List (ℕ × SecureSession)
prune_all used now [] = []
prune_all used now ((id, session) ∷ rest) =
    let kept = prune_all used now rest in
    elim (prune_one used now id session) [ none ↦ kept | some session' ↦ (id, session') ∷ kept ]

unfoldable pub prune : Secure → List ℕ → ℕ → Secure
unfolding expire
prune s used now = let s' = expire s now in record s' { sessions = prune_all used now s'.sessions }

-- the count of `room`
abbrev pub count_peer : ℕ → List (ℕ × SecureSession) → ℕ
count_peer peer [] = 0
count_peer peer (e ∷ rest) = let n = count_peer peer rest in if e.1.peer == peer then suc n else n

unfoldable pub room : Secure → ℕ → Bool
room s peer = ltb (length s.sessions) 512 && ltb (count_peer peer s.sessions) 64

-- At most 512 sessions, at most 64 with each peer, each under one ID.
pub record IsBounded (sessions : List (ℕ × SecureSession)) : Type 0 where
  pub total : length sessions ≤ 512
  pub shares : (peer : ℕ) → count_peer peer sessions ≤ 64
  pub distinct : Distinct sessions

count_peer-filter-le :
    (keep : ℕ × SecureSession → Bool) (peer : ℕ) (m : List (ℕ × SecureSession))
    → count_peer peer (filter keep m) ≤ count_peer peer m
count_peer-filter-le keep peer [] = omega arith
count_peer-filter-le keep peer (e ∷ m) = ground (arith, count_peer-filter-le keep peer m)

pub expire-IsBounded :
    (s : Secure) (now : ℕ) → IsBounded s.sessions → IsBounded (expire s now).sessions
unfolding expire
expire-IsBounded s now b = record {
  total = omega (arith, length-filter-le (λ e. ltb now e.1.expires) s.sessions, b.total);
  shares = λ peer.
      omega (arith, b.shares peer, count_peer-filter-le (λ e. ltb now e.1.expires) peer s.sessions);
  distinct = filter-Distinct (λ e. ltb now e.1.expires) s.sessions b.distinct;
}

prune_one-peer :
    (used : List ℕ) (now id : ℕ) (s t : SecureSession)
    → prune_one used now id s ≡ some t
    → t.peer ≡ s.peer
unfolding prune_one
prune_one-peer used now id s t h = ground arith

length-prune_all-le :
    (used : List ℕ) (now : ℕ) (m : List (ℕ × SecureSession))
    → length (prune_all used now m) ≤ length m
unfolding prune_all
length-prune_all-le used now [] = omega arith
length-prune_all-le used now ((id, s) ∷ m) = ground (arith, length-prune_all-le used now m)

count_peer-prune_all-le :
    (used : List ℕ) (now peer : ℕ) (m : List (ℕ × SecureSession))
    → count_peer peer (prune_all used now m) ≤ count_peer peer m
unfolding prune_all
count_peer-prune_all-le used now peer [] = omega arith
count_peer-prune_all-le used now peer ((id, s) ∷ m) =
    grind (arith, count_peer-prune_all-le used now peer m, prune_one-peer used now id s)

lookup-prune_all-none :
    (used : List ℕ) (now k : ℕ) (m : List (ℕ × SecureSession))
    → lookup k m ≡ none
    → lookup k (prune_all used now m) ≡ none
unfolding prune_all
lookup-prune_all-none used now k [] h = refl
lookup-prune_all-none used now k ((id, s) ∷ m) h =
    ground (arith, lookup-prune_all-none used now k m)

prune_all-Distinct :
    (used : List ℕ) (now : ℕ) (m : List (ℕ × SecureSession))
    → Distinct m
    → Distinct (prune_all used now m)
unfolding prune_all
prune_all-Distinct used now [] d = tt
prune_all-Distinct used now ((id, s) ∷ m) d =
    ground (arith, lookup-prune_all-none used now id m, prune_all-Distinct used now m)

pub prune-IsBounded :
    (s : Secure) (used : List ℕ) (now : ℕ)
    → IsBounded s.sessions
    → IsBounded (prune s used now).sessions
unfolding prune
prune-IsBounded s used now b =
    let c = expire-IsBounded s now b in
    let m = (expire s now).sessions in
    record {
      total = omega (arith, length-prune_all-le used now m, c.total);
      shares = λ peer. omega (arith, c.shares peer, count_peer-prune_all-le used now peer m);
      distinct = prune_all-Distinct used now m c.distinct;
    }

count_peer-insert_new :
    (peer id : ℕ) (t : SecureSession) (m : List (ℕ × SecureSession))
    → lookup id m ≡ none
    → count_peer peer (insert id t m) ≡ (if t.peer == peer then 1 else 0) + count_peer peer m
count_peer-insert_new peer id t [] h = ground arith
count_peer-insert_new peer id t (e ∷ m) h = ground (arith, count_peer-insert_new peer id t m)

-- A session that `room` admits keeps the table bounded.
pub insert_new-IsBounded :
    (s : Secure) (id : ℕ) (t : SecureSession)
    → room s t.peer ≡ true
    → lookup id s.sessions ≡ none
    → IsBounded s.sessions
    → IsBounded (insert id t s.sessions)
unfolding room
insert_new-IsBounded s id t r new b = record {
  total = ground (arith, length-insert-le id t s.sessions);
  shares = λ peer. ground (arith, count_peer-insert_new peer id t s.sessions new, b.shares peer);
  distinct = insert-Distinct id t s.sessions b.distinct;
}

count_peer-insert_old :
    (peer id : ℕ) (t old : SecureSession) (m : List (ℕ × SecureSession))
    → lookup id m ≡ some old
    → t.peer ≡ old.peer
    → count_peer peer (insert id t m) ≡ count_peer peer m
count_peer-insert_old peer id t old [] h p = ground arith
count_peer-insert_old peer id t old (e ∷ m) h p =
    ground (arith, count_peer-insert_old peer id t old m)

-- A session that is replaced by one of the same peer keeps the table bounded.
pub insert_old-IsBounded :
    (id : ℕ) (t old : SecureSession) (m : List (ℕ × SecureSession))
    → lookup id m ≡ some old
    → t.peer ≡ old.peer
    → IsBounded m
    → IsBounded (insert id t m)
insert_old-IsBounded id t old m h p b = record {
  total = omega (arith, length-insert_old id t old m h, b.total);
  shares = λ peer. omega (arith, count_peer-insert_old peer id t old m h p, b.shares peer);
  distinct = insert-Distinct id t m b.distinct;
}

count_peer-erase-le :
    (peer id : ℕ) (m : List (ℕ × SecureSession)) → count_peer peer (erase id m) ≤ count_peer peer m
count_peer-erase-le peer id [] = omega arith
count_peer-erase-le peer id (e ∷ m) = ground (arith, count_peer-erase-le peer id m)

pub erase-IsBounded : (id : ℕ) (m : List (ℕ × SecureSession)) → IsBounded m → IsBounded (erase id m)
erase-IsBounded id m b = record {
  total = omega (arith, length-erase-le id m, b.total);
  shares = λ peer. omega (arith, count_peer-erase-le peer id m, b.shares peer);
  distinct = erase-Distinct id m b.distinct;
}
