-- ===== src/Mesh/Probe.antt =====
-- The candidate paths of a peer and its probes (`candidate` and the pong of `receive` in mesh.go).
use wireguard_mesh.Prelude.{
  ℕ, ◌-◌, ◌≡◌, ◌≤◌, refl, Bool, true, false, not, ◌&&◌, Option, none, some, List, [], ◌∷◌, is_some,
  is_none, ltb, leb, ◌==◌, if◌then◌else◌, length, lookup, insert, erase, filter, lookup-erase,
  arith, All, ◌++◌, length-append, length-filter-le,
}
use wireguard_mesh.Mesh.State.{
  AddrPort, Config, Sample, Measurements, MeshPath, MeshPeer, Probe, Message, no_measurements,
}
use wireguard_mesh.Mesh.Measure.{add}

abbrev pub set_cell : ℕ → MeshPath → (ℕ → MeshPath) → (ℕ → MeshPath)
set_cell c path cell d = if d == c then path else cell d

-- `candidate`: the path under this name, or a new one in the cell `new`, unless 16 are known. The
-- link and the address are those that the name was made of.
unfoldable pub candidate : ℕ → ℕ → ℕ → AddrPort → ℕ → MeshPeer → Option ℕ × MeshPeer
candidate name new link addr now p = elim (lookup name p.paths) [
  | some c ↦ (some c, p)
  | none ↦ if leb 16 (length p.paths) then (none, p) else (
    some new,
    record p {
      paths = insert name new p.paths;
      cell =
          set_cell new
            (record {
              link = link;
              addr = addr;
              session = 0;
              incoming = 0;
              port = 0;
              last_pong = 0;
              stats = no_measurements now;
            })
            p.cell;
    },
  )
]

-- `q.path == candidate`
abbrev pub same_path : Option ℕ → Option ℕ → Bool
same_path none none = true
same_path (some a) (some b) = a == b
same_path _ _ = false

-- the pong answers this probe; a pong through the tunnel has no candidate
abbrev pub answers : Config → Bool → ℕ → Option ℕ → ℕ → Probe → Bool
answers c tunnel id target now q =
    q.session == id
    && not (ltb c.failure (now - q.at))
    && (if tunnel then is_none q.path else is_some q.path)
    && same_path q.path target

abbrev answered_path : Config → Probe → ℕ → Message → ℕ → MeshPath → MeshPath
answered_path c q id msg now path = record path {
  session = id;
  port = msg.port;
  last_pong = now;
  stats = if q.measure then add path.stats now (now - q.at) c.window else path.stats;
}

-- the state after a pong that answers the probe `q`
unfoldable pub answered : Config → Bool → ℕ → Message → Option ℕ → ℕ → Probe → MeshPeer → MeshPeer
answered c true id msg target now q p = record p {
  pending = erase msg.token p.pending;
  route = record p.route {
    tunnel = add p.route.tunnel now (now - q.at) c.window;
    last_tunnel = now;
  };
}
answered c false id msg none now q p = record p { pending = erase msg.token p.pending }
answered c false id msg (some d) now q p = record p {
  pending = erase msg.token p.pending;
  cell = set_cell d (answered_path c q id msg now (p.cell d)) p.cell;
}

-- the case of "pong" in `receive`, without the mark on a multicast discovery
unfoldable pub on_pong : Config → Bool → ℕ → Message → Option ℕ → ℕ → MeshPeer → MeshPeer
on_pong c tunnel id msg target now p = elim (lookup msg.token p.pending) [
  | none ↦ p
  | some q ↦ if answers c tunnel id target now q then answered c tunnel id msg target now q p else p
]

answered-pending :
    (c : Config) (tunnel : Bool) (id : ℕ) (msg : Message) (target : Option ℕ) (now : ℕ) (q : Probe)
    (p : MeshPeer)
    → (answered c tunnel id msg target now q p).pending ≡ erase msg.token p.pending
unfolding answered
answered-pending c true id msg target now q p = refl
answered-pending c false id msg none now q p = refl
answered-pending c false id msg (some d) now q p = refl

-- A probe counts at most once: after a pong that answers it, any further pong with its token, over
-- whatever path, session and time, changes nothing.
pub on_pong_once :
    (c : Config) (tunnel : Bool) (id : ℕ) (msg : Message) (target : Option ℕ) (now : ℕ) (q : Probe)
    (p : MeshPeer)
    → lookup msg.token p.pending ≡ some q
    → answers c tunnel id target now q ≡ true
    → (again : Bool) (other : ℕ) (path : Option ℕ) (later : ℕ)
    → on_pong c again other msg path later (on_pong c tunnel id msg target now p)
      ≡ on_pong c tunnel id msg target now p
unfolding on_pong
on_pong_once c tunnel id msg target now q p h a again other path later = ground (
  arith,
  answered-pending c tunnel id msg target now q p,
  lookup-erase msg.token msg.token p.pending,
)

in_window : (keep : Sample → Bool) (xs : List Sample) → All (λ s. keep s ≡ true) (filter keep xs)
in_window keep [] = tt
in_window keep (x ∷ xs) = ground (arith, in_window keep xs)

append-All :
    (P : Sample → Type 0) (xs : List Sample) (x : Sample) → All P xs → P x → All P (xs ++ (x ∷ []))
append-All P [] x h k = (k, tt)
append-All P (y ∷ xs) x h k = (h.0, append-All P xs x h.1 k)

extended-All :
    (P : Sample → Type 0) (more : Bool) (xs : List Sample) (x : Sample)
    → All P xs
    → P x
    → All P (if more then xs ++ (x ∷ []) else xs)
extended-All P true xs x h k = append-All P xs x h k
extended-All P false xs x h k = h

-- After a sample is added to at most 1024, no sample is older than the window, and there are at most
-- 1024.
pub add-Bounded :
    (w : Measurements) (now rtt window : ℕ)
    → length w.samples ≤ 1024
    → All (λ (s : Sample). leb (now - s.at) window ≡ true) (add w now rtt window).samples
      × (length (add w now rtt window).samples ≤ 1024)
unfolding add
add-Bounded w now rtt window h =
    let keep : Sample → Bool = λ s. leb (now - s.at) window in
    let x : Sample = record { at = now; rtt = rtt } in
    let shorter = length-filter-le keep w.samples in
    let longer = length-append (filter keep w.samples) (x ∷ []) in
    (
      extended-All (λ s. keep s ≡ true) _ _ x (in_window keep w.samples) (ground arith),
      ground arith,
    )
