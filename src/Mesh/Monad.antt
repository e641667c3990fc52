-- ===== src/Mesh/Monad.antt =====
-- The effects of the event loop while it handles one peer: the peer's state, failures, and a
-- record of what is sent to the network, to the WireGuard device and to the log of calls.
use wireguard_mesh.Prelude.{ℕ, ◌+◌, Bool, true, false, Option, List, ◌∷◌}
use wireguard_mesh.Mesh.State.{
  Config, AddrPort, Addr, Message, Op, MeshPeer, RouteState, RosenpassResponse,
}

-- What of the mesh the handling of one peer reads. `links` are the links now known;
-- `rekey_control` says that the controller implements `rekeyControl`.
pub record Mesh : Type 0 where
  pub c : Config
  pub public : ℕ
  pub wg_port : ℕ
  pub links : List ℕ
  pub dry : Bool
  pub rekey_control : Bool

-- Answers from outside, each to the call of this number: the clock (`time.Since`), the controller
-- and its preflight check, the PSK file at a time, the Rosenpass adapter, the random source; and
-- the pure functions that other packages provide.
pub record World : Type 0 where
  pub elapsed : ℕ → ℕ
  pub verify : ℕ → Bool
  pub apply : ℕ → Bool
  pub restore : ℕ → Bool
  pub rekey : ℕ → Bool
  pub handshake : ℕ → Option ℕ
  pub read_psk_file : ℕ → ℕ → Option ℕ
  pub rosenpass : ℕ → Option RosenpassResponse
  pub random_text : ℕ → ℕ
  pub sha256 : ℕ → ℕ
  -- the hexadecimal HMAC under a key of an operation, a token, a sender and a receiver; the name of a path
  pub hmac : ℕ → Op → ℕ → ℕ → ℕ → ℕ
  pub path_name : ℕ → AddrPort → ℕ

pub data Effect : Type 0 where
  sent : ℕ → Message → AddrPort → ℕ → Effect
  applied : ℕ → Addr → ℕ → AddrPort → Bool → Effect
  restored : ℕ → Bool → Effect
  rekeyed : ℕ → ℕ → ℕ → Bool → Effect
  queried : Option ℕ → Effect

-- `effects` has the latest first, and `calls` counts the calls to the outside.
pub record State : Type 0 where
  pub peer : MeshPeer
  pub calls : ℕ
  pub effects : List Effect

pub data Result {ℓ} (A : Type ℓ) : Type ℓ where
  ok : A → Result A
  err : Result A

-- The state comes back after an error too.
abbrev pub M : Type 0 → Type 0
M A = State → Result A × State

unfoldable pub pure : {A : Type 0} → A → M A
pure a s = (ok a, s)

unfoldable pub fail : {A : Type 0} → M A
fail s = (err, s)

unfoldable pub bind_result : {A B : Type 0} → Result A → State → (A → M B) → Result B × State
bind_result (ok a) s f = f a s
bind_result err s f = (err, s)

infixl 5 ◌>>=◌ ◌>>◌
unfoldable pub ◌>>=◌ : {A B : Type 0} → M A → (A → M B) → M B
unfolding bind_result
◌>>=◌ m f s = bind_result (m s).0 (m s).1 f

unfoldable pub ◌>>◌ : {A B : Type 0} → M A → M B → M B
unfolding ◌>>=◌
m >> k = m >>= λ _. k

unfoldable pub done : M (Unit {0})
done s = (ok tt, s)

unfoldable pub peer : M MeshPeer
peer s = (ok s.peer, s)

unfoldable pub modify : (MeshPeer → MeshPeer) → M (Unit {0})
modify f s = (ok tt, record s { peer = f s.peer })

abbrev pub modify_route : (RouteState → RouteState) → M (Unit {0})
modify_route f = modify (λ p. record p { route = f p.route })

unfoldable pub emit : Effect → M (Unit {0})
emit e s = (ok tt, record s { effects = e ∷ s.effects })

-- one more call to the outside, and its answer
unfoldable pub ask : {A : Type 0} → (ℕ → A) → M A
ask answer s = (ok (answer s.calls), record s { calls = s.calls + 1 })

unfoldable pub when : Bool → M (Unit {0}) → M (Unit {0})
when true m s = m s
when false m s = (ok tt, s)

unfoldable pub branch : {A : Type 0} → Bool → M A → M A → M A
branch true m k s = m s
branch false m k s = k s

-- A proof that names this on its `unfolding` line computes with all of the above.
unfoldable pub effects_run : Unit {0}
unfolding pure fail ◌>>=◌ ◌>>◌ done peer modify emit ask when branch
effects_run = tt
