-- ===== src/Mesh/Guards.antt =====
-- Tokens that were given up, samples and roles (mesh.go).
use wireguard_mesh.Prelude.{
  ℕ, ◌+◌, ◌≡◌, ◌≢◌, ◌≤◌, ◌<◌, Bool, true, false, ◌||◌, some, List, [], ◌∷◌, ltb, length, lookup,
  lookup-insert, length-insert-le, arith, Distinct, none, ◌⊎◌, inl, inr, Bool-cases,
}
use wireguard_mesh.Mesh.State.{MeshPeer, Message, Op}
use wireguard_mesh.Mesh.Monad.{Mesh, World, State, effects_run}
use wireguard_mesh.Mesh.Command.{
  live, retired_after, retired_until_after, retire_token, is_retired, retired_token_lifetime,
}
use wireguard_mesh.Mesh.Psk.{poll_psk}
use wireguard_mesh.Mesh.Coordinate.{
  coordinate, coordinate_switch, coordinate_proof, coordinate_proved, coordinate_about, on_previous,
  about_replacement, about_route,
}
use wireguard_mesh.Mesh.Proofs.{Untouched}
use wireguard_mesh.Mesh.Propose.{propose}

lookup-live :
    (t u now : ℕ) (m : List (ℕ × ℕ))
    → Distinct m
    → lookup t m ≡ some u
    → now < u
    → lookup t (live now m) ≡ some u
lookup-live t u now [] d h l = h
lookup-live t u now (e ∷ m) d h l = ground (arith, lookup-live t u now m)

-- A token that is still held back stays so when another token is given up: it is never evicted.
pub retired_after_keeps :
    (token t u now : ℕ) (retired : List (ℕ × ℕ))
    → Distinct retired
    → lookup t retired ≡ some u
    → now < u
    → t ≢ token
    → lookup t (retired_after token now retired) ≡ some u
unfolding retired_after
retired_after_keeps token t u now retired d h l n = ground (
  arith,
  lookup-live t u now retired,
  lookup-insert t token (now + retired_token_lifetime) (live now retired),
)

length-live-le : (now : ℕ) (m : List (ℕ × ℕ)) → length (live now m) ≤ length m
length-live-le now [] = omega arith
length-live-le now (e ∷ m) = ground (arith, length-live-le now m)

-- Where at most 1024 tokens are held back, at most 1024 are after one more is given up.
pub retired_after-Bounded :
    (token now : ℕ) (retired : List (ℕ × ℕ))
    → length retired ≤ 1024
    → length (retired_after token now retired) ≤ 1024
unfolding retired_after
retired_after-Bounded token now retired h = ground (
  arith,
  length-live-le now retired,
  length-insert-le token (now + retired_token_lifetime) (live now retired),
)

-- After a token was given up, it is held back, or all proposals are.
held_back :
    (token at now : ℕ) (p : MeshPeer)
    → token ≢ 0
    → now < at + retired_token_lifetime
    → (ltb now (retire_token token at p).retired_until
        || is_retired (retire_token token at p) token now)
      ≡ true
unfolding retire_token retired_after retired_until_after
held_back token at now p n l =
    ground (arith, lookup-insert token token (at + retired_token_lifetime) (live at p.retired))

module _ (W : World) (m : Mesh) where
  refused :
      (c : ℕ) (msg : Message) (now : ℕ) (s : State)
      → (ltb now s.peer.retired_until || is_retired s.peer msg.token now) ≡ true
      → ((coordinate_switch W m Op.prepare c msg now s).1.peer.route ≡ s.peer.route)
        × ((coordinate_switch W m Op.prepare c msg now s).1.peer.replacement ≡ s.peer.replacement)
        × ((coordinate_switch W m Op.prepare c msg now s).1.effects ≡ s.effects)
  unfolding coordinate_switch effects_run
  refused c msg now s h = ground arith

  -- A proposal with a token that was given up less than its lifetime ago starts nothing: the route
  -- and the replacement stay as they are, and nothing is sent or applied, over whatever path.
  pub coordinate-retire_token :
      (at : ℕ) (c : ℕ) (msg : Message) (now : ℕ) (s t : State)
      → t.peer ≡ retire_token msg.token at s.peer
      → msg.token ≢ 0
      → msg.op ≡ Op.prepare
      → now < at + retired_token_lifetime
      → ((coordinate W m c msg now t).1.peer.route ≡ t.peer.route)
        × ((coordinate W m c msg now t).1.peer.replacement ≡ t.peer.replacement)
        × ((coordinate W m c msg now t).1.effects ≡ t.effects)
  unfolding coordinate effects_run
  coordinate-retire_token at c msg now s t e n o l =
      rw o (ground (arith, refused c msg now t (rw e (held_back msg.token at now s.peer n l))))

  propose_follower :
      (psk_ok : Bool) (now : ℕ) (s : State)
      → ltb m.public s.peer.spec.key ≡ false
      → (propose W m psk_ok now s).1 ≡ s
  unfolding propose effects_run
  propose_follower psk_ok now s h = ground arith

  prepare_leader :
      (c : ℕ) (msg : Message) (now : ℕ) (t : State)
      → ltb t.peer.spec.key m.public ≡ false
      → about_replacement t.peer c msg.token ≡ none
      → about_route t.peer c msg.token ≡ false
      → msg.op ≡ Op.prepare
      → Untouched t (coordinate_proved W m c msg now t).1
  unfolding coordinate_proved coordinate_about on_previous retire_token effects_run
  prepare_leader c msg now t h a b o = ground arith

  coordinate_leader :
      (c : ℕ) (msg : Message) (now : ℕ) (t : State)
      → ltb t.peer.spec.key m.public ≡ false
      → t.peer.spec.preshared_key_file ≡ false
      → about_replacement t.peer c msg.token ≡ none
      → about_route t.peer c msg.token ≡ false
      → msg.op ≡ Op.prepare
      → Untouched t (coordinate W m c msg now t).1
  unfolding coordinate coordinate_switch coordinate_proof poll_psk effects_run
  coordinate_leader c msg now t h f a b o = rw o (
      grind (
        arith,
        prepare_leader c msg now t h a b o,
        prepare_leader c msg (now + W.elapsed t.calls) (record t { calls = t.calls + 1 }) h a b o,
      ))

  -- Of the two ends of a pair only one proposes. For a node and two states of one peer of it, whose key is
  -- fixed in the second: either the node proposes nothing in the first state, which stays as it is, or a
  -- new proposal of the peer in the second state starts nothing: the route and the replacement stay as
  -- they are, and nothing is sent or applied, over whatever path.
  pub one_end_proposes :
      (psk_ok : Bool) (at : ℕ) (c : ℕ) (msg : Message) (now : ℕ) (s t : State)
      → t.peer.spec.key ≡ s.peer.spec.key
      → t.peer.spec.preshared_key_file ≡ false
      → msg.op ≡ Op.prepare
      → about_replacement t.peer c msg.token ≡ none
      → about_route t.peer c msg.token ≡ false
      → ((propose W m psk_ok at s).1 ≡ s) ⊎ Untouched t (coordinate W m c msg now t).1
  one_end_proposes psk_ok at c msg now s t k f o a b =
      elim (Bool-cases (ltb m.public s.peer.spec.key)) [
        | inr e ↦ inl (propose_follower psk_ok at s e)
        | inl e ↦ inr (coordinate_leader c msg now t (ground arith) f a b o)
      ]
