-- ===== src/Mesh/Proofs.antt =====
-- Commands that do not prove the key (`coordinate` in mesh.go and `checkPSKProof` in psk.go).
use wireguard_mesh.Prelude.{ℕ, ◌≡◌, true, false, arith}
use wireguard_mesh.Mesh.State.{Message, Op}
use wireguard_mesh.Mesh.Monad.{Mesh, World, State, effects_run}
use wireguard_mesh.Mesh.Command.{check_psk_proof}
use wireguard_mesh.Mesh.Psk.{poll_psk}
use wireguard_mesh.Mesh.Coordinate.{
  coordinate, coordinate_switch, coordinate_proof, is_proved_op, is_rekey_op,
}

-- Neither the route nor the replacement changes, and nothing is sent or applied.
abbrev pub Untouched : State → State → Type 0
Untouched s t =
    (t.peer.route ≡ s.peer.route)
    × (t.peer.replacement ≡ s.peer.replacement)
    × (t.effects ≡ s.effects)

not_rekey : (op : Op) → is_proved_op op ≡ true → is_rekey_op op ≡ false
not_rekey op o = ground arith

module _ (W : World) (m : Mesh) where
  unproved :
      (c : ℕ) (msg : Message) (now : ℕ) (s : State)
      → s.peer.spec.preshared_key_file ≡ false
      → is_proved_op msg.op ≡ true
      → check_psk_proof W m s.peer.spec.psk msg s.peer.spec.key m.public ≡ false
      → Untouched s (coordinate_proof W m c msg now s).1
  unfolding coordinate_proof poll_psk effects_run
  unproved c msg now s f o e = ground arith

  unproved_switch :
      (op : Op) (c : ℕ) (msg : Message) (now : ℕ) (s : State)
      → is_proved_op op ≡ true
      → is_rekey_op msg.op ≡ false
      → Untouched s (coordinate_proof W m c msg now s).1
      → Untouched s (coordinate_switch W m op c msg now s).1
  unfolding coordinate_switch effects_run
  unproved_switch Op.prepare c msg now s o r h = ground arith
  unproved_switch Op.ready c msg now s o r h = ground arith
  unproved_switch Op.commit c msg now s o r h = ground arith
  unproved_switch _ c msg now s o r h = absurd (cc o)

  -- With a fixed key, a proposal, its acceptance or a commit that does not prove the key changes
  -- neither the route nor the replacement, and sends and applies nothing.
  pub coordinate-Untouched :
      (c : ℕ) (msg : Message) (now : ℕ) (s : State)
      → s.peer.spec.preshared_key_file ≡ false
      → is_proved_op msg.op ≡ true
      → check_psk_proof W m s.peer.spec.psk msg s.peer.spec.key m.public ≡ false
      → Untouched s (coordinate W m c msg now s).1
  unfolding coordinate effects_run
  coordinate-Untouched c msg now s f o e = ground (
    arith,
    unproved_switch msg.op c msg now s o (not_rekey msg.op o) (unproved c msg now s f o e),
  )
