-- ===== src/Mesh/Command.antt =====
-- Messages to the peer about a path, and the tokens that are given up.
use wireguard_mesh.Prelude.{
  ℕ, ◌+◌, ◌*◌, Bool, false, Option, none, some, List, ◌∷◌, length, filter, insert, lookup, ltb, leb,
  if◌then◌else◌, ◌==◌,
}
use wireguard_mesh.Secure.State.{second, secure_session_lifetime}
use wireguard_mesh.Mesh.State.{Message, Op, abort, MeshPeer}
use wireguard_mesh.Mesh.Monad.{Mesh, World, sent, M, ◌>>◌, modify, ok}

abbrev pub retired_token_lifetime : ℕ
retired_token_lifetime = secure_session_lifetime + 180 * second

-- the tokens that are still held back
abbrev pub live : ℕ → List (ℕ × ℕ) → List (ℕ × ℕ)
live now retired = filter (λ e. ltb now e.1) retired

unfoldable pub retired_after : ℕ → ℕ → List (ℕ × ℕ) → List (ℕ × ℕ)
retired_after token now retired =
    if token == 0
    then retired
    else if leb 1024 (length (live now retired))
    then live now retired
    else insert token (now + retired_token_lifetime) (live now retired)

unfoldable pub retired_until_after : ℕ → ℕ → MeshPeer → ℕ
retired_until_after token now p =
    if token == 0
    then p.retired_until
    else if leb 1024 (length (live now p.retired))
    then now + retired_token_lifetime
    else p.retired_until

-- `retire` as a function on the peer; the empty token is left alone
unfoldable pub retire_token : ℕ → ℕ → MeshPeer → MeshPeer
retire_token token now p = record p {
  retired = retired_after token now p.retired;
  retired_until = retired_until_after token now p;
}

-- The token of the fallback route, or the empty one.
abbrev pub previous_trial : MeshPeer → ℕ
previous_trial p = elim p.previous [ none ↦ 0 | some old ↦ old.trial ]

abbrev pub retire : ℕ → ℕ → M (Unit {0})
retire token now = modify (retire_token token now)

-- `time.Before(p.retired[token])`: a token that is not listed has the zero time
abbrev pub is_retired : MeshPeer → ℕ → ℕ → Bool
is_retired p token now = elim (lookup token p.retired) [ none ↦ false | some until ↦ ltb now until ]

module _ (W : World) (m : Mesh) where
  unfoldable pub psk_proof : ℕ → Op → ℕ → ℕ → ℕ → ℕ
  psk_proof key op token sender receiver =
      if key == 0 then 0 else W.hmac key op token sender receiver

  unfoldable pub check_psk_proof : ℕ → Message → ℕ → ℕ → Bool
  check_psk_proof key msg sender receiver =
      msg.proof == psk_proof key msg.op msg.token sender receiver

  -- The result of a send does not matter to the commands.
  unfoldable pub path_command : Option ℕ → ℕ → Op → M (Unit {0})
  path_command path token op s = (
    ok tt,
    record s {
      effects = elim path [
        | none ↦ s.effects
        | some c ↦
            let target = s.peer.cell c in
            let msg : Message = record {
              op = op;
              token = token;
              port = m.wg_port;
              proof = psk_proof s.peer.spec.psk op token m.public s.peer.spec.key;
              rekey = s.peer.spec.experimental_rekey;
            } in
            sent target.session msg target.addr target.link ∷ s.effects
      ];
    },
  )

  unfoldable pub command : Op → M (Unit {0})
  command op s = path_command s.peer.route.selected s.peer.route.trial op s

  unfoldable pub cancel_replacement : ℕ → M (Unit {0})
  cancel_replacement now s = elim s.peer.replacement [
    | none ↦ (ok tt, s)
    | some r ↦
        (path_command (some r.path) r.token abort
            >> retire r.token now
            >> modify (λ p. record p { replacement = none; cooldown = now + m.c.cooldown }))
          s
  ]
