-- ===== src/Mesh/PathKeys.antt =====
-- What leaves the candidate paths of a peer as they are: commands, restoration and key reads (mesh.go, psk.go).
use wireguard_mesh.Prelude.{ℕ, ◌+◌, ◌≡◌, refl, ◌∙◌, Bool, true, false, Option, none, some, arith}
use wireguard_mesh.Mesh.State.{MeshPeer, RosenpassResponse, Op}
use wireguard_mesh.Mesh.Monad.{
  Mesh, World, State, Effect, M, Result, ok, err, bind_result, pure, fail, ◌>>=◌, ◌>>◌, done, peer,
  modify, emit, ask, when, branch, effects_run,
}
use wireguard_mesh.Mesh.Command.{path_command, command, cancel_replacement, retire_token}
use wireguard_mesh.Mesh.Restore.{restore, restore_route, forget_route}
use wireguard_mesh.Mesh.Psk.{
  choose_path, announce_path, query, confirmed_key, read_peer_psk, replace_key, begin_rekey,
  change_key, poll_valid, poll_read, poll_psk, drop_previous, new_transition,
}

-- The program leaves the paths of the peer as they are, after an error too.
pub record Kept {A : Type 0} (m : M A) : Type 0 where
  pub kept : (s : State) → (m s).1.peer.paths ≡ s.peer.paths

bound :
    {A B : Type 0} (r : Result A) (t : State) (f : A → M B)
    → ((a : A) → Kept (f a))
    → (bind_result r t f).1.peer.paths ≡ t.peer.paths
unfolding bind_result
bound (ok a) t f h = (h a).kept t
bound err t f h = refl

pub keep_bind :
    {A B : Type 0} {m : M A} {f : A → M B} → Kept m → ((a : A) → Kept (f a)) → Kept (m >>= f)
unfolding effects_run
keep_bind {m = m} {f = f} h k = record { kept = λ s. bound (m s).0 (m s).1 f k ∙ h.kept s }

pub keep_then : {A B : Type 0} {m : M A} {k : M B} → Kept m → Kept k → Kept (m >> k)
unfolding effects_run
keep_then {m = m} {k = k} h g = record {
  kept = λ s. bound (m s).0 (m s).1 (λ _. k) (λ _. g) ∙ h.kept s;
}

pub keep_branch : {A : Type 0} (b : Bool) {m k : M A} → Kept m → Kept k → Kept (branch b m k)
unfolding effects_run
keep_branch true h g = record { kept = λ s. h.kept s }
keep_branch false h g = record { kept = λ s. g.kept s }

pub keep_when : (b : Bool) {m : M (Unit {0})} → Kept m → Kept (when b m)
unfolding effects_run
keep_when true h = record { kept = λ s. h.kept s }
keep_when false h = record { kept = λ s. refl }

pub keep_option :
    {A B : Type 0} (o : Option A) {m : M B} {f : A → M B}
    → Kept m
    → ((a : A) → Kept (f a))
    → Kept (elim o [ none ↦ m | some a ↦ f a ])
keep_option none h k = h
keep_option (some a) h k = k a

pub keep_peer :
    {B : Type 0} {f : MeshPeer → M B} → ((p : MeshPeer) → Kept (f p)) → Kept (peer >>= f)
unfolding effects_run
keep_peer h = record { kept = λ s. (h s.peer).kept s }

pub keep_ask :
    {A B : Type 0} (answer : ℕ → A) {f : A → M B} → ((a : A) → Kept (f a)) → Kept (ask answer >>= f)
unfolding effects_run
keep_ask answer h = record {
  kept = λ s. (h (answer s.calls)).kept (record s { calls = s.calls + 1 });
}

pub keep_pure : {A : Type 0} (a : A) → Kept (pure a)
unfolding effects_run
keep_pure a = record { kept = λ s. refl }

pub keep_fail : {A : Type 0} → Kept (fail {A = A})
unfolding effects_run
keep_fail = record { kept = λ s. refl }

pub keep_done : Kept done
unfolding effects_run
keep_done = record { kept = λ s. refl }

pub keep_emit : (e : Effect) → Kept (emit e)
unfolding effects_run
keep_emit e = record { kept = λ s. refl }

pub keep_modify :
    (f : MeshPeer → MeshPeer) → ((p : MeshPeer) → (f p).paths ≡ p.paths) → Kept (modify f)
unfolding effects_run
keep_modify f h = record { kept = λ s. h s.peer }

module _ (W : World) (m : Mesh) where
  pub path_command-Kept :
      (path : Option ℕ) (token : ℕ) (op : Op) → Kept (path_command W m path token op)
  unfolding path_command
  path_command-Kept path token op = record { kept = λ s. refl }

  pub command-Kept : (op : Op) → Kept (command W m op)
  unfolding command
  command-Kept op = record {
    kept = λ s. (path_command-Kept s.peer.route.selected s.peer.route.trial op).kept s;
  }

  pub cancel-Kept : (now : ℕ) → Kept (cancel_replacement W m now)
  unfolding cancel_replacement path_command retire_token effects_run
  cancel-Kept now = record { kept = λ s. ground arith }

  restore_route-Kept : Kept (restore_route W m)
  unfolding restore_route
  restore_route-Kept =
      keep_peer (λ p. keep_ask _ (λ a. keep_then (keep_emit _) (keep_branch a keep_done keep_fail)))

  forget_route-paths : (now : ℕ) (p : MeshPeer) → (forget_route m now p).paths ≡ p.paths
  unfolding forget_route retire_token
  forget_route-paths now p = refl

  pub restore-Kept : (now : ℕ) → Kept (restore W m now)
  unfolding restore
  restore-Kept now = keep_then (cancel-Kept now) (
      keep_then (command-Kept _)
        (keep_then restore_route-Kept (keep_modify _ (forget_route-paths now))))

  choose_path-Kept : (now : ℕ) → Kept (choose_path W m now)
  unfolding choose_path
  choose_path-Kept now = keep_peer (λ p.
      keep_branch _ keep_done
        (keep_branch _ (keep_ask _ (λ a. keep_modify _ (λ q. refl))) (keep_modify _ (λ q. refl))))

  announce_path-Kept : Kept (announce_path W m)
  unfolding announce_path effects_run
  announce_path-Kept = record { kept = λ s. ground arith }

  query-Kept : (now : ℕ) → Kept (query W m now)
  unfolding query
  query-Kept now =
      keep_peer (λ p. keep_then (keep_emit _) (keep_ask _ (λ a. keep_ask _ (λ b. (keep_pure _)))))

  confirmed_key-Kept : (now : ℕ) → Kept (confirmed_key W m now)
  unfolding confirmed_key
  confirmed_key-Kept now = keep_bind (query-Kept now) (λ before.
      keep_option before (keep_pure _) (λ first. keep_ask _ (λ a. keep_ask _ (λ key.
        keep_option key (keep_pure _)
          (λ k. keep_branch _ (keep_pure _) (keep_bind (query-Kept now) (λ after. keep_pure _)))))))

  read_peer_psk-Kept : (now : ℕ) → Kept (read_peer_psk W m now)
  unfolding read_peer_psk
  read_peer_psk-Kept now = keep_peer (λ p. keep_branch _ (keep_ask _ (λ a. (keep_pure _))) (
      keep_branch _ (keep_pure _) (
        keep_then (choose_path-Kept now) (
          keep_peer (λ q.
            keep_branch _ (keep_pure _) (keep_then announce_path-Kept (confirmed_key-Kept now)))))))

  replace_key-Kept :
      (found : Option (ℕ × RosenpassResponse)) (now : ℕ) → Kept (replace_key W m found now)
  unfolding replace_key
  replace_key-Kept none now = keep_peer (λ p.
      keep_then (keep_when _ (restore-Kept now))
        (keep_then (keep_modify _ (λ q. refl)) (keep_pure _)))
  replace_key-Kept (some found) now = keep_peer (λ p.
      keep_then (keep_when _ (restore-Kept now))
        (keep_then (keep_modify _ (λ q. refl)) (keep_pure _)))

  begin_rekey-Kept : (key now : ℕ) → Kept (begin_rekey W m key now)
  unfolding begin_rekey new_transition
  begin_rekey-Kept key now = keep_peer (λ p.
      keep_branch _ keep_done
        (keep_then (cancel-Kept now) (keep_ask _ (λ a. keep_modify _ (λ q. refl)))))

  change_key-Kept :
      (steady : Bool) (key : ℕ) (status : RosenpassResponse) (now : ℕ)
      → Kept (change_key W m steady key status now)
  unfolding change_key
  change_key-Kept steady key status now = keep_peer (λ p.
      keep_branch _
        (keep_then (begin_rekey-Kept key now) (
          keep_peer (λ q.
            keep_branch _ (keep_then (keep_modify _ (λ t. refl)) (keep_pure _))
              (replace_key-Kept _ now))))
        (replace_key-Kept _ now))

  drop_previous-paths : (now : ℕ) (p : MeshPeer) → (drop_previous now p).paths ≡ p.paths
  unfolding drop_previous retire_token
  drop_previous-paths now p = refl

  poll_valid-Kept :
      (key : ℕ) (status : RosenpassResponse) (now : ℕ) → Kept (poll_valid W m key status now)
  unfolding poll_valid
  poll_valid-Kept key status now = keep_peer (λ p.
      keep_branch _ (keep_then (keep_modify _ (λ q. refl)) (keep_pure _))
        (keep_then (keep_modify _ (drop_previous-paths now)) (change_key-Kept _ key status now)))

  poll_read-Kept :
      (found : Option (ℕ × RosenpassResponse)) (now : ℕ) → Kept (poll_read W m found now)
  unfolding poll_read
  poll_read-Kept (some (key, status)) now = poll_valid-Kept key status now
  poll_read-Kept none now =
      keep_then (keep_modify _ (λ q. refl))
        (keep_then (keep_modify _ (drop_previous-paths now)) (replace_key-Kept none now))

  pub poll_psk-Kept : (now : ℕ) → Kept (poll_psk W m now)
  unfolding poll_psk
  poll_psk-Kept now = keep_peer (λ p.
      keep_branch _ (keep_pure _)
        (keep_bind (read_peer_psk-Kept now) (λ found. keep_ask _ (λ a. poll_read-Kept found _))))
