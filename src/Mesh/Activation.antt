-- ===== src/Mesh/Activation.antt =====
-- When a trial becomes an active route (`advance` in mesh.go).
use wireguard_mesh.Prelude.{
  ℕ, ◌-◌, ◌≡◌, refl, Bool, true, false, not, ◌&&◌, ◌<◌, ap, subst, Option-cases, inl, inr, Option,
  none, some, is_none, arith,
}
use wireguard_mesh.Mesh.State.{
  MeshPeer, RouteState, RouteProposal, PskTransition, Phase, idle, prepare, prepared, trial, active,
  Op, is_active, is_trial,
}
use wireguard_mesh.Mesh.Monad.{Mesh, World, State, effects_run, ◌>>◌, when}
use wireguard_mesh.Mesh.Runs.{
  Runs, run, run_then, run_peer, run_modify, run_branch, run_last, run_when,
}
use wireguard_mesh.Mesh.Measure.{median, improves}
use wireguard_mesh.Mesh.Psk.{leader}
use wireguard_mesh.Mesh.Sound.{IsSound}
use wireguard_mesh.Mesh.Command.{command, path_command, cancel_replacement, retire_token}
use wireguard_mesh.Mesh.Restore.{restore, restore_route, forget_route}
use wireguard_mesh.Mesh.Apply.{rollback, rollback_route}
use wireguard_mesh.Mesh.Advance.{
  confirmed, activate, Verdict, good, undecided, bad, judge, report, advance_proposal,
  advance_replacement, advance_trial, advance_judged, advance_measured, advance_running,
  advance_phase, advance,
}

-- The route is confirmed by the other side now.
abbrev pub Confirmed : Mesh → RouteState → ℕ → Type 0
Confirmed m r now = confirmed m (record r { local_good = true }) now ≡ true

module _ (W : World) (m : Mesh) where
  restore-inactive :
      (now : ℕ) (s : State)
      → is_active s.peer.route.phase ≡ false
      → is_active (restore W m now s).1.peer.route.phase ≡ false
  unfolding restore cancel_replacement restore_route command forget_route path_command retire_token
      effects_run
  restore-inactive now s h = ground arith

  -- without a fallback a rollback is a restoration
  rollback_route-inactive :
      (old : Option RouteState) (now : ℕ) (s : State)
      → is_none old ≡ true
      → is_active s.peer.route.phase ≡ false
      → is_active (rollback_route W m old now s).1.peer.route.phase ≡ false
  unfolding rollback_route
  rollback_route-inactive none now s e h = restore-inactive now s h
  rollback_route-inactive (some old) now s e h = absurd (cc e)

  rollback-inactive :
      (now : ℕ) (s : State)
      → is_none s.peer.previous ≡ true
      → is_active s.peer.route.phase ≡ false
      → is_active (rollback W m now s).1.peer.route.phase ≡ false
  unfolding rollback effects_run
  rollback-inactive now s e h = rollback_route-inactive s.peer.previous now s e h

  report-peer : (s : State) → (report W m s).1.peer ≡ s.peer
  unfolding report command path_command effects_run
  report-peer s = ground arith

  advance_proposal-route :
      (r : Option RouteProposal) (now : ℕ) (s : State)
      → (advance_proposal W m r now s).1.peer.route ≡ s.peer.route
  unfolding advance_proposal cancel_replacement path_command retire_token effects_run
  advance_proposal-route none now s = refl
  advance_proposal-route (some r) now s = ground arith

  -- a state whose route is active only if the fact holds
  abbrev OnlyIf : Type 0 → State → Type 0
  OnlyIf F t = is_active t.peer.route.phase ≡ true → F

  same_route : {F : Type 0} (s t : State) → t.peer.route ≡ s.peer.route → OnlyIf F s → OnlyIf F t
  same_route s t e h a = h (subst (λ (r : RouteState). is_active r.phase ≡ true) e a)

  trial_only : {F : Type 0} (s : State) → is_trial s.peer.route.phase ≡ true → OnlyIf F s
  trial_only s t a = absurd (ground arith)

  rolled_back :
      {F : Type 0} (now : ℕ) (s : State)
      → is_none s.peer.previous ≡ true
      → is_trial s.peer.route.phase ≡ true
      → Runs (OnlyIf F) (rollback W m now) s
  rolled_back now s e h = run _ _ s (λ a. absurd (cc (rollback-inactive now s e (ground arith), a)))

  reported :
      {F : Type 0} (now : ℕ) (s : State)
      → OnlyIf F s
      → Runs (OnlyIf F) (report W m >> advance_replacement W m now) s
  unfolding advance_replacement
  reported now s h =
      let t = (report W m s).1 in
      let k = same_route s t (ap (λ (p : MeshPeer). p.route) (report-peer s)) h in
      run_then (run _ _ s k) (
        run_peer _ (
          run _ _ t (
            same_route t (advance_proposal W m t.peer.replacement now t).1
              (advance_proposal-route t.peer.replacement now t) k)))

  advance_trial-OnlyIf :
      {F : Type 0} (now : ℕ) (s : State)
      → is_none s.peer.previous ≡ true
      → is_trial s.peer.route.phase ≡ true
      → (confirmed m s.peer.route now ≡ true → F)
      → Runs (OnlyIf F) (advance_trial W m now) s
  unfolding advance_trial
  advance_trial-OnlyIf now s e t f = run_peer _ (
      run_branch (λ _. rolled_back now s e t)
        (λ _.
          let activated = run_when (trial_only s t) (λ c. run_last (activate m now) (λ a. f c)) in
          run_then activated (reported now _ activated.after)))

  advance_judged-OnlyIf :
      {F : Type 0} (v : Verdict) (now : ℕ) (s : State)
      → is_none s.peer.previous ≡ true
      → is_trial s.peer.route.phase ≡ true
      → s.peer.route.local_good ≡ false
      → (v ≡ good → Confirmed m s.peer.route now → F)
      → Runs (OnlyIf F) (advance_judged W m v now) s
  unfolding advance_judged confirmed
  advance_judged-OnlyIf bad now s e t l f = rolled_back now s e t
  advance_judged-OnlyIf good now s e t l f =
      run_modify _ (advance_trial-OnlyIf now _ e t (λ c. f refl c))
  advance_judged-OnlyIf undecided now s e t l f =
      advance_trial-OnlyIf now s e t (λ c. absurd (ground arith))

  -- what has to hold for a trial to become active
  abbrev pub Won : MeshPeer → ℕ → Type 0
  Won p now = (judge m p.route now ≡ good) × Confirmed m p.route now

  advance_measured-OnlyIf :
      {F : Type 0} (now : ℕ) (s : State)
      → is_none s.peer.previous ≡ true
      → is_trial s.peer.route.phase ≡ true
      → (Won s.peer now → F)
      → Runs (OnlyIf F) (advance_measured W m now) s
  unfolding advance_measured
  advance_measured-OnlyIf now s e t f = run_peer _ (
      run_branch (λ n. absurd (ground arith))
        (λ _.
          run_modify _
            (advance_judged-OnlyIf (judge m s.peer.route now) now _ e t refl (λ g c. f (g, c)))))

  commanded-peer : (b : Bool) (s : State) → (when b (command W m Op.commit) s).1.peer ≡ s.peer
  unfolding command path_command effects_run
  commanded-peer true s = refl
  commanded-peer false s = refl

  advance_running-OnlyIf :
      (now : ℕ) (s : State)
      → is_none s.peer.previous ≡ true
      → is_trial s.peer.route.phase ≡ true
      → Runs (OnlyIf (Won s.peer now)) (advance_running W m now) s
  unfolding advance_running
  advance_running-OnlyIf now s e t = run_peer _ (
      run_branch (λ _. rolled_back now s e t)
        (λ _.
          let b = not s.peer.route.committed && leader m s.peer in
          let k = commanded-peer b s in
          let u = (when b (command W m Op.commit) s).1 in
          run_then (run _ _ s (trial_only u (rw k t)))
            (advance_measured-OnlyIf now u (rw k e) (rw k t) (λ w. subst (λ p. Won p now) k w))))

  advance_phase-OnlyIf :
      (r : Option PskTransition) (phase : Phase) (now : ℕ) (s : State)
      → is_none r ≡ true
      → is_trial phase ≡ true
      → is_none s.peer.previous ≡ true
      → is_trial s.peer.route.phase ≡ true
      → Runs (OnlyIf (Won s.peer now)) (advance_phase W m r phase now) s
  unfolding advance_phase
  advance_phase-OnlyIf (some r) phase now s n p e t = absurd (cc n)
  advance_phase-OnlyIf none trial now s n p e t = advance_running-OnlyIf now s e t
  advance_phase-OnlyIf none idle now s n p e t = absurd (cc p)
  advance_phase-OnlyIf none prepare now s n p e t = absurd (cc p)
  advance_phase-OnlyIf none prepared now s n p e t = absurd (cc p)
  advance_phase-OnlyIf none active now s n p e t = absurd (cc p)

  -- A sound first trial that a step of the timer makes active has measured a gain over the baseline
  -- itself, and the peer has committed and has reported the same within the failure timeout.
  pub advance-Won :
      (now : ℕ) (s : State)
      → IsSound s.peer
      → is_none s.peer.previous ≡ true
      → is_trial s.peer.route.phase ≡ true
      → is_active (advance W m now s).1.peer.route.phase ≡ true
      → ((rtt : ℕ) × (median s.peer.route.tunnel now m.c ≡ some rtt)
          × (improves rtt s.peer.route.baseline m.c ≡ true))
        × (s.peer.route.remote_good ≡ true)
        × (s.peer.route.committed ≡ true)
        × (now - s.peer.route.remote_at < m.c.failure)
  unfolding advance judge confirmed
  advance-Won now s h e t a =
      let steps : Runs (OnlyIf (Won s.peer now)) (advance W m now) s = run_peer _ (
        run_branch (λ _. rolled_back now s e t)
          (λ _. advance_phase-OnlyIf s.peer.rekey s.peer.route.phase now s (ground arith) t e t)) in
      let won = steps.after a in
      elim (Option-cases (median s.peer.route.tunnel now m.c)) [
        | inl none_yet ↦ absurd (ground arith)
        | inr (rtt, found) ↦ ((rtt, found, ground arith), ground arith, ground arith, ground arith)
      ]
