-- ===== src/Mesh/Runs.antt =====
-- How a property of the state passes through a program of the event loop, step by step.
use wireguard_mesh.Prelude.{ℕ, ◌+◌, ◌≡◌, refl, Bool, true, false, ◌∷◌}
use wireguard_mesh.Mesh.State.{MeshPeer}
use wireguard_mesh.Mesh.Monad.{
  State, Effect, M, Result, ok, err, bind_result, pure, fail, ◌>>=◌, ◌>>◌, done, peer, modify, emit,
  ask, when, branch, effects_run,
}

-- The property holds of the state that the program leaves, after an error too.
pub record Runs (P : State → Type 0) {A : Type 0} (m : M A) (s : State) : Type 0 where
  pub after : P (m s).1

pub run : {A : Type 0} (P : State → Type 0) (m : M A) (s : State) → P (m s).1 → Runs P m s
run P m s h = record { after = h }

bind_result-after :
    {A B : Type 0} (P : State → Type 0) (r : Result A) (t : State) (f : A → M B)
    → P t
    → ((a : A) → P (f a t).1)
    → P (bind_result r t f).1
unfolding bind_result
bind_result-after P (ok a) t f h k = k a
bind_result-after P err t f h k = h

module _ {P : State → Type 0} where
  module _ {A B : Type 0} {s : State} where
    pub run_bind :
        {m : M A} {f : A → M B} → Runs P m s → ((a : A) → Runs P (f a) (m s).1) → Runs P (m >>= f) s
    unfolding effects_run
    run_bind {m} {f} h k = record {
      after = bind_result-after P (m s).0 (m s).1 f h.after (λ a. (k a).after);
    }

    pub run_then : {m : M A} {k : M B} → Runs P m s → Runs P k (m s).1 → Runs P (m >> k) s
    unfolding effects_run
    run_then {m} {k} h t = record {
      after = bind_result-after P (m s).0 (m s).1 (λ _. k) h.after (λ _. t.after);
    }

  module _ {B : Type 0} {s : State} where
    pub run_peer : (f : MeshPeer → M B) → Runs P (f s.peer) s → Runs P (peer >>= f) s
    unfolding effects_run
    run_peer f h = record { after = h.after }

    pub run_ask :
        {A : Type 0} (answer : ℕ → A) (f : A → M B)
        → Runs P (f (answer s.calls)) (record s { calls = s.calls + 1 })
        → Runs P (ask answer >>= f) s
    unfolding effects_run
    run_ask answer f h = record { after = h.after }

    pub run_modify :
        (f : MeshPeer → MeshPeer) {k : M B}
        → Runs P k (record s { peer = f s.peer })
        → Runs P (modify f >> k) s
    unfolding effects_run
    run_modify f h = record { after = h.after }

    pub run_emit :
        (e : Effect) {k : M B}
        → Runs P k (record s { effects = e ∷ s.effects })
        → Runs P (emit e >> k) s
    unfolding effects_run
    run_emit e h = record { after = h.after }

    pub run_branch :
        {b : Bool} {m k : M B}
        → (b ≡ true → Runs P m s)
        → (b ≡ false → Runs P k s)
        → Runs P (branch b m k) s
    unfolding effects_run
    run_branch {b = true} f g = record { after = (f refl).after }
    run_branch {b = false} f g = record { after = (g refl).after }

    pub run_pure : (b : B) → P s → Runs P (pure b) s
    unfolding effects_run
    run_pure b h = record { after = h }

    pub run_fail : P s → Runs P (fail {A = B}) s
    unfolding effects_run
    run_fail h = record { after = h }

  module _ {s : State} where
    pub run_done : P s → Runs P done s
    unfolding effects_run
    run_done h = record { after = h }

    pub run_last :
        (f : MeshPeer → MeshPeer) → P (record s { peer = f s.peer }) → Runs P (modify f) s
    unfolding effects_run
    run_last f h = record { after = h }

    pub run_send : (e : Effect) → P (record s { effects = e ∷ s.effects }) → Runs P (emit e) s
    unfolding effects_run
    run_send e h = record { after = h }

    pub run_when :
        {b : Bool} {m : M (Unit {0})} → P s → (b ≡ true → Runs P m s) → Runs P (when b m) s
    unfolding effects_run
    run_when {b = true} h f = record { after = (f refl).after }
    run_when {b = false} h f = record { after = h }
