-- ===== src/Control/Reach.antt =====
-- The steps of a controller and its crashes, and what holds in every state (control.go).
use wireguard_mesh.Prelude.{ℕ, ◌≡◌, true, Option, some, List, [], ◌∷◌, All, ◌⊎◌, inl, inr, subst}
use wireguard_mesh.Netip.{Addr, AddrPort}
use wireguard_mesh.Prelude.Program.Ensures.{ensured}
use wireguard_mesh.Control.State.{Outside, Effect, State, Journal}
use wireguard_mesh.Control.Restore.{restore, restore_all}
use wireguard_mesh.Control.Apply.{apply}
use wireguard_mesh.Control.Rekey.{rekey, handshake, check_device}
use wireguard_mesh.Control.Start.{Stored, accept, new_controller}
use wireguard_mesh.Control.Crash.{IsSafe, CrashSafe, Kept-last, may_hold, may_stand, is_recorded}
use wireguard_mesh.Control.Safety.{restore-Safe, restore_all-Safe}
use wireguard_mesh.Control.Calls.{
  apply-Safe, rekey-Safe, handshake-Safe, check_device-Safe, started-IsSafe, start_journal-Safe,
}

-- the effects up to a moment of the past
pub data Moment : List Effect → List Effect → Type 0 where
  now : {es : List Effect} → Moment es es
  before : {e : Effect} {es fs : List Effect} → Moment es fs → Moment (e ∷ es) fs

abbrev pub OneOf : Journal → List Journal → Type 0
OneOf j [] = ⊥
OneOf j (k ∷ ks) = (k ≡ j) ⊎ OneOf j ks

-- a process that has just begun
abbrev pub blank : ℕ → List Effect → State
blank calls es = record { journal = []; calls = calls; effects = es }

-- a call of the controller and the state after it, with or without an error
pub data Call (W : Outside) (public : ℕ) (s : State) : State → Type 0 where
  call_apply :
      (key : ℕ) (ip : Addr) (psk : ℕ) (endpoint : AddrPort)
      → Call W public s (apply W public key ip psk endpoint s).1
  call_rekey : (key old new : ℕ) → Call W public s (rekey W public key old new s).1
  call_handshake : (key : ℕ) → Call W public s (handshake W public key s).1
  call_check : Call W public s (check_device W public s).1
  call_restore : (key : ℕ) → Call W public s (restore W public key s).1
  call_restore_all : Call W public s (restore_all W public s).1

-- The states of a controller: calls, and crashes at any moment, after which it starts with a journal
-- that the file may hold and that it accepts.
pub data Reach (W : Outside) (name public : ℕ) : State → Type 0 where
  first : Reach W name public (blank 0 [])
  call : {s t : State} → Reach W name public s → Call W public s t → Reach W name public t
  crash :
      {s : State} {es : List Effect} {j : Journal} (file : Option Stored) (calls : ℕ)
      → Reach W name public s
      → Moment s.effects es
      → OneOf j (may_hold es)
      → accept name public file ≡ some j
      → Reach W name public (new_controller W public name file (blank calls es)).1

Moment-CrashSafe : {es fs : List Effect} → Moment es fs → CrashSafe es → CrashSafe fs
Moment-CrashSafe now c = c
Moment-CrashSafe (before m) c = Moment-CrashSafe m c.1

OneOf-held :
    (k : ℕ) (j : Journal) (js : List Journal)
    → OneOf j js
    → All (λ i. is_recorded k i ≡ true) js
    → is_recorded k j ≡ true
OneOf-held k j [] o h = absurd o
OneOf-held k j (i ∷ js) (inl e) h = subst (λ i. is_recorded k i ≡ true) e h.0
OneOf-held k j (i ∷ js) (inr o) h = OneOf-held k j js o h.1

module _ (W : Outside) (name public : ℕ) where
  pub call-IsSafe : {s t : State} → Call W public s t → IsSafe s → IsSafe t
  call-IsSafe {s} (call_apply key ip psk endpoint) h =
      ensured (apply-Safe W public key ip psk endpoint s h)
  call-IsSafe {s} (call_rekey key old new) h = ensured (rekey-Safe W public key old new s h)
  call-IsSafe {s} (call_handshake key) h = ensured (handshake-Safe W public key s h)
  call-IsSafe {s} call_check h = ensured (check_device-Safe W public s h)
  call-IsSafe {s} (call_restore key) h = ensured (restore-Safe W public key s h)
  call-IsSafe {s} call_restore_all h = ensured (restore_all-Safe W public s h)

  restarted-IsSafe :
      (file : Option Stored) (calls : ℕ) (es : List Effect) (j : Journal)
      → CrashSafe es
      → OneOf j (may_hold es)
      → accept name public file ≡ some j
      → IsSafe (new_controller W public name file (blank calls es)).1
  unfolding new_controller
  restarted-IsSafe file calls es j c o a = rw a (
      ensured (
        start_journal-Safe W public j (blank calls es) (
          started-IsSafe W public j (blank calls es) c (Kept-last es c)
            (λ key. OneOf-held key j (may_hold es) o))))

  pub Reach-IsSafe : {s : State} → Reach W name public s → IsSafe s
  Reach-IsSafe first = record { remembers = λ k h. h; crash_safe = tt }
  Reach-IsSafe (call r c) = call-IsSafe c (Reach-IsSafe r)
  Reach-IsSafe (crash {s} {es} {j} file calls r m o a) =
      restarted-IsSafe file calls es j (Moment-CrashSafe m (Reach-IsSafe r).crash_safe) o a

  -- In a state of a run, for every moment up to it: when the direct peer `k` may stand on the device at
  -- that moment, each journal that the file may hold then has a record of `k`.
  pub peer_has_record :
      {s : State} {es : List Effect} (j : Journal) (k : ℕ)
      → Reach W name public s
      → Moment s.effects es
      → may_stand k es ≡ true
      → OneOf j (may_hold es)
      → is_recorded k j ≡ true
  peer_has_record {s} {es} j k r m h o =
      OneOf-held k j (may_hold es) o
        (Kept-last es (Moment-CrashSafe m (Reach-IsSafe r).crash_safe) k h)

  -- In every state of a run, a direct peer that may stand on the device has a record in the journal.
  pub peer_in_journal :
      {s : State} (k : ℕ)
      → Reach W name public s
      → may_stand k s.effects ≡ true
      → is_recorded k s.journal ≡ true
  peer_in_journal k r h = (Reach-IsSafe r).remembers k h
