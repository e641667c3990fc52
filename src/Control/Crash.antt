-- ===== src/Control/Crash.antt =====
-- What a crash can leave behind, and the steps of an operation that keep it safe (control.go).
use wireguard_mesh.Prelude.{
  ℕ, ◌+◌, ◌≡◌, refl, ◌==◌, Bool, true, false, ◌&&◌, ◌||◌, Option, none, some, List, [], ◌∷◌, lookup,
  insert, erase, is_some, is_none, arith, All, inl, inr, subst, lookup-insert, lookup-erase,
  ==-cases,
}
use wireguard_mesh.Prelude.Program.{program_run, ◌>>=◌}
use wireguard_mesh.Prelude.Program.Ensures.{
  Ensures, ensure_bind, ensure_pure, ensure_fail, ensure_get, ensure_modify, ensure_require,
  ensure_check,
}
use wireguard_mesh.Control.State.{
  ControlPeer, Device, Change, add, set_endpoint, set_key, set_host, remove, Outside, Effect,
  inspected, configured, saved, started, State, Journal,
}
use wireguard_mesh.Control.Device.{control_find_peer}
use wireguard_mesh.Control.Effects.{M, ask, identified, device, save, configure, inspect}

abbrev pub is_recorded : ℕ → Journal → Bool
is_recorded key j = is_some (lookup key j)

-- The journals that the file may hold after these effects: the last one that was written, and any that
-- was reported as failed since. No file at all is an empty journal.
abbrev pub may_hold : List Effect → List Journal
may_hold [] = [] ∷ []
may_hold (saved j true ∷ rest) = j ∷ []
may_hold (saved j false ∷ rest) = j ∷ may_hold rest
may_hold (started j ∷ rest) = j ∷ []
may_hold (inspected _ ∷ rest) = may_hold rest
may_hold (configured _ _ ∷ rest) = may_hold rest

-- A direct peer of this key may be on the device: it was added, with whatever report, and no device
-- was read without it since.
abbrev pub may_stand : ℕ → List Effect → Bool
may_stand k [] = false
may_stand k (configured (add key _ _ _) _ ∷ rest) = key == k || may_stand k rest
may_stand k (configured (set_endpoint _ _) _ ∷ rest) = may_stand k rest
may_stand k (configured (set_key _ _) _ ∷ rest) = may_stand k rest
may_stand k (configured (set_host _ _) _ ∷ rest) = may_stand k rest
may_stand k (configured (remove _) _ ∷ rest) = may_stand k rest
may_stand k (inspected d ∷ rest) = is_some (control_find_peer d k) && may_stand k rest
may_stand k (saved _ _ ∷ rest) = may_stand k rest
may_stand k (started _ ∷ rest) = may_stand k rest

-- each journal that the file may hold has a record of this key
abbrev pub IsHeld : ℕ → List Effect → Type 0
IsHeld k es = All (λ j. is_recorded k j ≡ true) (may_hold es)

abbrev pub Kept : List Effect → Type 0
Kept es = (k : ℕ) → may_stand k es ≡ true → IsHeld k es

-- so it is now, and was at each earlier moment
abbrev pub CrashSafe : List Effect → Type 0
CrashSafe [] = Unit
CrashSafe (e ∷ es) = Kept (e ∷ es) × CrashSafe es

pub record IsSafe (s : State) : Type 0 where
  pub remembers : (k : ℕ) → may_stand k s.effects ≡ true → is_recorded k s.journal ≡ true
  pub crash_safe : CrashSafe s.effects

pub Kept-last : (es : List Effect) → CrashSafe es → Kept es
Kept-last [] c = λ k h. absurd (ground (arith, h))
Kept-last (e ∷ es) c = c.0

-- the present state is one of those that a crash can meet
pub is_held : {s : State} → IsSafe s → Kept s.effects
is_held {s} h = Kept-last s.effects h.crash_safe

-- a new effect after which the same direct peers may stand, or fewer
emitted :
    (e : Effect) (s : State)
    → IsSafe s
    → ((k : ℕ) → may_stand k (e ∷ s.effects) ≡ true → may_stand k s.effects ≡ true)
    → ((k : ℕ) → is_recorded k s.journal ≡ true → IsHeld k s.effects → IsHeld k (e ∷ s.effects))
    → IsSafe (record s { effects = e ∷ s.effects })
emitted e s h fewer held = record {
  remembers = λ k a. h.remembers k (fewer k a);
  crash_safe =
      ((λ k a. held k (h.remembers k (fewer k a)) (is_held h k (fewer k a))), h.crash_safe);
}

pub put-IsSafe :
    (key : ℕ) (r : ControlPeer) (s : State)
    → IsSafe s
    → IsSafe (record s { journal = insert key r s.journal })
put-IsSafe key r s h = record {
  remembers = λ k a. ground (arith, h.remembers k a, lookup-insert k key r s.journal);
  crash_safe = h.crash_safe;
}

pub drop_record-IsSafe :
    (key : ℕ) (s : State)
    → IsSafe s
    → may_stand key s.effects ≡ false
    → IsSafe (record s { journal = erase key s.journal })
drop_record-IsSafe key s h gone = record {
  remembers = λ k a. elim (==-cases key k) [
    | inl e ↦ absurd (ground (arith, subst (λ j. may_stand j s.effects ≡ false) e gone))
    | inr n ↦ ground (arith, h.remembers k a, lookup-erase k key s.journal)
  ];
  crash_safe = h.crash_safe;
}

and_right : (a b : Bool) → (a && b) ≡ true → b ≡ true
and_right a b h = ground arith

-- a new peer has its record in the journal and on the disk
abbrev pub Announced : ℕ → State → Type 0
Announced key s = (is_recorded key s.journal ≡ true) × IsHeld key s.effects

abbrev pub Allowed : Change → State → Type 0
Allowed (add key _ _ _) s = Announced key s
Allowed (set_endpoint _ _) s = Unit
Allowed (set_key _ _) s = Unit
Allowed (set_host _ _) s = Unit
Allowed (remove _) s = Unit

Announced-key :
    (key k : ℕ) (s : State)
    → IsSafe s
    → Announced key s
    → (key == k || may_stand k s.effects) ≡ true
    → Announced k s
Announced-key key k s h n a = elim (==-cases key k) [
  | inl e ↦ subst (λ j. Announced j s) e n
  | inr d ↦
      let old : may_stand k s.effects ≡ true = ground arith in (h.remembers k old, is_held h k old)
]

pub configured-IsSafe :
    (change : Change) (b : Bool) (s : State)
    → IsSafe s
    → Allowed change s
    → IsSafe (record s { effects = configured change b ∷ s.effects })
configured-IsSafe (add key psk ip endpoint) b s h a = record {
  remembers = λ k e. (Announced-key key k s h a e).0;
  crash_safe = ((λ k e. (Announced-key key k s h a e).1), h.crash_safe);
}
configured-IsSafe (set_endpoint key endpoint) b s h a = emitted _ s h (λ k e. e) (λ k r held. held)
configured-IsSafe (set_key key psk) b s h a = emitted _ s h (λ k e. e) (λ k r held. held)
configured-IsSafe (set_host key ip) b s h a = emitted _ s h (λ k e. e) (λ k r held. held)
configured-IsSafe (remove key) b s h a = emitted _ s h (λ k e. e) (λ k r held. held)

pub saved-IsSafe :
    (b : Bool) (s : State)
    → IsSafe s
    → IsSafe (record s { effects = saved s.journal b ∷ s.effects })
saved-IsSafe true s h = emitted _ s h (λ k e. e) (λ k r held. (r, tt))
saved-IsSafe false s h = emitted _ s h (λ k e. e) (λ k r held. (r, held))

-- the journal is on the disk
abbrev pub IsWritten : Journal → State → Type 0
IsWritten j t = (t.journal ≡ j) × (may_hold t.effects ≡ j ∷ [])

module _ {P : State → Type 0} {A B : Type 0} {Q : B → State → Type 0} where
  pub ensure_ask :
      (answer : ℕ → A) (f : A → M B) {s : State}
      → Ensures P Q (f (answer s.calls)) (record s { calls = s.calls + 1 })
      → Ensures P Q (ask answer >>= f) s
  unfolding ask program_run
  ensure_ask answer f h = record { post = h.post }

called-IsSafe : (s : State) → IsSafe s → IsSafe (record s { calls = s.calls + 1 })
called-IsSafe s h = record { remembers = h.remembers; crash_safe = h.crash_safe }

module _ (W : Outside) (public : ℕ) where
  -- a device that was read shows which direct peers do not stand
  abbrev pub Shown : Device → State → Type 0
  Shown d t = (k : ℕ) → is_none (control_find_peer d k) ≡ true → may_stand k t.effects ≡ false

  identified-IsSafe :
      (answer : Option Device) (s : State)
      → IsSafe s
      → Ensures IsSafe Shown (identified W public answer) s
  unfolding identified
  identified-IsSafe none s h = ensure_fail h
  identified-IsSafe (some d) s h = ensure_require _ h (λ _. ensure_modify _ (
      ensure_pure d (emitted (inspected d) s h (λ k. and_right _ _) (λ k r held. held))
        (λ k e. ground arith)))

  pub device-IsSafe : (s : State) → IsSafe s → Ensures IsSafe Shown (device W public) s
  unfolding device
  device-IsSafe s h = ensure_ask _ _ (identified-IsSafe (W.device s.calls) _ (called-IsSafe s h))

  pub inspect-IsSafe :
      (key : ℕ) (r : ControlPeer) (s : State)
      → IsSafe s
      → Ensures IsSafe Shown (inspect W public key r) s
  unfolding inspect
  inspect-IsSafe key r s h =
      ensure_bind (device-IsSafe s h) (λ d t p q. ensure_require _ p (λ _. ensure_pure d p q))

  pub save-IsSafe :
      (s : State) → IsSafe s → Ensures IsSafe (λ _. IsWritten s.journal) (save W public) s
  unfolding save
  save-IsSafe s h = ensure_get _ (
      ensure_ask _ _ (
        ensure_modify _ (
          ensure_check (W.save s.calls) (saved-IsSafe (W.save s.calls) _ (called-IsSafe s h))
            (λ e. (refl, rw e refl)))))

  pub configure-IsSafe :
      (change : Change) (s : State)
      → IsSafe s
      → Allowed change s
      → Ensures IsSafe (λ _ _. Unit) (configure W public change) s
  unfolding configure
  configure-IsSafe change s h a = ensure_ask _ _ (
      ensure_modify _ (
        ensure_check (W.configure s.calls)
          (configured-IsSafe change _ _ (called-IsSafe s h) (allowed change a)) (λ _. tt)))
    where
      allowed :
          (change : Change) → Allowed change s → Allowed change (record s { calls = s.calls + 1 })
      allowed (add key _ _ _) a = a
      allowed _ a = tt
