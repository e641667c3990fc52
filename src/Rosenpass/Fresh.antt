-- ===== src/Rosenpass/Fresh.antt =====
-- The key that the adapter reports is the published one and is still good (rosenpass_linux.go).
use wireguard_mesh.Prelude.{
  ℕ, ◌+◌, ◌≤◌, ◌<◌, ◌≡◌, refl, subst, sym, Bool, true, false, ◌&&◌, ◌||◌, ◌==◌, leb, Option, none,
  some, is_some, is_none, arith, if◌then◌else◌,
}
use wireguard_mesh.Prelude.Program.{program_run, ◌>>=◌}
use wireguard_mesh.Prelude.Program.Ensures.{
  Ensures, ensure_bind, ensure_then, ensure_pure, ensure_get, ensure_modify, ensure_done,
  ensure_last, ensure_check, ensure_weaker,
}
use wireguard_mesh.Rosenpass.State.{rosenpass_lifetime, RosenpassChild, RosenpassAdapter, System}
use wireguard_mesh.Rosenpass.Adapter.{
  A, ask_system, withdraw, check_err, invalidate, clean, reap, stop, child_ended, is_expired,
  refresh,
}

module _ (S : System) (hashed : (k : ℕ) → (S.sha256 k == 0) ≡ false) where
  -- A valid status has both counters, the hash of the key in the file, and an end within the lifetime after
  -- the time `t`.
  pub record Good (t : ℕ) (s : RosenpassAdapter) : Type 0 where
    pub counted : 1 ≤ s.status.generation
    pub published : 1 ≤ s.status.key_generation
    pub has_hash : (s.status.hash == 0) ≡ false
    pub bounded : s.status.expires ≤ t + rosenpass_lifetime
    pub key : ℕ
    pub in_file : s.published ≡ some key
    pub is_hash : s.status.hash ≡ S.sha256 key

  pub record Sound (t : ℕ) (s : RosenpassAdapter) : Type 0 where
    pub named : (s.status.instance_name == 0) ≡ false
    pub running : is_some s.child ≡ true → 1 ≤ s.status.generation
    pub good : s.status.valid ≡ true → Good t s

  module _ (t : ℕ) where
    abbrev pub Keeps : {B : Type 0} → A B → RosenpassAdapter → Type 0
    Keeps m s = Ensures (Sound t) (λ _ _. Unit {0}) m s

    -- one more call
    called : RosenpassAdapter → RosenpassAdapter
    called s = record s { calls = s.calls + 1 }

    pub Good-called : (s : RosenpassAdapter) → Good t s → Good t (record s { calls = s.calls + 1 })
    Good-called s g = record {
      counted = g.counted;
      published = g.published;
      has_hash = g.has_hash;
      bounded = g.bounded;
      key = g.key;
      in_file = g.in_file;
      is_hash = g.is_hash;
    }

    pub Sound-called :
        (s : RosenpassAdapter) → Sound t s → Sound t (record s { calls = s.calls + 1 })
    Sound-called s h = record {
      named = h.named;
      running = h.running;
      good = λ v. Good-called s (h.good v);
    }

    module _ {B C : Type 0} {Q : C → RosenpassAdapter → Type 0} where
      pub ensure_ask_system :
          (answer : ℕ → B) (f : B → A C) {s : RosenpassAdapter}
          → Ensures (Sound t) Q (f (answer s.calls)) (record s { calls = s.calls + 1 })
          → Ensures (Sound t) Q (ask_system answer >>= f) s
      unfolding ask_system program_run
      ensure_ask_system answer f h = record { post = h.post }

    -- the status is not valid
    abbrev pub Invalid : Unit {0} → RosenpassAdapter → Type 0
    Invalid _ s = s.status.valid ≡ false

    pub withdraw-Invalid :
        (s : RosenpassAdapter) → Sound t s → Ensures (Sound t) Invalid (withdraw S) s
    unfolding withdraw
    withdraw-Invalid s h = ensure_ask_system _ _ (
        ensure_last _
          (record { named = h.named; running = h.running; good = λ v. absurd (ground (arith, v)) })
          refl)

    check_err-Sound :
        (Q : Unit {0} → RosenpassAdapter → Type 0) (s : RosenpassAdapter)
        → Sound t s
        → Q tt s
        → Ensures (Sound t) Q (check_err S) s
    unfolding check_err
    check_err-Sound Q s h q = ensure_get _ (ensure_check _ h (λ _. q))

    pub invalidate-Invalid :
        (s : RosenpassAdapter) → Sound t s → Ensures (Sound t) Invalid (invalidate S) s
    unfolding invalidate
    invalidate-Invalid s h =
        ensure_then (withdraw-Invalid s h) (λ _ u p q. check_err-Sound Invalid u p q)

    fail_if :
        (s : RosenpassAdapter) (b : Bool)
        → Sound t s
        → s.status.valid ≡ false
        → Sound t (record s { failed = b })
    fail_if s b h v = record {
      named = h.named;
      running = h.running;
      good = λ w. absurd (ground (arith, v, w));
    }

    clean-Invalid :
        (b : Bool) (s : RosenpassAdapter)
        → Sound t s
        → Invalid tt s
        → Ensures (Sound t) Invalid (clean S b) s
    unfolding clean
    clean-Invalid false s h v = ensure_last _ (fail_if s true h v) v
    clean-Invalid true s h v =
        ensure_ask_system _ _ (ensure_last _ (fail_if _ _ (Sound-called s h) v) v)

    reap-Invalid :
        (c : Option RosenpassChild) (s : RosenpassAdapter)
        → Sound t s
        → Invalid tt s
        → Ensures (Sound t) Invalid (reap S c) s
    unfolding reap
    reap-Invalid none s h v = ensure_done h v
    reap-Invalid (some c) s h v =
        ensure_ask_system _ _ (clean-Invalid (S.stopped s.calls) _ (Sound-called s h) v)

    pub stop-Invalid : (s : RosenpassAdapter) → Sound t s → Ensures (Sound t) Invalid (stop S) s
    unfolding stop
    stop-Invalid s h = ensure_then (withdraw-Invalid s h) (λ _ u p v. ensure_get _ (
        ensure_modify _ (
          ensure_then
            (reap-Invalid u.child _
              (record {
                named = p.named;
                running = λ e. absurd (ground (arith, e));
                good = λ w. absurd (ground (arith, v, w));
              })
              v)
            (λ _ w q i. check_err-Sound Invalid w q i))))

    -- a valid status is good at the time `now`, and its child runs
    abbrev pub Current : ℕ → Unit {0} → RosenpassAdapter → Type 0
    Current now _ s = s.status.valid ≡ true → (now < s.status.expires) × (is_some s.child ≡ true)

    pub invalid-Current :
        (now : ℕ) (s : RosenpassAdapter) → s.status.valid ≡ false → Current now tt s
    invalid-Current now s v w = absurd (ground (arith, v, w))

    stop_or_check :
        (b c : Bool) (now : ℕ) (s : RosenpassAdapter)
        → Sound t s
        → (c ≡ false → Current now tt s)
        → Ensures
            (Sound t)
            (Current now)
            (if b then stop S else if c then invalidate S else check_err S)
            s
    stop_or_check true c now s h f =
        ensure_weaker (stop-Invalid s h) (λ _ u _ v. invalid-Current now u v)
    stop_or_check false true now s h f =
        ensure_weaker (invalidate-Invalid s h) (λ _ u _ v. invalid-Current now u v)
    stop_or_check false false now s h f = check_err-Sound (Current now) s h (f refl)

    not_expired : (now : ℕ) (s : RosenpassAdapter) → is_expired S now s ≡ false → Current now tt s
    not_expired now s e v =
        let q = parts s.status.valid (is_none s.child) s.status.expires now e v in
        (q.1, runs s.child q.0)
      where
        parts :
            (v n : Bool) (x now : ℕ)
            → (v && (n || leb x now)) ≡ false
            → v ≡ true
            → (n ≡ false) × (now < x)
        parts v n x now e h = (ground (arith, e, h), ground (arith, e, h))

        runs : (c : Option RosenpassChild) → is_none c ≡ false → is_some c ≡ true
        runs none h = absurd (ground (arith, h))
        runs (some c) h = refl

    -- the same status and child
    abbrev Same : RosenpassAdapter → Bool → RosenpassAdapter → Type 0
    Same s _ u = (u.status ≡ s.status) × (u.child ≡ s.child)

    child_ended-Same :
        (c : Option RosenpassChild) (s : RosenpassAdapter)
        → Sound t s
        → Ensures (Sound t) (Same s) (child_ended S c) s
    unfolding child_ended ask_system
    child_ended-Same none s h = ensure_pure false h (refl, refl)
    child_ended-Same (some c) s h = record { post = (Sound-called s h, (refl, refl)) }

    Same-Current :
        (now : ℕ) (s u : RosenpassAdapter) (b : Bool)
        → Same s b u
        → Current now tt s
        → Current now tt u
    Same-Current now s u b q f v =
        let c = f (subst (λ r. r.valid ≡ true) q.0 v) in
        (subst (λ r. now < r.expires) (sym q.0) c.0, subst (λ k. is_some k ≡ true) (sym q.1) c.1)

    pub refresh-Current :
        (now : ℕ) (s : RosenpassAdapter)
        → Sound t s
        → Ensures (Sound t) (Current now) (refresh S now) s
    unfolding refresh
    refresh-Current now s h = ensure_get _ (
        ensure_bind (child_ended-Same s.child s h) (λ ended u p q.
          stop_or_check ended (is_expired S now s) now u p
            (λ e. Same-Current now s u ended q (not_expired now s e))))
