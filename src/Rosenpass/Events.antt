-- ===== src/Rosenpass/Events.antt =====
-- In every state of the adapter the key that it reports is the published one (rosenpass_linux.go).
use wireguard_mesh.Prelude.{
  ℕ, ◌+◌, ◌≤◌, ◌<◌, ◌≡◌, refl, subst, sym, Bool, true, false, not, ◌&&◌, ◌||◌, ◌==◌, ltb, Option,
  none, some, is_some, arith, if◌then◌else◌,
}
use wireguard_mesh.Prelude.Program.{ok, modify, ◌>>=◌}
use wireguard_mesh.Prelude.Program.Ensures.{
  ensured, ensured_ok, ensure_then, ensure_get, ensure_require, ensure_done, ensure_last,
  ensure_weaker,
}
use wireguard_mesh.Rosenpass.State.{
  rosenpass_lifetime, RosenpassRequest, Status, RosenpassChild, RosenpassAdapter, System, status_ok,
}
use wireguard_mesh.Rosenpass.Adapter.{
  ask_system, RosenpassEvent, other, invalid, stale, exchanged, is_child, publish, expiry,
  invalidate, stop, refresh, request, publish_key, publish_new, exchange, handle_event, event,
  stop_if, exited,
}
use wireguard_mesh.Rosenpass.Fresh.{
  Sound, Keeps, Current, ensure_ask_system, Sound-called, invalidate-Invalid, stop-Invalid,
  refresh-Current,
}
use wireguard_mesh.Rosenpass.Requests.{request-Current}

expiry-le : (at written : ℕ) → expiry at written ≤ at + rosenpass_lifetime
expiry-le at written = ground arith

module _ (S : System) (hashed : (k : ℕ) → (S.sha256 k == 0) ≡ false) where
  stop-Sound : (t : ℕ) (s : RosenpassAdapter) → Sound S hashed t s → Keeps S hashed t (stop S) s
  stop-Sound t s h = ensure_weaker (stop-Invalid S hashed t s h) (λ _ _ _ _. tt)

  -- an event of the time `at`, which is handled up to the time `t`
  module _ (t at : ℕ) (le : at ≤ t) where
    invalidate-Sound :
        (s : RosenpassAdapter) → Sound S hashed t s → Keeps S hashed t (invalidate S) s
    invalidate-Sound s h = ensure_weaker (invalidate-Invalid S hashed t s h) (λ _ _ _ _. tt)

    published-Sound :
        (key expires : ℕ) (s : RosenpassAdapter)
        → Sound S hashed t s
        → 1 ≤ s.status.generation
        → expires ≤ t + rosenpass_lifetime
        → Sound S hashed t (publish key (S.sha256 key) expires s)
    published-Sound key expires s h g e = record {
      named = h.named;
      running = h.running;
      good = λ _. record {
        counted = g;
        published = omega arith;
        has_hash = hashed key;
        bounded = e;
        key = key;
        in_file = refl;
        is_hash = refl;
      };
    }

    publish_if :
        (b : Bool) (key expires : ℕ) (s : RosenpassAdapter)
        → Sound S hashed t s
        → 1 ≤ s.status.generation
        → expires ≤ t + rosenpass_lifetime
        → Keeps S hashed t
            (if b then modify (publish key (S.sha256 key) expires) else invalidate S)
            s
    publish_if true key expires s h g e = ensure_last _ (published-Sound key expires s h g e) tt
    publish_if false key expires s h g e = invalidate-Sound s h

    publish_key-Sound :
        (key : ℕ) (written : Option ℕ) (s : RosenpassAdapter)
        → Sound S hashed t s
        → 1 ≤ s.status.generation
        → Keeps S hashed t (publish_key S at key written) s
    unfolding publish_key
    publish_key-Sound key none s h g = invalidate-Sound s h
    publish_key-Sound key (some written) s h g = by_time (not (ltb at (expiry at written)))
      where
        by_time :
            (b : Bool)
            → Keeps S hashed t
                (if b
                  then invalidate S
                  else ask_system S.publish >>= λ published.
                      if published
                      then modify (publish key (S.sha256 key) (expiry at written))
                      else invalidate S)
                s
        by_time true = invalidate-Sound s h
        by_time false = ensure_ask_system S hashed t _ _ (
            publish_if (S.publish s.calls) key (expiry at written) _ (Sound-called S hashed t s h) g
              (omega (arith, le, expiry-le at written)))

    publish_new-Sound :
        (key : ℕ) (b : Bool) (s : RosenpassAdapter)
        → Sound S hashed t s
        → 1 ≤ s.status.generation
        → Keeps S hashed t (publish_new S at key b) s
    unfolding publish_new
    publish_new-Sound key true s h g = ensure_done h tt
    publish_new-Sound key false s h g =
        ensure_ask_system S hashed t _ _
          (publish_key-Sound key (S.mod_time s.calls) _ (Sound-called S hashed t s h) g)

    exchange-Sound :
        (key : Option ℕ) (s : RosenpassAdapter)
        → Sound S hashed t s
        → 1 ≤ s.status.generation
        → Keeps S hashed t (exchange S at key) s
    unfolding exchange
    exchange-Sound none s h g = invalidate-Sound s h
    exchange-Sound (some key) s h g = ensure_get _ (publish_new-Sound key _ s h g)

    handle_event-Sound :
        (e : RosenpassEvent) (s : RosenpassAdapter)
        → Sound S hashed t s
        → 1 ≤ s.status.generation
        → Keeps S hashed t (handle_event S e at) s
    unfolding handle_event
    handle_event-Sound other s h g = ensure_done h tt
    handle_event-Sound invalid s h g = stop-Sound t s h
    handle_event-Sound stale s h g = stop-Sound t s h
    handle_event-Sound exchanged s h g =
        ensure_ask_system S hashed t _ _
          (exchange-Sound (S.raw_key s.calls) _ (Sound-called S hashed t s h) g)

    child_runs :
        (o : Option RosenpassChild) (c : RosenpassChild) → is_child o c ≡ true → is_some o ≡ true
    child_runs none c h = absurd (ground (arith, h))
    child_runs (some d) c h = refl

    event-Sound :
        (c : RosenpassChild) (e : RosenpassEvent) (s : RosenpassAdapter)
        → Sound S hashed t s
        → Keeps S hashed t (event S c e at) s
    unfolding event
    event-Sound c e s h = ensure_get _ (
        ensure_require _ h (λ _. ensure_then (refresh-Current S hashed t at s h) (λ _ u p _.
          ensure_get _ (
            ensure_require _ p
              (λ k. handle_event-Sound e u p (p.running (child_runs u.child c k)))))))

  stop_if-Sound :
      (t : ℕ) (b : Bool) (s : RosenpassAdapter)
      → Sound S hashed t s
      → Keeps S hashed t (stop_if S b) s
  unfolding stop_if
  stop_if-Sound t true s h = stop-Sound t s h
  stop_if-Sound t false s h = ensure_done h tt

  exited-Sound :
      (t : ℕ) (c : RosenpassChild) (s : RosenpassAdapter)
      → Sound S hashed t s
      → Keeps S hashed t (exited S c) s
  unfolding exited
  exited-Sound t c s h = ensure_get _ (stop_if-Sound t _ s h)

  -- a later time
  later-Sound :
      (t now : ℕ) (s : RosenpassAdapter) → t ≤ now → Sound S hashed t s → Sound S hashed now s
  later-Sound t now s le h = record {
    named = h.named;
    running = h.running;
    good = λ v.
        let g = h.good v in
        record {
          counted = g.counted;
          published = g.published;
          has_hash = g.has_hash;
          bounded = omega (arith, le, g.bounded);
          key = g.key;
          in_file = g.in_file;
          is_hash = g.is_hash;
        };
  }

  -- the check of the client on a status that is sound and current
  checked :
      (v : Bool) (n g k h x now : ℕ)
      → (n == 0) ≡ false
      → (v ≡ true
          → (1 ≤ g) × (1 ≤ k) × ((h == 0) ≡ false) × (x ≤ now + rosenpass_lifetime) × (now < x))
      → (not (n == 0)
          && not (
              v
              && (g == 0
                  || k == 0
                  || h == 0
                  || not (ltb now x)
                  || ltb (now + rosenpass_lifetime) x)))
        ≡ true
  checked false n g k h x now a f = ground (arith, a)
  checked true n g k h x now a f = let q = f refl in ground (arith, a, q.0, q.1, q.2, q.3, q.4)

  Sound-ok :
      (now : ℕ) (s : RosenpassAdapter)
      → Sound S hashed now s
      → Current S hashed now now tt s
      → status_ok now s.status ≡ true
  Sound-ok now s h c =
      checked s.status.valid s.status.instance_name s.status.generation s.status.key_generation
        s.status.hash s.status.expires now h.named
        (λ v. let g = h.good v in (g.counted, g.published, g.has_hash, g.bounded, (c v).0))

  -- The adapter up to a time: after its events, requests, ticks and the ends of its children, each with a time
  -- that was read before it is handled. `start` is what `serveRosenpassAdapter` makes.
  pub data Reach (peer : ℕ) (start : RosenpassAdapter) : ℕ → RosenpassAdapter → Type 0 where
    begun : Reach peer start 0 start
    on_event :
        {t : ℕ} {s : RosenpassAdapter} (c : RosenpassChild) (e : RosenpassEvent) (at u : ℕ)
        → t ≤ u
        → at ≤ u
        → Reach peer start t s
        → Reach peer start u (event S c e at s).1
    on_request :
        {t : ℕ} {s : RosenpassAdapter} (r : RosenpassRequest) (now u : ℕ)
        → t ≤ u
        → now ≤ u
        → Reach peer start t s
        → Reach peer start u (request S peer r now s).1
    on_tick :
        {t : ℕ} {s : RosenpassAdapter} (now u : ℕ)
        → t ≤ u
        → now ≤ u
        → Reach peer start t s
        → Reach peer start u (refresh S now s).1
    on_exit :
        {t : ℕ} {s : RosenpassAdapter} (c : RosenpassChild)
        → Reach peer start t s
        → Reach peer start t (exited S c s).1

  module _ (peer : ℕ) (start : RosenpassAdapter) (named : (start.status.instance_name == 0) ≡ false)
      (idle : start.child ≡ none) (fresh : start.status.valid ≡ false) where
    Reach-Sound : {t : ℕ} {s : RosenpassAdapter} → Reach peer start t s → Sound S hashed t s
    Reach-Sound begun = record {
      named = named;
      running = λ h. absurd (ground (arith, subst (λ c. is_some c ≡ true) idle h));
      good = λ v. absurd (ground (arith, fresh, v));
    }
    Reach-Sound (on_event {t} {s} c e at u le before r) =
        ensured (event-Sound u at before c e s (later-Sound t u s le (Reach-Sound r)))
    Reach-Sound (on_request {t} {s} r now u le before p) =
        ensured (request-Current S hashed u peer r now s (later-Sound t u s le (Reach-Sound p)))
    Reach-Sound (on_tick {t} {s} now u le before p) =
        ensured (refresh-Current S hashed u now s (later-Sound t u s le (Reach-Sound p)))
    Reach-Sound (on_exit {t} {s} c p) = ensured (exited-Sound t c s (Reach-Sound p))

    -- After any events, requests, ticks and ends of children up to the time `now`, an answer of `request` at
    -- `now` passes the check of `queryRosenpass` at that time, where no key has a zero hash.
    pub answer-status_ok :
        {t : ℕ} {s : RosenpassAdapter} (r : RosenpassRequest) (now : ℕ) (status : Status)
        → Reach peer start t s
        → t ≤ now
        → (request S peer r now s).0 ≡ ok status
        → status_ok now status ≡ true
    answer-status_ok {t} {s} r now status p le e =
        let h =
          request-Current S hashed now peer r now s (later-Sound t now s le (Reach-Sound p)) in
        let q = ensured_ok status h e in
        subst (λ x. status_ok now x ≡ true) (sym q.0) (Sound-ok now _ (ensured h) q.1)

    -- After any events, requests, ticks and ends of children, a valid status has the hash of the key that is in
    -- the key file, where no key has a zero hash.
    pub valid_in_file :
        {t : ℕ} {s : RosenpassAdapter}
        → Reach peer start t s
        → s.status.valid ≡ true
        → (key : ℕ) × (s.published ≡ some key) × (s.status.hash ≡ S.sha256 key)
    valid_in_file p v = let g = (Reach-Sound p).good v in (g.key, g.in_file, g.is_hash)
