-- ===== src/Rosenpass/Requests.antt =====
-- An answer to a request is current (`request` in rosenpass_linux.go).
use wireguard_mesh.Prelude.{
  ℕ, ◌≡◌, refl, Bool, true, false, not, ◌&&◌, ◌==◌, leb, Option, none, some, is_some, is_none,
  arith, if◌then◌else◌,
}
use wireguard_mesh.Netip.{is_valid}
use wireguard_mesh.Prelude.Program.{pure, fail, done, get, modify, ◌>>◌, ◌>>=◌}
use wireguard_mesh.Prelude.Program.Ensures.{
  Ensures, ensure_then, ensure_pure, ensure_fail, ensure_get, ensure_modify, ensure_require,
  ensure_done, ensure_last, ensure_or,
}
use wireguard_mesh.Rosenpass.State.{
  RosenpassRequest, RosenpassChild, RosenpassAdapter, System, same_request,
}
use wireguard_mesh.Rosenpass.Adapter.{
  ask_system, no_request, stop, move_to, start_child, request_valid, on_interface, request,
}
use wireguard_mesh.Rosenpass.Fresh.{
  Good, Sound, Current, ensure_ask_system, Sound-called, stop-Invalid, invalid-Current,
  refresh-Current,
}

module _ (S : System) (hashed : (k : ℕ) → (S.sha256 k == 0) ≡ false) (t : ℕ) where
  move_to-Current :
      (r : RosenpassRequest) (b : Bool) (now : ℕ) (s : RosenpassAdapter)
      → Sound S hashed t s
      → Current S hashed t now tt s
      → Ensures (Sound S hashed t) (Current S hashed t now) (move_to S r b) s
  unfolding move_to
  move_to-Current r true now s h c = ensure_done h c
  move_to-Current r false now s h c = ensure_then (stop-Invalid S hashed t s h) (λ _ u p v.
      ensure_last _
        (record { named = p.named; running = p.running; good = λ w. absurd (ground (arith, v, w)) })
        (λ w. absurd (ground (arith, v, w))))

  none_running : (c : Option RosenpassChild) → is_none c ≡ true → is_some c ≡ true → ⊥
  none_running none n m = ground (arith, m)
  none_running (some c) n m = ground (arith, n)

  -- a child is started only when none runs, and then the status is not valid
  start_child-Current :
      (now : ℕ) (b : Bool) (s : RosenpassAdapter)
      → Sound S hashed t s
      → Current S hashed t now tt s
      → (b ≡ true → is_none s.child ≡ true)
      → Ensures (Sound S hashed t) (Current S hashed t now) (start_child S now b) s
  unfolding start_child
  start_child-Current now false s h c n = ensure_done h c
  start_child-Current now true s h c n = ensure_modify _ (
      ensure_ask_system S hashed t _ _ (
        ensure_require _
          (record { named = h.named; running = λ _. ground arith; good = λ v. absurd (idle v) })
          (λ _.
            ensure_last _
              (record { named = h.named; running = λ _. ground arith; good = λ v. absurd (idle v) })
              (λ v. absurd (idle v)))))
    where
      idle : s.status.valid ≡ true → ⊥
      idle v = none_running s.child (n refl) (c v).1

  first_of : (a b : Bool) → (a && b) ≡ true → a ≡ true
  first_of a b h = ground (arith, h)

  request_valid-Current :
      (r : Option RosenpassRequest) (now : ℕ) (s : RosenpassAdapter)
      → Sound S hashed t s
      → Ensures
          (Sound S hashed t)
          (λ status u. (status ≡ u.status) × Current S hashed t now tt u)
          (request_valid S r now)
          s
  unfolding request_valid done
  request_valid-Current none now s h =
      ensure_then {Q = λ _ _. Unit {0}}
        (ensure_or done (stop-Invalid S hashed t s h) (λ _ p _. (p, tt)) (λ _ p. p))
        (λ _ u p _. ensure_fail p)
  request_valid-Current (some r) now s h =
      ensure_then (refresh-Current S hashed t now s h) (λ _ u p c. ensure_get _ (
        ensure_then (move_to-Current r (same_request r u.endpoint) now u p c) (λ _ v q d.
          ensure_get _ (
            ensure_then
              (start_child-Current now (is_none v.child && leb v.retry_after now) v q d
                (λ e. first_of (is_none v.child) _ e))
              (λ _ w k e. ensure_get _ (ensure_pure _ k (refl, e)))))))

  pub request-Current :
      (peer : ℕ) (r : RosenpassRequest) (now : ℕ) (s : RosenpassAdapter)
      → Sound S hashed t s
      → Ensures
          (Sound S hashed t)
          (λ status u. (status ≡ u.status) × Current S hashed t now tt u)
          (request S peer r now)
          s
  unfolding request
  request-Current peer r now s h = by_peer (r.peer == peer) (is_valid r.address)
    where
      endpoint_good : Good S hashed t s → Good S hashed t (record s { endpoint = no_request })
      endpoint_good g = record {
        counted = g.counted;
        published = g.published;
        has_hash = g.has_hash;
        bounded = g.bounded;
        key = g.key;
        in_file = g.in_file;
        is_hash = g.is_hash;
      }

      by_peer :
          (a b : Bool)
          → Ensures
              (Sound S hashed t)
              (λ status u. (status ≡ u.status) × Current S hashed t now tt u)
              (if not a
                then fail
                else if not b
                then modify (λ s. record s { endpoint = no_request })
                  >> (stop S >> (get >>= λ s. pure s.status))
                else ask_system S.interface >>= λ found.
                    request_valid S (on_interface S r found) now)
              s
      by_peer false b = ensure_fail h
      by_peer true false = ensure_modify _ (
          ensure_then
            (stop-Invalid S hashed t _ (record {
              named = h.named;
              running = h.running;
              good = λ v. endpoint_good (h.good v);
            }))
            (λ _ u p v. ensure_get _ (ensure_pure _ p (refl, invalid-Current S hashed t now u v))))
      by_peer true true = ensure_ask_system S hashed t _ _ (
          request_valid-Current (on_interface S r (S.interface s.calls)) now _
            (Sound-called S hashed t s h))
