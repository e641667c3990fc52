-- ===== src/Secure/Serials.antt =====
-- The IDs of the sessions that a node starts (`start` in secure.go).
use wireguard_mesh.Prelude.{
  ℕ, ◌+◌, ◌^◌, ◌<◌, ◌≤◌, ◌≡◌, ◌⊎◌, inl, inr, refl, ◌∙◌, sym, false, Option, none, some, List, [],
  ◌∷◌, arith, contains, All, Option-cases,
}
use wireguard_mesh.Prelude.Bytes.{Bytes}
use wireguard_mesh.Secure.State.{Crypto, Secure}
use wireguard_mesh.Secure.Sessions.{expire}
use wireguard_mesh.Secure.Start
use wireguard_mesh.Secure.Window.{NoRepeat}

-- A call of `start`: the peer, what the random source yields for the cipher's key and for the seed,
-- and the time.
pub record StartCall : Type 0 where
  pub peer : ℕ
  pub id_key : Option ℕ
  pub seed : Option ℕ
  pub now : ℕ

module _ (C : Crypto) where
  abbrev begun : Secure → StartCall → Secure × Option (ℕ × Bytes)
  begun s call = Start.start C s call.peer call.id_key call.seed call.now

  -- the IDs that these calls return
  unfoldable pub started_ids : Secure → List StartCall → List ℕ
  started_ids s [] = []
  started_ids s (call ∷ calls) =
      let later = started_ids (begun s call).0 calls in
      elim (begun s call).1 [ none ↦ later | some (id, _) ↦ id ∷ later ]

  -- what a call does to the cipher and to the serial number, and the ID that it returns
  abbrev Outcome : Secure → Secure × Option (ℕ × Bytes) → Type 0
  Outcome s r =
      ((r.1 ≡ none) × (r.0.ids ≡ s.ids) × (r.0.serial ≡ s.serial))
      ⊎ ((cipher : ℕ) × (r.0.ids ≡ some cipher)
          × (r.0.serial ≡ s.serial + 1)
          × (s.serial + 1 < 2 ^ 64)
          × ((s.ids ≡ none) ⊎ (s.ids ≡ some cipher))
          × ((r.1 ≡ none)
              ⊎ ((bytes : Bytes) × (r.1 ≡ some (C.aes_encrypt cipher (s.serial + 1), bytes)))))

  session-kept :
      (s : Secure) (peer id : ℕ) (seed : Option ℕ) (now : ℕ)
      → let r = Start.start_session C s peer id seed now in
        (r.0.ids ≡ s.ids)
        × (r.0.serial ≡ s.serial)
        × ((r.1 ≡ none) ⊎ ((bytes : Bytes) × (r.1 ≡ some (id, bytes))))
  unfolding Start.start_session
  session-kept s peer id seed now = ground arith

  cipher-cases :
      (s : Secure) (key : Option ℕ) (cipher : ℕ)
      → Start.id_cipher C s key ≡ some cipher
      → (s.ids ≡ none) ⊎ (s.ids ≡ some cipher)
  unfolding Start.id_cipher
  cipher-cases s key cipher h = ground arith

  start-Outcome : (s : Secure) (call : StartCall) → s.serial < 2 ^ 64 → Outcome s (begun s call)
  unfolding Start.start expire
  start-Outcome s call b = elim (Option-cases (Start.id_cipher C (expire s call.now) call.id_key)) [
    | inl e ↦ ground arith
    | inr (cipher, e) ↦ ground (
      arith,
      cipher-cases (expire s call.now) call.id_key cipher e,
      session-kept (record (expire s call.now) { ids = some cipher; serial = s.serial + 1 })
          call.peer (C.aes_encrypt cipher (s.serial + 1)) call.seed call.now,
    )
  ]

  -- Each ID is the cipher's image of a number above the bound.
  abbrev Above : ℕ → ℕ → List ℕ → Type 0
  Above cipher low = All (λ id. (n : ℕ) × (low < n) × (n < 2 ^ 64) × (id ≡ C.aes_encrypt cipher n))

  started_ids-Above :
      (s : Secure) (calls : List StartCall) (cipher low : ℕ)
      → s.ids ≡ some cipher
      → low ≤ s.serial
      → s.serial < 2 ^ 64
      → Above cipher low (started_ids s calls)
  unfolding started_ids
  started_ids-Above s [] cipher low h l b = tt
  started_ids-Above s (call ∷ calls) cipher low h l b = elim (start-Outcome s call b) [
    | inl (gone, same, kept) ↦
        rw (gone, started_ids, Above)
          (started_ids-Above (begun s call).0 calls cipher low (same ∙ h) (omega (arith, kept))
            (omega (arith, kept, b)))
    | inr (now, held, next, top, old, result) ↦
        let standing : some now ≡ some cipher = elim old [
          | inl e ↦ cc (e, h)
          | inr e ↦ sym e ∙ h
        ] in
        let later =
          started_ids-Above (begun s call).0 calls cipher low (held ∙ standing)
            (omega (arith, next)) (omega (arith, next, top)) in
        elim result [
          | inl gone ↦ rw (gone, started_ids, Above) later
          | inr (bytes, e) ↦
              rw (e, started_ids, Above) ((s.serial + 1, omega arith, top, cc standing), later)
        ]
  ]

  contains-Above :
      (cipher low : ℕ) (ids : List ℕ)
      → low < 2 ^ 64
      → ((a b : ℕ)
          → a < 2 ^ 64
          → b < 2 ^ 64
          → C.aes_encrypt cipher a ≡ C.aes_encrypt cipher b
          → a ≡ b)
      → Above cipher low ids
      → contains ids (C.aes_encrypt cipher low) ≡ false
  contains-Above cipher low [] b inj h = refl
  contains-Above cipher low (id ∷ ids) b inj ((n, l, top, e), rest) =
      ground (arith, inj low n b top, contains-Above cipher low ids b inj rest)

  -- Where the cipher is injective on serial numbers of 64 bits, no ID is given to two of the sessions that a node starts,
  -- whatever calls fail in between and whatever sessions expire.
  pub started_ids-NoRepeat :
      (s : Secure) (calls : List StartCall)
      → s.serial < 2 ^ 64
      → ((cipher a b : ℕ)
          → a < 2 ^ 64
          → b < 2 ^ 64
          → C.aes_encrypt cipher a ≡ C.aes_encrypt cipher b
          → a ≡ b)
      → NoRepeat (started_ids s calls)
  unfolding started_ids
  started_ids-NoRepeat s [] b inj = tt
  started_ids-NoRepeat s (call ∷ calls) b inj = elim (start-Outcome s call b) [
    | inl (gone, same, kept) ↦
        rw (gone, started_ids, NoRepeat)
          (started_ids-NoRepeat (begun s call).0 calls (omega (arith, kept, b)) inj)
    | inr (cipher, held, next, top, old, result) ↦
        let top' : (begun s call).0.serial < 2 ^ 64 = omega (arith, next, top) in
        let later = started_ids-NoRepeat (begun s call).0 calls top' inj in
        elim result [
          | inl gone ↦ rw (gone, started_ids, NoRepeat) later
          | inr (bytes, e) ↦
              let above =
                started_ids-Above (begun s call).0 calls cipher (s.serial + 1) held
                  (omega (arith, next)) top' in
              rw (e, started_ids, NoRepeat)
                (contains-Above cipher (s.serial + 1) _ top (inj cipher) above, later)
        ]
  ]
