-- ===== src/Secure/Header.antt =====
-- The header of an inner packet (`secureHeader` and the reading of it in `receive`, secure.go).
use wireguard_mesh.Prelude.{
  ℕ, ◌-◌, ◌^◌, ◌<◌, ◌≡◌, refl, ap, ◌∙◌, [], ◌∷◌, ◌++◌, arith, length, take, drop, length-append,
  take-append, drop-append, sym,
}
use mathlib.Core.List.{append_assoc}
use wireguard_mesh.Prelude.Bytes.{Bytes, be, of_be, length-be, of_be-be}

-- version, kind, sender, recipient, ID, counter
unfoldable pub secure_header : ℕ → ℕ → ℕ → ℕ → ℕ → Bytes
secure_header kind sender recipient id counter =
    2 ∷ kind ∷ (be 32 sender ++ (be 32 recipient ++ (be 16 id ++ be 8 counter)))

-- `data[from:to]`
abbrev pub slice : ℕ → ℕ → Bytes → Bytes
slice from to bytes = take (to - from) (drop from bytes)

pub record Header : Type 0 where
  pub version : ℕ
  pub kind : ℕ
  pub sender : ℕ
  pub recipient : ℕ
  pub id : ℕ
  pub counter : ℕ

abbrev byte_at : ℕ → Bytes → ℕ
byte_at i bytes = of_be (take 1 (drop i bytes))

-- The fields that `receive` reads from a packet of at least 90 bytes.
unfoldable pub read_header : Bytes → Header
read_header bytes = record {
  version = byte_at 0 bytes;
  kind = byte_at 1 bytes;
  sender = of_be (slice 2 34 bytes);
  recipient = of_be (slice 34 66 bytes);
  id = of_be (slice 66 82 bytes);
  counter = of_be (slice 82 90 bytes);
}

pub length-secure_header :
    (kind sender recipient id counter : ℕ)
    → length (secure_header kind sender recipient id counter) ≡ 90
unfolding secure_header
length-secure_header kind sender recipient id counter = omega (
  arith,
  length-append (be 32 sender) (be 32 recipient ++ (be 16 id ++ be 8 counter)),
  length-append (be 32 recipient) (be 16 id ++ be 8 counter),
  length-append (be 16 id) (be 8 counter),
  length-be 32 sender,
  length-be 32 recipient,
  length-be 16 id,
  length-be 8 counter,
)

byte : (b : ℕ) → of_be (b ∷ []) ≡ b
unfolding of_be
byte b = omega arith

slice-field :
    (from to : ℕ) (bytes before field after : Bytes)
    → bytes ≡ before ++ (field ++ after)
    → length before ≡ from
    → length field ≡ to - from
    → slice from to bytes ≡ field
slice-field from to bytes before field after e b f = rw e (
    ap (take (to - from)) (drop-append from before (field ++ after) b)
    ∙ take-append (to - from) field after f)

read_field :
    (from to width x : ℕ) (bytes before after : Bytes)
    → bytes ≡ before ++ (be width x ++ after)
    → length before ≡ from
    → to - from ≡ width
    → x < 256 ^ width
    → of_be (slice from to bytes) ≡ x
read_field from to width x bytes before after e b w h =
    ap of_be (slice-field from to bytes before (be width x) after e b (length-be width x ∙ sym w))
    ∙ of_be-be width x h

-- The counter is read back whatever the other fields hold.
pub read_counter :
    (kind sender recipient id counter : ℕ) (rest : Bytes)
    → counter < 256 ^ 8
    → (read_header (secure_header kind sender recipient id counter ++ rest)).counter ≡ counter
unfolding secure_header read_header
read_counter kind sender recipient id counter rest h =
    let before = be 32 sender ++ (be 32 recipient ++ be 16 id) in
    read_field 82 90 8 counter (secure_header kind sender recipient id counter ++ rest)
      (2 ∷ kind ∷ before) rest (simp append_assoc)
      (omega (
        arith,
        length-append (be 32 sender) (be 32 recipient ++ be 16 id),
        length-append (be 32 recipient) (be 16 id),
        length-be 32 sender,
        length-be 32 recipient,
        length-be 16 id,
      ))
      refl h

-- What a sender writes, the receiver reads, whatever follows the header, where the fields fit their
-- widths.
pub read_header-secure_header :
    (kind sender recipient id counter : ℕ) (rest : Bytes)
    → sender < 256 ^ 32
    → recipient < 256 ^ 32
    → id < 256 ^ 16
    → counter < 256 ^ 8
    → read_header (secure_header kind sender recipient id counter ++ rest) ≡ record {
      version = 2;
      kind = kind;
      sender = sender;
      recipient = recipient;
      id = id;
      counter = counter;
    }
unfolding secure_header read_header
read_header-secure_header kind sender recipient id counter rest hs hr hi hc =
    let S = be 32 sender in
    let R = be 32 recipient in
    let I = be 16 id in
    let N = be 8 counter in
    let bytes = secure_header kind sender recipient id counter ++ rest in
    let before : Bytes = 2 ∷ kind ∷ [] in
    let p34 : length (before ++ S) ≡ 34 = omega (arith, length-be 32 sender) in
    let p66 : length (before ++ (S ++ R)) ≡ 66 =
      omega (arith, length-append S R, length-be 32 sender, length-be 32 recipient) in
    let p82 : length (before ++ (S ++ (R ++ I))) ≡ 82 = omega (
      arith,
      length-append S (R ++ I),
      length-append R I,
      length-be 32 sender,
      length-be 32 recipient,
      length-be 16 id,
    ) in
    cc (
      read_field 2 34 32 sender bytes before (R ++ (I ++ (N ++ rest))) (simp append_assoc) refl refl
          hs,
      read_field 34 66 32 recipient bytes (before ++ S) (I ++ (N ++ rest)) (simp append_assoc) p34
          refl hr,
      read_field 66 82 16 id bytes (before ++ (S ++ R)) (N ++ rest) (simp append_assoc) p66 refl hi,
      read_field 82 90 8 counter bytes (before ++ (S ++ (R ++ I))) rest (simp append_assoc) p82 refl
          hc,
      byte 2,
      byte kind,
    )
