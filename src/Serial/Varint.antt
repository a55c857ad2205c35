-- ===== src/Serial/Varint.antt =====
-- The variable-length integers: what is written, that tmp has room for it, and that it is read back.
use Prim.Native.Nat.{bit_and, bit_or}
use native.Mathlib.Nat.{pow-suc, mod-eq_of_lt, mod-le, div-add-mod}
use native.Mathlib.Numerals.{towards_suc}
use c.Prelude.{
  ℕ, zero, suc, ◌+◌, ◌*◌, ◌/◌, ◌%◌, ◌^◌, ◌≤◌, ◌<◌, ◌≡◌, refl, ap, ◌∙◌, true, false, List, [], ◌∷◌,
  ◌++◌, if◌then◌else◌, ltb, leb, length, arith, Bool-cases, inl, inr, All,
}
use c.Bits.{bit_and-0x7f, bit_or-shifted}
use c.ByteArray.{ByteArray, ok, ◌>>=◌, write, set_position}
use c.ByteArray.Valid.{Valid}
use c.ByteArray.Content.{write-IsWrite}
use c.ByteArray.Ahead.{ahead, read-ahead, IsNext, rewind}
use c.Serial.{
  varint, read_varint, read_fuint8, byte_of, write_uint32, write_uint64, read_uint32, read_uint64,
}
use c.Serial.Fixed.{ReadsBack}

-- The groups of seven bits of v, lowest first, with the top bit set on all but the last.
unfoldable pub groups : ℕ → ℕ → List ℕ
groups zero v = v ∷ []
groups (suc k) v =
    let rest = groups k (v / 128) in if leb 128 v then (v % 128 + 128) ∷ rest else v ∷ []

top_bit_set : (v : ℕ) → bit_or (bit_and v 0x7f) 0x80 % 2 ^ 8 ≡ v % 128 + 128
top_bit_set v = rw (bit_and-0x7f v, bit_or-shifted 7 (v % 128) 1 (omega arith)) (omega arith)

-- In k + 1 elements of tmp there is room for any value below 128 ^ (k + 1).
pub varint-groups : (k v : ℕ) → v < 128 ^ suc k → varint (suc k) v ≡ ok (groups k v)
unfolding varint groups
varint-groups zero v h = ground arith
varint-groups (suc k) v h = elim (Bool-cases (leb 128 v)) [
  | inr last ↦ rw last (ap (λ (x : ℕ). ok (x ∷ [])) (ground (arith, last)))
  | inl more ↦
      rw (more, varint-groups k (v / 128) (omega (arith, pow-suc 128 (suc k))), top_bit_set v) refl
]

pub length-groups : (k v : ℕ) → 0 < length (groups k v)
unfolding groups
length-groups zero v = omega arith
length-groups (suc k) v = ground arith

seven_more : (i : ℕ) → 2 ^ (i + 7) ≡ 128 * 2 ^ i
seven_more i = simp towards_suc (omega arith)

-- One byte.
read_fuint8-ahead :
    (x : ℕ) (ys : List ℕ) (b : ByteArray)
    → Valid b
    → ahead b ≡ x ∷ ys
    → (b' : ByteArray) × (read_fuint8 b ≡ ok (x, b')) × IsNext ys b b'
unfolding read_fuint8 byte_of
read_fuint8-ahead x ys b v e =
    let (b', r, next) = read-ahead (x ∷ []) ys b v e (omega arith) in (b', rw r refl, next)

-- What is added to the result, with `acc` read so far and v still to come at bit i.
add_group :
    (w i acc v : ℕ)
    → acc < 2 ^ i
    → v * 2 ^ i < 2 ^ w
    → bit_or acc (v * 2 ^ i % 2 ^ w) ≡ acc + v * 2 ^ i
add_group w i acc v h fits = rw (mod-eq_of_lt fits) (bit_or-shifted i acc v h)

module _ (w : ℕ) where
  read_varint-last :
      (k i acc v : ℕ) (ys : List ℕ) (b : ByteArray)
      → Valid b
      → v < 128
      → acc < 2 ^ i
      → v * 2 ^ i < 2 ^ w
      → ahead b ≡ v ∷ ys
      → (b' : ByteArray) × (read_varint w (suc k) i acc b ≡ ok (acc + v * 2 ^ i, b'))
        × IsNext ys b b'
  unfolding read_varint
  read_varint-last k i acc v ys b valid small h fits e =
      let (b', r, next) = read_fuint8-ahead v ys b valid e in
      (b', rw (r, stop) (ap (λ (n : ℕ). ok (n, b')) (add_group w i acc v h fits)), next)
    where
      stop : ltb v 0x80 ≡ true
      stop = ground arith

  read_varint-more :
      (k i acc v : ℕ) (ys : List ℕ) (b : ByteArray)
      → Valid b
      → acc < 2 ^ i
      → v * 2 ^ i < 2 ^ w
      → ahead b ≡ (v % 128 + 128) ∷ ys
      → (b' : ByteArray) × (read_varint w (suc k) i acc b
          ≡ read_varint w k (i + 7) (acc + v % 128 * 2 ^ i) b')
        × IsNext ys b b'
  unfolding read_varint
  read_varint-more k i acc v ys b valid h fits e =
      let (b', r, next) = read_fuint8-ahead (v % 128 + 128) ys b valid e in
      (
        b',
        rw (r, go_on)
            (ap (λ (n : ℕ). read_varint w k (i + 7) n b')
              (rw (bit_and-0x7f (v % 128 + 128), low) (add_group w i acc (v % 128) h part))),
        next,
      )
    where
      go_on : ltb (v % 128 + 128) 0x80 ≡ false
      go_on = ground arith

      low : (v % 128 + 128) % 128 ≡ v % 128
      low = omega arith

      part : v % 128 * 2 ^ i < 2 ^ w
      part = grind (arith, mod-le v 128)

  pub read_varint-groups :
      (k i acc v : ℕ) (ys : List ℕ) (b : ByteArray)
      → Valid b
      → v < 128 ^ suc k
      → acc < 2 ^ i
      → acc + v * 2 ^ i < 2 ^ w
      → ahead b ≡ groups k v ++ ys
      → (b' : ByteArray) × (read_varint w (suc k) i acc b ≡ ok (acc + v * 2 ^ i, b'))
        × IsNext ys b b'
  unfolding groups
  read_varint-groups zero i acc v ys b valid small h fits e =
      read_varint-last 0 i acc v ys b valid small h (omega arith) e
  read_varint-groups (suc k) i acc v ys b valid small h fits e = elim (Bool-cases (leb 128 v)) [
    | inr last ↦
        read_varint-last (suc k) i acc v ys b valid (ground arith) h (omega arith) (rw last at e)
    | inl more ↦
        let (b1, r1, next1) =
          read_varint-more (suc k) i acc v (groups k (v / 128) ++ ys) b valid h (omega arith)
            (rw more at e) in
        let (b2, r2, next2) =
          read_varint-groups k (i + 7) (acc + v % 128 * 2 ^ i) (v / 128) ys b1 next1.valid
            (omega (arith, pow-suc 128 (suc k))) (grows i acc v h) (omega (arith, split i v))
            next1.left in
        (
          b2,
          r1 ∙ r2 ∙ ap (λ (n : ℕ). ok (n, b2)) (omega (arith, split i v)),
          record { valid = next2.valid; left = next2.left; endian = next2.endian ∙ next1.endian },
        )
  ]
    where
      split : (i v : ℕ) → v * 2 ^ i ≡ v % 128 * 2 ^ i + v / 128 * 2 ^ (i + 7)
      split i v = omega (
        arith,
        ap (λ (t : ℕ). t * 2 ^ i) (div-add-mod v 128),
        ap (λ (t : ℕ). v / 128 * t) (seven_more i),
      )

      grows : (i acc v : ℕ) → acc < 2 ^ i → acc + v % 128 * 2 ^ i < 2 ^ (i + 7)
      grows i acc v h = grind (arith, seven_more i)

groups-shape :
    (k v : ℕ) → v < 128 ^ suc k → All (λ x. x < 256) (groups k v) × (length (groups k v) ≤ suc k)
unfolding groups
groups-shape zero v h = omega arith
groups-shape (suc k) v h = elim (Bool-cases (leb 128 v)) [
  | inr last ↦ rw last ((ground arith, tt), omega arith)
  | inl more ↦
      let (bytes, short) = groups-shape k (v / 128) (omega (arith, pow-suc 128 (suc k))) in
      rw more ((omega arith, bytes), omega (arith, short))
]

-- writeUint32 and writeUint64 never write past the end of tmp[5] or tmp[10]: every value fits, and
-- what is written are one to five, or one to ten, bytes.
pub varint-fits :
    (v32 v64 : ℕ)
    → v32 < 2 ^ 32
    → v64 < 2 ^ 64
    → (varint 5 v32 ≡ ok (groups 4 v32))
      × All (λ x. x < 256) (groups 4 v32)
      × (0 < length (groups 4 v32))
      × (length (groups 4 v32) ≤ 5)
      × (varint 10 v64 ≡ ok (groups 9 v64))
      × All (λ x. x < 256) (groups 9 v64)
      × (0 < length (groups 9 v64))
      × (length (groups 9 v64) ≤ 10)
varint-fits v32 v64 h32 h64 =
    let (bytes32, short32) = groups-shape 4 v32 (omega arith) in
    let (bytes64, short64) = groups-shape 9 v64 (omega arith) in
    (
      varint-groups 4 v32 (omega arith),
      bytes32,
      length-groups 4 v32,
      short32,
      varint-groups 9 v64 (omega arith),
      bytes64,
      length-groups 9 v64,
      short64,
    )

-- What one round trip comes to, at w bits and with room for k + 1 bytes.
module _ (w k v : ℕ) (b : ByteArray) (valid : Valid b) (room : v < 128 ^ suc k)
    (fits : v < 2 ^ w) where
  back :
      ReadsBack
        ((varint (suc k) v >>= λ tmp. write tmp b)
          >>= set_position b.position
          >>= read_varint w (suc k) 0 0)
        v
  back =
      let (b1, e1, written) = write-IsWrite (groups k v) b valid in
      let (b2, e2, next) = rewind (groups k v) b b1 valid written in
      let (b3, e3, last) =
        read_varint-groups w k 0 0 v _ b2 next.valid room (omega arith) (omega arith) next.left in
      (
        b3,
        rw (varint-groups k v room, e1, e2) (e3 ∙ ap (λ (n : ℕ). ok (n, b3)) (omega arith)),
        last.valid,
      )

-- In a valid array: a uint32_t that writeUint32 wrote is read back by readUint32, and a uint64_t
-- that writeUint64 wrote by readUint64, with the position set back in between, and the array is
-- valid.
pub read_uint-write_uint :
    (v32 v64 : ℕ) (b : ByteArray)
    → Valid b
    → v32 < 2 ^ 32
    → v64 < 2 ^ 64
    → ReadsBack (write_uint32 v32 b >>= set_position b.position >>= read_uint32) v32
      × ReadsBack (write_uint64 v64 b >>= set_position b.position >>= read_uint64) v64
unfolding write_uint32 write_uint64 read_uint32 read_uint64
read_uint-write_uint v32 v64 b valid h32 h64 =
    (back 32 4 v32 b valid (omega arith) h32, back 64 9 v64 b valid (omega arith) h64)
