-- ===== src/ByteArray/Cursor.antt =====
-- What a ByteArray promises: a text of bytes with a position in it. Sequences of write, read, setPosition and
-- clear on the blocks do what they do on this cursor.
use c.Prelude.{
  ℕ, ◌+◌, ◌≤◌, ◌<◌, ◌≡◌, refl, ap, ◌∙◌, true, false, List, [], ◌∷◌, Option, none, some, ltb, leb,
  if◌then◌else◌, length, take, length-take, arith, Bool-cases, inl, inr,
}
use c.ByteArray.{
  ByteArray, Result, ok, out_of_range, undefined, ◌>>=◌, write, read, set_position, clear, slice,
  get_read_size,
}
use c.ByteArray.Valid.{Valid, Uniform-take}
use c.ByteArray.Overwrite.{overwrite}
use c.ByteArray.Content.{content, length-content, write-IsWrite}
use c.ByteArray.Read.{read_lem, set_position_lem, advanced, moved}

pub data Call : Type 0 where
  writes : List ℕ → Call
  reads : ℕ → Call
  seeks : ℕ → Call
  clears : Call

-- The call on the blocks: the bytes that it returns, and the new state.
unfoldable pub exec : Call → ByteArray → Result (List ℕ × ByteArray)
exec (writes buf) b = write buf b >>= λ b'. ok ([], b')
exec (reads n) b = read n b
exec (seeks p) b = set_position p b >>= λ b'. ok ([], b')
exec clears b = ok ([], clear b)

-- A call that throws, which is caught, has changed nothing.
abbrev pub caught : ByteArray → Result (List ℕ × ByteArray) → Result (Option (List ℕ) × ByteArray)
caught b (ok r) = ok (some r.0, r.1)
caught b out_of_range = ok (none, b)
caught b undefined = undefined

unfoldable pub run : List Call → ByteArray → Result (List (Option (List ℕ)) × ByteArray)
run [] b = ok ([], b)
run (call ∷ calls) b = caught b (exec call b) >>= λ r. run calls r.1 >>= λ s. ok (r.0 ∷ s.0, s.1)

pub record Cursor : Type 0 where
  pub bytes : List ℕ
  pub position : ℕ

-- The call on the cursor; a read of more bytes than there are gives none.
unfoldable pub step : Call → Cursor → Option (List ℕ) × Cursor
step (writes buf) c = (
  some [],
  record { bytes = overwrite c.position buf c.bytes; position = c.position + length buf },
)
step (reads n) c =
    if leb (c.position + n) (length c.bytes)
    then (some (slice c.position n c.bytes), record c { position = c.position + n })
    else (none, c)
step (seeks p) c = (some [], record c { position = p })
step clears c = (some [], record { bytes = []; position = 0 })

unfoldable pub steps : List Call → Cursor → List (Option (List ℕ)) × Cursor
steps [] c = ([], c)
steps (call ∷ calls) c =
    let (o, c') = step call c in let (os, c'') = steps calls c' in (o ∷ os, c'')

-- No read of 0 bytes, and no seek behind the bytes.
abbrev pub CallOk : Call → Cursor → Type 0
CallOk (writes buf) c = Unit {0}
CallOk (reads n) c = 0 < n
CallOk (seeks p) c = p ≤ length c.bytes
CallOk clears c = Unit {0}

unfoldable pub AllOk : List Call → Cursor → Type 0
AllOk [] c = Unit {0}
AllOk (call ∷ calls) c = CallOk call c × AllOk calls (step call c).1

pub record Shows (b : ByteArray) (c : Cursor) : Type 0 where
  pub valid : Valid b
  pub bytes : content b ≡ c.bytes
  pub position : b.position ≡ c.position

thrown : (n : ℕ) (b : ByteArray) → ltb (get_read_size b) n ≡ true → read n b ≡ out_of_range
unfolding read
thrown n b e = rw e refl

moved-content : (p : ℕ) (b : ByteArray) (k : ℕ) → p ≤ b.size → content (moved p b k) ≡ content b
unfolding content
moved-content p b k h = rw (not_beyond p b.size h) refl
  where
    not_beyond : (p n : ℕ) → p ≤ n → ltb n p ≡ false
    not_beyond p n h = ground arith

clear-Valid : (b : ByteArray) → Valid b → Valid (clear b)
unfolding clear
clear-Valid b v = record {
  block = v.block;
  uniform = Uniform-take b.base_size 1 b.nodes v.uniform;
  root = omega (arith, one);
  counted = rw one (omega arith);
  at_cur = omega (arith, v.block);
  within = omega arith;
  bounded = omega arith;
}
  where
    one : length (take 1 b.nodes) ≡ 1
    one = omega (arith, length-take 1 b.nodes, v.root)

exec-step :
    (call : Call) (b : ByteArray) (c : Cursor)
    → Shows b c
    → CallOk call c
    → (b' : ByteArray) × (caught b (exec call b) ≡ ok ((step call c).0, b'))
      × Shows b' (step call c).1
unfolding exec step
exec-step (writes buf) b c s h =
    let (b', e, w) = write-IsWrite buf b s.valid in
    (
      b',
      rw e refl,
      record {
        valid = w.valid;
        bytes = rw (← s.bytes, ← s.position) w.bytes;
        position = rw (← s.position) w.moved;
      },
    )
exec-step (reads n) b c s h = elim (Bool-cases (leb (c.position + n) (length c.bytes))) [
  | inl fits ↦
      let enough : b.position + n ≤ b.size =
        ground (arith, fits, s.position, ap length s.bytes, length-content b s.valid) in
      let (k, e, v) = read_lem n b s.valid (omega (arith, s.valid.bounded, h)) enough in
      (
        advanced n b k,
        rw (fits, e)
            (ap (λ (xs : List ℕ). ok (some xs, advanced n b k)) (rw (s.bytes, s.position) refl)),
        rw fits (record {
          valid = v;
          bytes = unfold content in s.bytes;
          position = rw s.position refl;
        }),
      )
  | inr over ↦
      let beyond : ltb (get_read_size b) n ≡ true =
        ground (arith, over, s.position, ap length s.bytes, length-content b s.valid) in
      (b, rw (over, thrown n b beyond) refl, rw over s)
]
exec-step (seeks p) b c s h =
    let inside : p ≤ b.size = omega (arith, h, ap length s.bytes, length-content b s.valid) in
    let (k, e, v) = set_position_lem p b s.valid (omega (arith, inside, s.valid.bounded)) in
    (
      moved p b k,
      rw e refl,
      record { valid = v; bytes = moved-content p b k inside ∙ s.bytes; position = refl },
    )
exec-step clears b c s h = (
  clear b,
  refl,
  record {
    valid = clear-Valid b s.valid;
    bytes = unfold content clear in refl;
    position = unfold clear in refl;
  },
)

-- Every sequence of the calls write, read, setPosition and clear on a valid array returns what the cursor
-- returns that stands for it, in the same order, and leaves an array that the cursor then stands for; a
-- read of more bytes than there are throws, and changes nothing. No read is of 0 bytes and no
-- seek goes behind the bytes in use.
pub run-steps :
    (calls : List Call) (b : ByteArray) (c : Cursor)
    → Shows b c
    → AllOk calls c
    → (b' : ByteArray) × (run calls b ≡ ok ((steps calls c).0, b')) × Shows b' (steps calls c).1
unfolding run steps AllOk
run-steps [] b c s h = (b, refl, s)
run-steps (call ∷ calls) b c s (here, h) =
    let (b1, e1, s1) = exec-step call b c s here in
    let (b2, e2, s2) = run-steps calls b1 (step call c).1 s1 h in (b2, rw (e1, e2) refl, s2)
