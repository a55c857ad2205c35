-- ===== src/ByteArray/Read.antt =====
-- read and setPosition on the bytes in use, and what was written is read back.
use c.Prelude.{
  ℕ, ◌+◌, ◌%◌, ◌≤◌, ◌<◌, ◌≡◌, refl, sym, ap, ◌∙◌, false, List, ◌++◌, ltb, if◌then◌else◌, length,
  take, drop, length-take, length-drop, arith,
}
use native.Mathlib.Nat.{mod-lt}
use c.ByteArray.{ByteArray, ok, ◌>>=◌, write, set_position, read, read_nodes, slice, get_read_size}
use c.ByteArray.Bytes.{concat, drop-append_right, take-append_left, take-all}
use c.ByteArray.Nodes.{Moves, read_nodes_lem, IsRead, seek_lem}
use c.ByteArray.Valid.{Valid, memory, length-memory, Uniform-drop}
use c.ByteArray.Overwrite.{overwrite, slice-take}
use c.ByteArray.Content.{
  content, length-content, offset, front-length, front-back, back-length, write-IsWrite,
}

-- The bytes from the position on are those of the current node from its offset on.
pub slice-memory :
    (size : ℕ) (b : ByteArray) (v : Valid b)
    → slice (b.position % b.base_size) size (concat (drop b.cur b.nodes))
      ≡ slice b.position size (memory b)
slice-memory size b v = ap (take size) (
    sym (
      drop-append_right (b.position % b.base_size) (concat (take b.cur b.nodes))
        (concat (drop b.cur b.nodes)))
    ∙ ap (λ (i : ℕ). drop i (concat (take b.cur b.nodes) ++ concat (drop b.cur b.nodes)))
        (omega (arith, front-length b v, offset b v))
    ∙ ap (drop b.position) (sym (front-back b)))

abbrev pub advanced : ℕ → ByteArray → ℕ → ByteArray
advanced size b k = record b { position = b.position + size; cur = b.cur + k }

not-null : (b : ByteArray) → Valid b → b.position < b.capacity → 0 < length (drop b.cur b.nodes)
not-null b v h = grind (arith, v.at_cur, v.counted, length-drop b.cur b.nodes, v.block)

module _ (size : ℕ) (b : ByteArray) (v : Valid b) (here : b.position < b.capacity)
    (enough : b.position + size ≤ b.size) where
  loop :
      (r : List ℕ × ℕ) × (read_nodes (drop b.cur b.nodes) (b.position % b.base_size) size ≡ ok r)
      × IsRead b.base_size (b.position % b.base_size) size (drop b.cur b.nodes) r
  loop =
      read_nodes_lem b.base_size (drop b.cur b.nodes) (b.position % b.base_size) size
        (Uniform-drop b.base_size b.cur b.nodes v.uniform) (mod-lt b.position v.block)
        (not-null b v here) (omega (arith, offset b v, back-length b v, v.bounded))

  advanced-Valid :
      (k : ℕ) → Moves b.base_size (b.position % b.base_size + size) k → Valid (advanced size b k)
  advanced-Valid k m = record {
    block = v.block;
    uniform = v.uniform;
    root = v.root;
    counted = v.counted;
    at_cur = omega (arith, offset b v, m);
    within = enough;
    bounded = v.bounded;
  }

  -- read(size), with that many bytes left and m_cur not null, returns the bytes in use from the
  -- position on and moves the position behind them; nothing else changes.
  pub read_lem :
      (k : ℕ) × (read size b ≡ ok (slice b.position size (content b), advanced size b k))
      × Valid (advanced size b k)
  unfolding read content
  read_lem =
      let (r, e, w) = loop in
      (
        r.1,
        rw (not_beyond, e)
            (ap (λ (xs : List ℕ). ok (xs, advanced size b r.1))
              (w.bytes
                ∙ slice-memory size b v
                ∙ sym (slice-take b.position size b.size (memory b) enough))),
        advanced-Valid r.1 w.moves,
      )
    where
      not_beyond : ltb (get_read_size b) size ≡ false
      not_beyond = ground arith

-- The array with the position at p.
abbrev pub moved : ℕ → ByteArray → ℕ → ByteArray
moved p b k = record b { position = p; size = if ltb b.size p then p else b.size; cur = k }

-- setPosition(p), inside the capacity, succeeds and keeps the array valid.
pub set_position_lem :
    (p : ℕ) (b : ByteArray)
    → Valid b
    → p ≤ b.capacity
    → (k : ℕ) × (set_position p b ≡ ok (moved p b k)) × Valid (moved p b k)
unfolding set_position
set_position_lem p b v h =
    let (k, e, m) =
      seek_lem b.base_size b.nodes p v.uniform v.block v.root (omega (arith, length-memory b v)) in
    (
      k,
      rw (inside, e) refl,
      record {
        block = v.block;
        uniform = v.uniform;
        root = v.root;
        counted = v.counted;
        at_cur = m;
        within = ground arith;
        bounded = ground (arith, v.bounded);
      },
    )
  where
    inside : ltb b.capacity p ≡ false
    inside = ground arith

slice-overwrite :
    (p : ℕ) (buf xs : List ℕ) → p ≤ length xs → slice p (length buf) (overwrite p buf xs) ≡ buf
slice-overwrite p buf xs h =
    ap (λ (i : ℕ). slice i (length buf) (overwrite p buf xs)) (sym at_front)
    ∙ ap (take (length buf)) (drop-append_right 0 (take p xs) (buf ++ drop (p + length buf) xs))
    ∙ take-append_left (length buf) buf (drop (p + length buf) xs) (omega arith)
    ∙ take-all (length buf) buf (omega arith)
  where
    at_front : length (take p xs) + 0 ≡ p
    at_front = omega (arith, length-take p xs)

-- In a valid array: what write put into the array, if it is not empty, is read back by read, when
-- the position is set back to where the write began; the bytes in use are those before with the
-- buffer written over them.
pub read-write :
    (buf : List ℕ) (b : ByteArray)
    → Valid b
    → 0 < length buf
    → (b' : ByteArray) × ((write buf b >>= set_position b.position >>= read (length buf))
        ≡ ok (buf, b'))
      × Valid b'
      × (content b' ≡ overwrite b.position buf (content b))
unfolding content
read-write buf b v pos =
    let (b1, e1, w) = write-IsWrite buf b v in
    let v1 = w.valid in
    let (k, e2, v2) =
      set_position_lem b.position b1 v1 (omega (arith, w.moved, v1.within, v1.bounded)) in
    let b2 = moved b.position b1 k in
    let kept : b2.size ≡ b1.size = ground (arith, w.moved, v1.within) in
    let (j, e3, v3) =
      read_lem (length buf) b2 v2 (omega (arith, w.moved, v1.within, v1.bounded))
        (omega (arith, w.moved, v1.within, kept)) in
    let same : content b2 ≡ overwrite b.position buf (content b) = rw kept w.bytes in
    (
      advanced (length buf) b2 j,
      rw (e1, e2, e3, same)
          (ap (λ (xs : List ℕ). ok (xs, advanced (length buf) b2 j))
            (slice-overwrite b.position buf (content b)
              (omega (arith, length-content b v, v.within)))),
      v3,
      same,
    )
