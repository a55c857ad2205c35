-- ===== src/Stream/Pieces/Array.antt =====
-- What read(ba, length) leaves in the array.
use native.Mathlib.Nat.{mod-lt}
use c.Prelude.{
  ℕ, ◌+◌, ◌*◌, ◌%◌, ◌≤◌, ◌<◌, ◌≡◌, refl, sym, ap, ◌∙◌, true, List, [], ◌∷◌, ◌++◌, if◌then◌else◌,
  ltb, length, take, drop, length-take, take-append-drop, arith,
}
use c.Prelude.Int.{ℤ, pos}
use c.ByteArray.{ByteArray, ok, put, add_capacity, set_position}
use c.ByteArray.Bytes.{concat, put-append_right, take-append_left}
use c.ByteArray.Valid.{Valid, memory, length-memory, IsGrown, add_capacity-IsGrown, Uniform-drop}
use c.ByteArray.Overwrite.{overwrite, take-put}
use c.ByteArray.Content.{content, offset, cur-le, front-length, front-back, back-length, IsWrite}
use c.ByteArray.Read.{set_position_lem, moved}
use c.ByteArray.Buffers.{Iovec, iov_loop, inside_block, get_write_buffers, get_write_buffers-loop}
use c.Stream.{Got, got, no_bytes, IsGot, Socket}
use c.Stream.Pieces.{scatter, take_in, read_array, first_piece}
use c.Stream.Pieces.Scatter.{length-scatter, scatter-Uniform, iov_loop-scatter}

-- The pieces of `len` bytes from the position on, and what xs makes of the memory.
pieces :
    (len : ℕ) (b : ByteArray) (xs : List ℕ)
    → Valid b
    → b.position + len ≤ b.capacity
    → 0 < len
    → length xs ≤ len
    → (v : Iovec) × (vs : List Iovec) × (iov_loop
          (drop b.cur b.nodes)
          b.cur
          (b.position % b.base_size)
          len
        ≡ ok (v ∷ vs))
      × (concat (scatter (v ∷ vs) xs b.nodes) ≡ put (memory b) b.position xs)
pieces len b xs v room some_len few =
    let (w, ws, r, g) =
      iov_loop-scatter (drop b.cur b.nodes) (take b.cur b.nodes) (b.position % b.base_size) len xs
        (omega (arith, offset b v, back-length b v, room)) some_len few
        (inside_block b.base_size (b.position % b.base_size) (drop b.cur b.nodes)
          (Uniform-drop b.base_size b.cur b.nodes v.uniform) (mod-lt b.position v.block)) in
    (
      w,
      ws,
      ap (λ (i : ℕ). iov_loop (drop b.cur b.nodes) i (b.position % b.base_size) len) at ∙ r,
      ap (λ l. concat (scatter (w ∷ ws) xs l)) (sym (take-append-drop b.cur b.nodes)) ∙ g ∙ over,
    )
  where
    at : b.cur ≡ length (take b.cur b.nodes)
    at = omega (arith, length-take b.cur b.nodes, cur-le b v)

    over :
        concat (take b.cur b.nodes)
          ++ put (concat (drop b.cur b.nodes)) (b.position % b.base_size) xs
        ≡ put (memory b) b.position xs
    over =
        sym (
          put-append_right (concat (take b.cur b.nodes)) (concat (drop b.cur b.nodes))
            (b.position % b.base_size) xs)
        ∙ ap (λ (i : ℕ). put (concat (take b.cur b.nodes) ++ concat (drop b.cur b.nodes)) i xs)
            (omega (arith, front-length b v, offset b v))
        ∙ ap (λ (l : List ℕ). put l b.position xs) (sym (front-back b))

-- The array with its pieces filled.
abbrev filled : List Iovec → List ℕ → ByteArray → ByteArray
filled v xs b = record b { nodes = scatter v xs b.nodes }

filled-Valid : (v : List Iovec) (xs : List ℕ) (b : ByteArray) → Valid b → Valid (filled v xs b)
filled-Valid w xs b v = record {
  block = v.block;
  uniform = scatter-Uniform b.base_size w xs b.nodes v.uniform;
  root = omega (arith, length-scatter w xs b.nodes, v.root);
  counted = v.counted ∙ ap (λ (n : ℕ). n * b.base_size) (sym (length-scatter w xs b.nodes));
  at_cur = v.at_cur;
  within = v.within;
  bounded = v.bounded;
}

-- What the call leaves: the array with the bytes written, or with the bytes and the position as they were.
abbrev pub IsReceived : ByteArray → Got → ℤ × ByteArray → Type 0
IsReceived b (got xs) (rt, b') = (rt ≡ pos (length xs)) × IsWrite xs b b'
IsReceived b (no_bytes code) (rt, b') =
    (rt ≡ code) × Valid b' × (content b' ≡ content b) × (b'.position ≡ b.position)

grown-content :
    (n : ℕ) (b b' : ByteArray) (extra : List ℕ)
    → Valid b
    → IsGrown n b b' extra
    → content b' ≡ content b
unfolding content
grown-content n b b' extra v g =
    rw (g.kept, ap (λ x. x.size) g.same)
      (take-append_left b.size (memory b) extra (omega (arith, length-memory b v, v.bounded)))

-- The state that take_in leaves, behind addCapacity.
module _ (n : ℕ) (b b' : ByteArray) (extra xs : List ℕ) (v : Valid b) (g : IsGrown n b b' extra)
    (few : length xs ≤ n) where
  abbrev stop : ℕ
  stop = b'.position + length xs

  filled-bytes :
      (w : List Iovec) (k : ℕ)
      → concat (scatter w xs b'.nodes) ≡ put (memory b') b'.position xs
      → content (moved stop (filled w xs b') k) ≡ overwrite b.position xs (content b)
  unfolding content
  filled-bytes w k e =
      rw (e, g.kept, ap (λ x. x.size) g.same, ap (λ x. x.position) g.same)
        (take-put b.position b.size xs (memory b) extra v.within
          (omega (arith, length-memory b v, v.bounded))
          (omega (
            arith,
            g.room,
            few,
            length-memory b' g.valid,
            ap length g.kept,
            ap (λ x. x.position) g.same,
          )))

  filled-IsWrite :
      (w : List Iovec)
      → concat (scatter w xs b'.nodes) ≡ put (memory b') b'.position xs
      → (c : ByteArray) × (set_position stop (filled w xs b') ≡ ok c) × IsWrite xs b c
  filled-IsWrite w e =
      let (k, s, u) =
        set_position_lem stop (filled w xs b') (filled-Valid w xs b' g.valid)
          (omega (arith, g.room, few)) in
      (
        moved stop (filled w xs b') k,
        s,
        record {
          valid = u;
          bytes = filled-bytes w k e;
          moved = ap (λ (p : ℕ). p + length xs) (ap (λ x. x.position) g.same);
          same = λ i. record (g.same i) {
            nodes = scatter w xs b'.nodes;
            capacity = b'.capacity;
            cur = k;
            position = stop;
            size = if ltb b'.size stop then stop else b'.size;
          };
        },
      )

module _ {ℓ} {S : Type ℓ} (K : Socket S) where
  received :
      (n : ℕ) (b : ByteArray) (a : Got × S)
      → Valid b
      → 0 < n
      → IsGot n a.0
      → (w : List Iovec) × (r : ℤ × ByteArray) × (get_write_buffers n b
          ≡ ok (add_capacity n b, w, n))
        × (first_piece w (take_in K (add_capacity n b) w a) ≡ ok (r.0, r.1, a.1))
        × IsReceived b a.0 r
  unfolding take_in
  received n b (no_bytes code, t) v some_bytes err =
      let (extra, g) = add_capacity-IsGrown n b v in
      let (w, ws, e, _) =
        pieces n (add_capacity n b) [] g.valid (omega (arith, g.room)) some_bytes (omega arith) in
      (
        w ∷ ws,
        (code, add_capacity n b),
        get_write_buffers-loop n b (w ∷ ws) some_bytes e,
        refl,
        (
          refl,
          g.valid,
          grown-content n b (add_capacity n b) extra v g,
          ap (λ x. x.position) g.same,
        ),
      )
  received n b (got xs, t) v some_bytes (_, few) =
      let (extra, g) = add_capacity-IsGrown n b v in
      let (w, ws, e, f) =
        pieces n (add_capacity n b) xs g.valid (omega (arith, g.room)) some_bytes few in
      let (c, s, i) = filled-IsWrite n b (add_capacity n b) extra xs v g few (w ∷ ws) f in
      (
        w ∷ ws,
        (pos (length xs), c),
        get_write_buffers-loop n b (w ∷ ws) some_bytes e,
        rw s refl,
        (refl, i),
      )

  -- On a connected SocketStream read(ba, length), for a valid array and a length above 0, never fails: what
  -- recv gives is written into the array at its position, as write would do it, with the position moved
  -- behind, and counted; a code of recv is returned, and the bytes in use and the position stay.
  pub read_array-IsReceived :
      (n : ℕ) (b : ByteArray) (s : S)
      → Valid b
      → 0 < n
      → K.is_connected s ≡ true
      → (r : ℤ × ByteArray) × (read_array K n b s ≡ ok (r.0, r.1, (K.recv n s).1))
        × IsReceived b (K.recv n s).0 r
  unfolding read_array
  read_array-IsReceived n b s v some_bytes on =
      let (w, r, e, f, i) = received n b (K.recv n s) v some_bytes (K.received n s some_bytes) in
      (r, rw (on, e) f, i)
