-- ===== src/ByteArray/Content.antt =====
-- The bytes in use, [0, m_size), are what a ByteArray is about: write overwrites them from the
-- position on, and setPosition moves in them.
use c.Prelude.{
  ℕ, suc, ◌+◌, ◌-◌, ◌*◌, ◌%◌, ◌≤◌, ◌<◌, ◌≡◌, refl, sym, ap, ◌∙◌, false, List, [], ◌∷◌, ◌++◌, ltb,
  ◌==◌, if◌then◌else◌, length, take, drop, length-append, length-take, length-drop, arith,
  take-append-drop,
}
use native.Mathlib.Nat.{add-mul-mod_self_right, mod-eq_of_lt, mod-lt}
use c.ByteArray.{ByteArray, ok, add_capacity, put, write, write_nodes}
use c.ByteArray.Bytes.{concat, concat-append, put-append_right}
use c.ByteArray.Nodes.{length-concat, write_nodes_lem, IsWritten}
use c.ByteArray.Valid.{
  Valid, memory, length-memory, IsGrown, add_capacity-IsGrown, Uniform-append, Uniform-drop,
  Uniform-take,
}
use c.ByteArray.Overwrite.{overwrite, take-put}

unfoldable pub content : ByteArray → List ℕ
content b = take b.size (memory b)

pub length-content : (b : ByteArray) → Valid b → length (content b) ≡ b.size
unfolding content
length-content b v = omega (arith, length-take b.size (memory b), length-memory b v, v.bounded)

-- The offset in the current node.
pub offset : (b : ByteArray) → Valid b → b.position ≡ b.cur * b.base_size + b.position % b.base_size
offset b v =
    let r = b.position - b.cur * b.base_size in
    let e : b.position ≡ r + b.cur * b.base_size = omega (arith, v.at_cur) in
    let m : b.position % b.base_size ≡ r =
      ap (λ (n : ℕ). n % b.base_size) e
      ∙ add-mul-mod_self_right r b.cur b.base_size
      ∙ mod-eq_of_lt (omega (arith, v.at_cur)) in
    omega (arith, e, m)

pub cur-le : (b : ByteArray) → Valid b → b.cur ≤ length b.nodes
cur-le b v = grind (arith, v.at_cur, v.counted, v.within, v.bounded, v.block)

-- The memory before the current node, and from it on.
pub front-length :
    (b : ByteArray) → Valid b → length (concat (take b.cur b.nodes)) ≡ b.cur * b.base_size
front-length b v =
    length-concat b.base_size (take b.cur b.nodes)
      (Uniform-take b.base_size b.cur b.nodes v.uniform)
    ∙ ap (λ (n : ℕ). n * b.base_size) (omega (arith, length-take b.cur b.nodes, cur-le b v))

pub front-back :
    (b : ByteArray) → memory b ≡ concat (take b.cur b.nodes) ++ concat (drop b.cur b.nodes)
front-back b =
    ap concat (sym (take-append-drop b.cur b.nodes))
    ∙ concat-append (take b.cur b.nodes) (drop b.cur b.nodes)

pub back-length :
    (b : ByteArray)
    → Valid b
    → length (concat (drop b.cur b.nodes)) + b.cur * b.base_size ≡ b.capacity
back-length b v = omega (
  arith,
  ap length (front-back b),
  length-append (concat (take b.cur b.nodes)) (concat (drop b.cur b.nodes)),
  front-length b v,
  length-memory b v,
)

-- The state after the loop of write.
abbrev written : List ℕ → ByteArray → List (List ℕ) × ℕ → ByteArray
written buf b r =
    let position' = b.position + length buf in
    record b {
      nodes = take b.cur b.nodes ++ r.0;
      cur = b.cur + r.1;
      position = position';
      size = if ltb b.size position' then position' else b.size;
    }

module _ (buf : List ℕ) (b : ByteArray) (v : Valid b)
    (room : b.position + length buf ≤ b.capacity) where
  loop :
      0 < length buf
      → (r : List (List ℕ) × ℕ) × (write_nodes (drop b.cur b.nodes) (b.position % b.base_size) buf
          ≡ ok r)
        × IsWritten b.base_size (b.position % b.base_size) buf (drop b.cur b.nodes) r
  loop pos =
      write_nodes_lem b.base_size (drop b.cur b.nodes) (b.position % b.base_size) buf
        (Uniform-drop b.base_size b.cur b.nodes v.uniform) (mod-lt b.position v.block) pos
        (omega (arith, offset b v, back-length b v))

  module _ (r : List (List ℕ) × ℕ)
      (w : IsWritten b.base_size (b.position % b.base_size) buf (drop b.cur b.nodes) r) where
    count-kept : length (written buf b r).nodes ≡ length b.nodes
    count-kept = omega (
      arith,
      length-append (take b.cur b.nodes) r.0,
      w.count,
      length-take b.cur b.nodes,
      length-drop b.cur b.nodes,
      cur-le b v,
    )

    written-Valid : Valid (written buf b r)
    written-Valid = record {
      block = v.block;
      uniform =
          Uniform-append b.base_size (take b.cur b.nodes) r.0
            (Uniform-take b.base_size b.cur b.nodes v.uniform) w.uniform;
      root = omega (arith, count-kept, v.root);
      counted = v.counted ∙ ap (λ (n : ℕ). n * b.base_size) (sym count-kept);
      at_cur = omega (arith, offset b v, w.moves);
      within = ground arith;
      bounded = ground (arith, v.bounded, room);
    }

    memory-written : memory (written buf b r) ≡ put (memory b) b.position buf
    memory-written =
        concat-append (take b.cur b.nodes) r.0
        ∙ ap (◌++◌ (concat (take b.cur b.nodes))) w.bytes
        ∙ sym (
            put-append_right (concat (take b.cur b.nodes)) (concat (drop b.cur b.nodes))
              (b.position % b.base_size) buf)
        ∙ ap (λ (i : ℕ). put (concat (take b.cur b.nodes) ++ concat (drop b.cur b.nodes)) i buf)
            (omega (arith, front-length b v, offset b v))
        ∙ ap (λ (xs : List ℕ). put xs b.position buf) (sym (front-back b))

-- What write(buf) promises.
pub record IsWrite (buf : List ℕ) (b b' : ByteArray) : Type 0 where
  pub valid : Valid b'
  pub bytes : content b' ≡ overwrite b.position buf (content b)
  pub moved : b'.position ≡ b.position + length buf
  pub same : b' ≡ record b {
    nodes = b'.nodes;
    capacity = b'.capacity;
    cur = b'.cur;
    position = b'.position;
    size = b'.size;
  }

IsWrite-nil : (b : ByteArray) → Valid b → IsWrite [] b b
unfolding content
IsWrite-nil b v = record {
  valid = v;
  bytes = rw (plus_zero b.position) (sym (take-append-drop b.position (content b)));
  moved = omega arith;
  same = refl;
}
  where
    plus_zero : (n : ℕ) → n + 0 ≡ n
    plus_zero n = omega arith

-- After addCapacity has turned b into b'.
module _ (buf : List ℕ) (b b' : ByteArray) (extra : List ℕ) (v : Valid b)
    (g : IsGrown (length buf) b b' extra) (r : List (List ℕ) × ℕ)
    (w : IsWritten b'.base_size (b'.position % b'.base_size) buf (drop b'.cur b'.nodes) r) where
  written-bytes : content (written buf b' r) ≡ overwrite b.position buf (content b)
  unfolding content
  written-bytes =
      rw
        (
          memory-written buf b' g.valid (omega (arith, g.room)) r w,
          g.kept,
          ap (λ x. x.size) g.same,
          ap (λ x. x.position) g.same,
        )
        (take-put b.position b.size buf (memory b) extra v.within
          (omega (arith, length-memory b v, v.bounded))
          (omega (
            arith,
            g.room,
            length-memory b' g.valid,
            ap length g.kept,
            ap (λ x. x.position) g.same,
          )))

  written-IsWrite : IsWrite buf b (written buf b' r)
  written-IsWrite = record {
    valid = written-Valid buf b' g.valid (omega (arith, g.room)) r w;
    bytes = written-bytes;
    moved = ap (λ (n : ℕ). n + length buf) (ap (λ x. x.position) g.same);
    same = λ i. record (g.same i) {
      nodes = (written buf b' r).nodes;
      capacity = b'.capacity;
      cur = (written buf b' r).cur;
      position = (written buf b' r).position;
      size = (written buf b' r).size;
    };
  }

-- On a valid array write(buf) always succeeds. It keeps the array valid, overwrites the bytes in
-- use from the position on with buf, extending them where buf reaches beyond their end, and moves
-- the position behind buf. Only the nodes, the capacity, m_cur, the position and the size change.
pub write-IsWrite :
    (buf : List ℕ) (b : ByteArray)
    → Valid b
    → (b' : ByteArray) × (write buf b ≡ ok b') × IsWrite buf b b'
unfolding write content
write-IsWrite [] b v = (b, refl, IsWrite-nil b v)
write-IsWrite (x ∷ xs) b v =
    let (extra, g) = add_capacity-IsGrown (length buf) b v in
    let b' = add_capacity (length buf) b in
    let (r, e, w) = loop buf b' g.valid (omega (arith, g.room)) (omega arith) in
    (written buf b' r, rw (not_empty, e) refl, written-IsWrite buf b b' extra v g r w)
  where
    buf : List ℕ
    buf = x ∷ xs

    not_empty : (suc (length xs) == 0) ≡ false
    not_empty = ground arith
