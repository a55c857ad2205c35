-- ===== src/ByteArray/Nodes.antt =====
-- The loops over the chain of nodes do what one operation on the whole memory does.
use c.Prelude.{
  ℕ, suc, ◌+◌, ◌-◌, ◌*◌, ◌≤◌, ◌<◌, ◌≡◌, refl, sym, ap, ◌∙◌, List, [], ◌∷◌, ◌++◌, ltb, leb, ◌==◌,
  ==_iff, if◌then◌else◌, length, take, drop, length-append, length-drop, arith, All, Bool-cases,
  inl, inr,
}
use c.ByteArray.{ok, put, slice, write_nodes, read_nodes, seek}
use c.ByteArray.Bytes.{
  concat, length-put, put-append_left, put-append_over, slice-append_left, slice-append_over,
}

-- Every node has the same size.
abbrev pub Uniform : ℕ → List (List ℕ) → Type 0
Uniform base ns = All (λ n. length n ≡ base) ns

pub length-concat :
    (base : ℕ) (ns : List (List ℕ)) → Uniform base ns → length (concat ns) ≡ length ns * base
length-concat base [] u = omega arith
length-concat base (n ∷ ns) (e, u) =
    omega (arith, length-append n (concat ns), length-concat base ns u, e)

-- m_cur moves on by k nodes, to the node of the byte `pos`.
abbrev pub Moves : ℕ → ℕ → ℕ → Type 0
Moves base pos k = (k * base ≤ pos) × (pos < k * base + base)

-- What the write loop does: the bytes are copied over the memory from npos on, no node changes its
-- size, and m_cur moves to the node of the byte after the last one written.
pub record IsWritten (base npos : ℕ) (buf : List ℕ) (ns : List (List ℕ)) (r : List (List ℕ) × ℕ)
    : Type 0 where
  pub bytes : concat r.0 ≡ put (concat ns) npos buf
  pub uniform : Uniform base r.0
  pub count : length r.0 ≡ length ns
  pub moves : Moves base (npos + length buf) r.1

step-IsWritten :
    (base npos : ℕ) (buf n : List ℕ) (ns : List (List ℕ)) (r : List (List ℕ) × ℕ)
    → length n ≡ base
    → npos < base
    → base - npos < length buf
    → IsWritten base 0 (drop (length n - npos) buf) ns r
    → IsWritten base npos buf (n ∷ ns) (put n npos (take (length n - npos) buf) ∷ r.0, r.1 + 1)
step-IsWritten base npos buf n ns r e h over w = record {
  bytes =
      ap (◌++◌ (put n npos (take (length n - npos) buf))) w.bytes
      ∙ sym (put-append_over n (concat ns) npos buf (omega arith));
  uniform = (length-put n npos _ ∙ e, w.uniform);
  count = ap suc w.count;
  moves = omega (arith, w.moves, length-drop (length n - npos) buf);
}

last-IsWritten :
    (base npos : ℕ) (buf n : List ℕ) (ns : List (List ℕ))
    → length n ≡ base
    → Uniform base ns
    → npos < base
    → length buf ≤ base - npos
    → IsWritten base npos buf
        (n ∷ ns)
        (put n npos buf ∷ ns, if length n == npos + length buf then 1 else 0)
last-IsWritten base npos buf n ns e u h fits = record {
  bytes = sym (put-append_left n (concat ns) npos buf (omega arith));
  uniform = (length-put n npos buf ∙ e, u);
  count = refl;
  moves = ground arith;
}

-- The write loop, on nodes with room for the buffer, succeeds.
pub write_nodes_lem :
    (base : ℕ) (ns : List (List ℕ)) (npos : ℕ) (buf : List ℕ)
    → Uniform base ns
    → npos < base
    → 0 < length buf
    → npos + length buf ≤ length (concat ns)
    → (r : List (List ℕ) × ℕ) × (write_nodes ns npos buf ≡ ok r) × IsWritten base npos buf ns r
unfolding write_nodes
write_nodes_lem base [] npos buf u h pos fits = absurd (omega arith)
write_nodes_lem base (n ∷ ns) npos buf (e, u) h pos fits =
    elim (Bool-cases (leb (length buf) (length n - npos))) [
      | inl last ↦ (
        (put n npos buf ∷ ns, if length n == npos + length buf then 1 else 0),
        rw last refl,
        last-IsWritten base npos buf n ns e u h (ground arith),
      )
      | inr more ↦
          let over : base - npos < length buf = ground arith in
          let (r, p, w) =
            write_nodes_lem base ns 0 (drop (length n - npos) buf) u (omega arith)
              (omega (arith, length-drop (length n - npos) buf))
              (omega (arith, length-drop (length n - npos) buf, length-append n (concat ns))) in
          (
            (put n npos (take (length n - npos) buf) ∷ r.0, r.1 + 1),
            rw (more, p) refl,
            step-IsWritten base npos buf n ns r e h over w,
          )
    ]

not-empty : (ns : List (List ℕ)) → 0 < length (concat ns) → 0 < length ns
not-empty [] h = h
not-empty (n ∷ ns) h = omega arith

-- What the read loop does: it returns the bytes from npos on, and m_cur moves to the node of the
-- byte after the last one read.
pub record IsRead (base npos size : ℕ) (ns : List (List ℕ)) (r : List ℕ × ℕ) : Type 0 where
  pub bytes : r.0 ≡ slice npos size (concat ns)
  pub moves : Moves base (npos + size) r.1

step-IsRead :
    (base npos size : ℕ) (n : List ℕ) (ns : List (List ℕ)) (r : List ℕ × ℕ)
    → length n ≡ base
    → npos < base
    → base - npos < size
    → IsRead base 0 (size - (length n - npos)) ns r
    → IsRead base npos size (n ∷ ns) (slice npos (length n - npos) n ++ r.0, r.1 + 1)
step-IsRead base npos size n ns r e h over w = record {
  bytes =
      ap (◌++◌ (slice npos (length n - npos) n)) w.bytes
      ∙ sym (slice-append_over npos size n (concat ns) (omega arith) (omega arith));
  moves = omega (arith, w.moves);
}

last-IsRead :
    (base npos size : ℕ) (n : List ℕ) (ns : List (List ℕ))
    → length n ≡ base
    → npos < base
    → size ≤ base - npos
    → IsRead base npos size (n ∷ ns) (slice npos size n, if length n == npos + size then 1 else 0)
last-IsRead base npos size n ns e h fits = record {
  bytes = sym (slice-append_left npos size n (concat ns) (omega arith));
  moves = ground arith;
}

-- The read loop, on nodes that hold `size` bytes from npos on, succeeds, unless m_cur is null.
pub read_nodes_lem :
    (base : ℕ) (ns : List (List ℕ)) (npos size : ℕ)
    → Uniform base ns
    → npos < base
    → 0 < length ns
    → npos + size ≤ length (concat ns)
    → (r : List ℕ × ℕ) × (read_nodes ns npos size ≡ ok r) × IsRead base npos size ns r
unfolding read_nodes
read_nodes_lem base [] npos size u h some_node fits = absurd (omega arith)
read_nodes_lem base (n ∷ ns) npos size (e, u) h some_node fits = elim (Bool-cases (size == 0)) [
  | inl none_left ↦ (
    ([], 0),
    rw none_left refl,
    record { bytes = rw ((==_iff size 0).0 none_left) refl; moves = ground arith },
  )
  | inr some_left ↦ rw some_left (elim (Bool-cases (leb size (length n - npos))) [
    | inl last ↦ (
      (slice npos size n, if length n == npos + size then 1 else 0),
      rw last refl,
      last-IsRead base npos size n ns e h (ground arith),
    )
    | inr more ↦
        let over : base - npos < size = ground arith in
        let (r, p, w) =
          read_nodes_lem base ns 0 (size - (length n - npos)) u (omega arith)
            (not-empty ns (omega (arith, length-append n (concat ns))))
            (omega (arith, length-append n (concat ns))) in
        (
          (slice npos (length n - npos) n ++ r.0, r.1 + 1),
          rw (more, p) refl,
          step-IsRead base npos size n ns r e h over w,
        )
  ])
]

-- setPosition finds the node of the byte v.
pub seek_lem :
    (base : ℕ) (ns : List (List ℕ)) (v : ℕ)
    → Uniform base ns
    → 0 < base
    → 0 < length ns
    → v ≤ length (concat ns)
    → (k : ℕ) × (seek ns v ≡ ok k) × Moves base v k
unfolding seek
seek_lem base [] v u pos some_node fits = absurd (omega arith)
seek_lem base (n ∷ ns) v (e, u) pos some_node fits = elim (Bool-cases (ltb (length n) v)) [
  | inr here ↦ ((if v == length n then 1 else 0), rw here refl, ground arith)
  | inl further ↦
      let over : base < v = ground arith in
      let (k, p, m) =
        seek_lem base ns (v - length n) u pos
          (not-empty ns (omega (arith, length-append n (concat ns))))
          (omega (arith, length-append n (concat ns))) in
      (k + 1, rw (further, p) refl, omega (arith, m))
]
