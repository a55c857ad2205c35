-- ===== src/ByteArray/Buffers.antt =====
-- getReadBuffers and getWriteBuffers: the pieces of the nodes that hold a range of bytes.
use c.Prelude.{
  ℕ, zero, suc, ◌+◌, ◌-◌, ◌/◌, ◌%◌, ◌≤◌, ◌<◌, ◌≡◌, refl, sym, ap, ◌∙◌, false, List, [], ◌∷◌, ◌++◌,
  ltb, leb, if◌then◌else◌, length, drop, length-append, arith, Bool-cases, inl, inr, ◌==◌, ==_iff,
  get_or,
}
use mathlib.Core.List.{append-nil}
use native.Mathlib.Nat.{mod-lt, suc-add}
use c.ByteArray.{ByteArray, Result, ok, undefined, ◌>>=◌, slice, get_read_size, add_capacity}
use c.ByteArray.Bytes.{concat, take-append_left, slice-append_left, slice-append_over}
use c.ByteArray.Nodes.{Uniform}
use c.ByteArray.Valid.{Valid, memory, length-memory, Uniform-drop, IsGrown, add_capacity-IsGrown}
use c.ByteArray.Overwrite.{slice-take}
use c.ByteArray.Content.{content, offset, back-length}
use c.ByteArray.Read.{slice-memory}

-- struct iovec: iov_base is a place in a node.
pub record Iovec : Type 0 where
  pub node : ℕ
  pub iov_base : ℕ
  pub iov_len : ℕ

-- The loop of all three functions, from the node cur on.
unfoldable pub iov_loop : List (List ℕ) → ℕ → ℕ → ℕ → Result (List Iovec)
iov_loop [] cur npos len = undefined
iov_loop (n ∷ ns) cur npos len =
    let ncap = length n - npos in
    let iov = λ (k : ℕ). let r : Iovec = record { node = cur; iov_base = npos; iov_len = k } in r in
    let rest = iov_loop ns (cur + 1) 0 (len - ncap) in
    if leb len ncap then ok (iov len ∷ []) else (rest >>= λ v. ok (iov ncap ∷ v))

abbrev pub clipped : ℕ → ByteArray → ℕ
clipped len b = if ltb (get_read_size b) len then get_read_size b else len

-- getReadBuffers(buffers, len) const: what is appended to buffers, and the length.
pub get_read_buffers : ℕ → ByteArray → Result (List Iovec × ℕ)
unfolding iov_loop
get_read_buffers len b =
    if clipped len b == 0
    then ok ([], 0)
    else (iov_loop (drop b.cur b.nodes) b.cur (b.position % b.base_size) (clipped len b) >>= λ v.
        ok (v, clipped len b))

-- getReadBuffers(buffers, len, position) const
pub get_read_buffers_at : ℕ → ℕ → ByteArray → Result (List Iovec × ℕ)
unfolding iov_loop
get_read_buffers_at len position b =
    if clipped len b == 0
    then ok ([], 0)
    else (iov_loop (drop (position / b.base_size) b.nodes) (position / b.base_size)
          (position % b.base_size) (clipped len b)
        >>= λ v. ok (v, clipped len b))

-- getWriteBuffers(buffers, len)
pub get_write_buffers : ℕ → ByteArray → Result (ByteArray × List Iovec × ℕ)
unfolding iov_loop
get_write_buffers len b =
    if len == 0
    then ok (b, [], 0)
    else (let b' = add_capacity len b in
        iov_loop (drop b'.cur b'.nodes) b'.cur (b'.position % b'.base_size) len >>= λ v.
        ok (b', v, len))

-- The bytes that the pieces cover, in a chain of nodes.
pub gather : List Iovec → List (List ℕ) → List ℕ
gather [] nodes = []
gather (v ∷ vs) nodes = slice v.iov_base v.iov_len (get_or nodes v.node []) ++ gather vs nodes

head-drop :
    (k : ℕ) (xs : List (List ℕ)) (n : List ℕ) (ns : List (List ℕ))
    → drop k xs ≡ n ∷ ns
    → get_or xs k [] ≡ n
head-drop zero [] n ns e = cc
head-drop zero (x ∷ xs) n ns e = cc
head-drop (suc k) [] n ns e = cc
head-drop (suc k) (x ∷ xs) n ns e = head-drop k xs n ns e

tail-drop :
    (k : ℕ) (xs : List (List ℕ)) (n : List ℕ) (ns : List (List ℕ))
    → drop k xs ≡ n ∷ ns
    → drop (k + 1) xs ≡ ns
tail-drop zero [] n ns e = absurd (cc)
tail-drop zero (x ∷ xs) n ns e = cc
tail-drop (suc k) [] n ns e = absurd (cc)
tail-drop (suc k) (x ∷ xs) n ns e = rw (suc-add k 1) (tail-drop k xs n ns e)

module _ (nodes : List (List ℕ)) where
  iov_loop-gather :
      (ns : List (List ℕ)) (cur npos len : ℕ)
      → drop cur nodes ≡ ns
      → npos + len ≤ length (concat ns)
      → 0 < len
      → ((n : List ℕ) (ms : List (List ℕ)) → ns ≡ n ∷ ms → npos ≤ length n)
      → (v : List Iovec) × (iov_loop ns cur npos len ≡ ok v)
        × (gather v nodes ≡ slice npos len (concat ns))
  unfolding iov_loop gather
  iov_loop-gather [] cur npos len e fits some_len inside = absurd (omega arith)
  iov_loop-gather (n ∷ ns) cur npos len e fits some_len inside =
      elim (Bool-cases (leb len (length n - npos))) [
        | inl last ↦ (
          record { node = cur; iov_base = npos; iov_len = len } ∷ [],
          rw last refl,
          rw (append-nil (slice npos len (get_or nodes cur [])), head-drop cur nodes n ns e)
              (sym (
                slice-append_left npos len n (concat ns) (ground (arith, last, inside n ns refl)))),
        )
        | inr more ↦
            let small : npos ≤ length n = inside n ns refl in
            let over : length n < npos + len = ground (arith, more, small) in
            let (v, r, g) =
              iov_loop-gather ns (cur + 1) 0 (len - (length n - npos)) (tail-drop cur nodes n ns e)
                (omega (arith, length-append n (concat ns), small, over))
                (omega (arith, small, over)) (λ m ms q. omega arith) in
            (
              record { node = cur; iov_base = npos; iov_len = length n - npos } ∷ v,
              rw (more, r) refl,
              rw (g, head-drop cur nodes n ns e)
                  (sym (slice-append_over npos len n (concat ns) small (omega (arith, over)))),
            )
      ]

pub inside_block :
    (base npos : ℕ) (ns : List (List ℕ))
    → Uniform base ns
    → npos < base
    → (n : List ℕ) (ms : List (List ℕ)) → ns ≡ n ∷ ms
    → npos ≤ length n
inside_block base npos [] u h n ms e = absurd (cc)
inside_block base npos (x ∷ xs) (ux, u) h n ms e = omega (arith, ux, ap length (heads e))
  where
    heads : (x ∷ xs) ≡ n ∷ ms → x ≡ n
    heads q = cc

-- On a valid array getReadBuffers returns pieces of at most `len` bytes, of all if there are so
-- few left, and they cover exactly the next bytes in use.
pub get_read_buffers-gather :
    (len : ℕ) (b : ByteArray)
    → Valid b
    → (v : List Iovec) × (get_read_buffers len b ≡ ok (v, clipped len b))
      × (gather v b.nodes ≡ slice b.position (clipped len b) (content b))
unfolding get_read_buffers gather
get_read_buffers-gather len b v = elim (Bool-cases (clipped len b == 0)) [
  | inl z ↦
      ([], rw (z, (==_iff (clipped len b) 0).0 z) refl, rw ((==_iff (clipped len b) 0).0 z) refl)
  | inr nz ↦
      let room : b.position + clipped len b ≤ b.size = ground (arith, v.within) in
      let (vs, r, g) =
        iov_loop-gather b.nodes (drop b.cur b.nodes) b.cur (b.position % b.base_size)
          (clipped len b) refl (omega (arith, offset b v, back-length b v, room, v.bounded))
          (ground (arith, nz))
          (inside_block b.base_size (b.position % b.base_size) (drop b.cur b.nodes)
            (Uniform-drop b.base_size b.cur b.nodes v.uniform) (mod-lt b.position v.block)) in
      (
        vs,
        rw (nz, r) refl,
        g
            ∙ slice-memory (clipped len b) b v
            ∙ sym (unfold content in slice-take b.position (clipped len b) b.size (memory b) room),
      )
]

-- On a valid array, and for a length that is not 0, getWriteBuffers makes room and returns pieces
-- that cover exactly the `len` bytes of memory from the position on; the bytes in use and the
-- position stay.
pub get_write_buffers-gather :
    (len : ℕ) (b : ByteArray)
    → Valid b
    → 0 < len
    → (b' : ByteArray) × (v : List Iovec) × (get_write_buffers len b ≡ ok (b', v, len))
      × Valid b'
      × (gather v b'.nodes ≡ slice b'.position len (memory b'))
      × (content b' ≡ content b)
      × (b'.position ≡ b.position)
unfolding get_write_buffers gather
get_write_buffers-gather len b v some_len =
    let (extra, g) = add_capacity-IsGrown len b v in
    let b' = add_capacity len b in
    let v' = g.valid in
    let (vs, r, e) =
      iov_loop-gather b'.nodes (drop b'.cur b'.nodes) b'.cur (b'.position % b'.base_size) len refl
        (omega (arith, offset b' v', back-length b' v', g.room)) some_len
        (inside_block b'.base_size (b'.position % b'.base_size) (drop b'.cur b'.nodes)
          (Uniform-drop b'.base_size b'.cur b'.nodes v'.uniform) (mod-lt b'.position v'.block)) in
    (
      b',
      vs,
      rw (nonzero, r) refl,
      v',
      e ∙ slice-memory len b' v',
      same extra g,
      ap (λ x. x.position) g.same,
    )
  where
    nonzero : (len == 0) ≡ false
    nonzero = ground arith

    same :
        (extra : List ℕ)
        → IsGrown len b (add_capacity len b) extra
        → content (add_capacity len b) ≡ content b
    same extra g =
        unfold content in
        rw (g.kept, ap (λ x. x.size) g.same)
          (take-append_left b.size (memory b) extra (omega (arith, length-memory b v, v.bounded)))

-- What getWriteBuffers returns, if its loop ends.
pub get_write_buffers-loop :
    (len : ℕ) (b : ByteArray) (v : List Iovec)
    → 0 < len
    → (let b' = add_capacity len b in
        iov_loop (drop b'.cur b'.nodes) b'.cur (b'.position % b'.base_size) len ≡ ok v)
    → get_write_buffers len b ≡ ok (add_capacity len b, v, len)
unfolding get_write_buffers
get_write_buffers-loop len b v some_len e = rw (nonzero, e) refl
  where
    nonzero : (len == 0) ≡ false
    nonzero = ground arith
