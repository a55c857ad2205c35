-- ===== src/ByteArray/Ahead.antt =====
-- A ByteArray as a stream: what lies ahead of the position is what the next reads return, and a
-- write, with the position set back, puts its bytes ahead.
use c.Prelude.{
  ℕ, ◌+◌, ◌-◌, ◌%◌, ◌^◌, ◌<◌, ◌≡◌, refl, sym, ap, ◌∙◌, Bool, true, false, List, [], ◌∷◌, ◌++◌, ltb,
  if◌then◌else◌, length, take, drop, length-append, length-take, length-drop, arith, Bool-cases,
  inl, inr, ◌==◌, ==_iff,
}
use mathlib.Core.List.{append-nil, append_assoc}
use c.ByteArray.{
  ByteArray, Result, ok, out_of_range, undefined, ◌>>=◌, set_position, read, read_at, slice,
  to_string, get_read_size,
}
use c.ByteArray.Bytes.{drop-append_right, take-append_left, take-append_over, take-all}
use c.ByteArray.Valid.{Valid}
use c.ByteArray.Overwrite.{overwrite, drop-drop}
use c.ByteArray.Content.{content, length-content, IsWrite}
use c.ByteArray.Read.{read_lem, set_position_lem, advanced, moved}

unfoldable pub ahead : ByteArray → List ℕ
ahead b = drop b.position (content b)

pub length-ahead : (b : ByteArray) → Valid b → length (ahead b) ≡ get_read_size b
unfolding ahead
length-ahead b v = omega (arith, length-drop b.position (content b), length-content b v)

-- What a read of `xs` leaves.
pub record IsNext (ys : List ℕ) (b b' : ByteArray) : Type 0 where
  pub valid : Valid b'
  pub left : ahead b' ≡ ys
  pub endian : b'.little_endian ≡ b.little_endian

-- A read of as many bytes as xs, which lie ahead, returns them and leaves the rest ahead.
pub read-ahead :
    (xs ys : List ℕ) (b : ByteArray)
    → Valid b
    → ahead b ≡ xs ++ ys
    → 0 < length xs
    → (b' : ByteArray) × (read (length xs) b ≡ ok (xs, b')) × IsNext ys b b'
unfolding ahead content
read-ahead xs ys b v e pos =
    let total : length xs + length ys + b.position ≡ b.size = omega (
      arith,
      ap length e,
      length-append xs ys,
      length-drop b.position (content b),
      length-content b v,
      pos,
    ) in
    let (k, r, v') =
      read_lem (length xs) b v (omega (arith, total, v.bounded)) (omega (arith, total)) in
    (
      advanced (length xs) b k,
      r ∙ ap (λ (zs : List ℕ). ok (zs, advanced (length xs) b k)) front,
      record { valid = v'; left = back; endian = refl },
    )
  where
    front : slice b.position (length xs) (content b) ≡ xs
    front =
        ap (take (length xs)) e
        ∙ take-append_left (length xs) xs ys (omega arith)
        ∙ take-all (length xs) xs (omega arith)

    back : drop (b.position + length xs) (content b) ≡ ys
    back =
        sym (drop-drop b.position (length xs) (content b))
        ∙ ap (drop (length xs)) e
        ∙ ap (λ (i : ℕ). drop i (xs ++ ys)) {x = length xs} {y = length xs + 0} (omega arith)
        ∙ drop-append_right 0 xs ys

-- Two writes one after the other are one write.
pub IsWrite-append :
    (xs ys : List ℕ) (b b1 b2 : ByteArray)
    → Valid b
    → IsWrite xs b b1
    → IsWrite ys b1 b2
    → IsWrite (xs ++ ys) b b2
unfolding content
IsWrite-append xs ys b b1 b2 v w1 w2 = record {
  valid = w2.valid;
  bytes = w2.bytes ∙ rw (w1.moved, w1.bytes) twice;
  moved = omega (arith, w1.moved, w2.moved, length-append xs ys);
  same = w2.same ∙ (λ i. record (w1.same i) {
    nodes = b2.nodes;
    capacity = b2.capacity;
    cur = b2.cur;
    position = b2.position;
    size = b2.size;
  });
}
  where
    p : ℕ
    p = b.position

    c : List ℕ
    c = content b

    tail : List ℕ
    tail = drop (p + length xs) c

    front : length (take p c) ≡ p
    front = omega (arith, length-take p c, length-content b v, v.within)

    taken : take (p + length xs) (overwrite p xs c) ≡ take p c ++ xs
    taken =
        take-append_over (p + length xs) (take p c) (xs ++ tail) (omega (arith, front))
        ∙ ap (λ (i : ℕ). take p c ++ take i (xs ++ tail)) {y = length xs} (omega (arith, front))
        ∙ ap (◌++◌ (take p c)) (
            take-append_left (length xs) xs tail (omega arith)
            ∙ take-all (length xs) xs (omega arith))

    dropped : drop (p + length xs + length ys) (overwrite p xs c) ≡ drop (p + length (xs ++ ys)) c
    dropped =
        ap (λ (i : ℕ). drop i (overwrite p xs c)) {y = length (take p c) + (length xs + length ys)}
          (omega (arith, front))
        ∙ drop-append_right (length xs + length ys) (take p c) (xs ++ tail)
        ∙ drop-append_right (length ys) xs tail
        ∙ drop-drop (p + length xs) (length ys) c
        ∙ ap (λ (i : ℕ). drop i c) (omega (arith, length-append xs ys))

    twice : overwrite (p + length xs) ys (overwrite p xs c) ≡ overwrite p (xs ++ ys) c
    twice =
        rw (taken, dropped)
          (append_assoc (take p c) xs (ys ++ drop (p + length (xs ++ ys)) c)
            ∙ ap (◌++◌ (take p c)) (sym (append_assoc xs ys (drop (p + length (xs ++ ys)) c))))

-- With the position set back to where a write began, its bytes lie ahead.
pub rewind :
    (buf : List ℕ) (b b1 : ByteArray)
    → Valid b
    → IsWrite buf b b1
    → (b' : ByteArray) × (set_position b.position b1 ≡ ok b')
      × IsNext (buf ++ drop (b.position + length buf) (content b)) b b'
unfolding ahead content
rewind buf b b1 v w =
    let (k, e, v') =
      set_position_lem b.position b1 w.valid
        (omega (arith, w.moved, w.valid.within, w.valid.bounded)) in
    let kept : (if ltb b1.size b.position then b.position else b1.size) ≡ b1.size =
      ground (arith, w.moved, w.valid.within) in
    (
      moved b.position b1 k,
      e,
      record {
        valid = v';
        left = rw (kept, w.bytes) behind;
        endian = ap (λ x. x.little_endian) w.same;
      },
    )
  where
    front : length (take b.position (content b)) + 0 ≡ b.position
    front = omega (arith, length-take b.position (content b), length-content b v, v.within)

    behind :
        drop b.position (overwrite b.position buf (content b))
        ≡ buf ++ drop (b.position + length buf) (content b)
    behind =
        ap (λ (i : ℕ). drop i (overwrite b.position buf (content b))) (sym front)
        ∙ drop-append_right 0 (take b.position (content b))
            (buf ++ drop (b.position + length buf) (content b))

-- The bytes that a read returns.
abbrev pub bytes_of : Result (List ℕ × ByteArray) → Result (List ℕ)
bytes_of m = m >>= λ r. ok r.0

abbrev with_state : (List ℕ × ℕ → ByteArray) → List ℕ × ℕ → Result (List ℕ × ByteArray)
with_state f r = ok (r.0, f r)

bind-twice :
    (c : Bool) (m : Result (List ℕ × ℕ)) (f : List ℕ × ℕ → ByteArray)
    → (if c then out_of_range else (m >>= λ r. ok r.0))
      ≡ bytes_of (if c then out_of_range else (m >>= with_state f))
bind-twice true m f = refl
bind-twice false (ok r) f = refl
bind-twice false out_of_range f = refl
bind-twice false undefined f = refl

-- At the array's own position, read(buf, size, position) returns what read(buf, size) does.
pub read_at-read :
    (n : ℕ) (b : ByteArray)
    → Valid b
    → b.size < 2 ^ 64
    → read_at n b.position b ≡ bytes_of (read n b)
unfolding read_at read
read_at-read n b v fits = rw same (bind-twice (ltb (get_read_size b) n) _ _)
  where
    same : (b.size + 2 ^ 64 - b.position) % 2 ^ 64 ≡ get_read_size b
    same = omega (arith, v.within)

-- On a valid array of less than 2^64 bytes toString() returns what lies ahead of the position, and
-- never fails.
pub to_string-ahead : (b : ByteArray) → Valid b → b.size < 2 ^ 64 → to_string b ≡ ok (ahead b)
unfolding to_string
to_string-ahead b v fits = elim (Bool-cases (get_read_size b == 0)) [
  | inl e ↦ rw e (
      ap ok (
        sym
          (nothing (ahead b) (omega (arith, length-ahead b v, (==_iff (get_read_size b) 0).0 e)))))
  | inr e ↦
      let (b', r, _) =
        read-ahead (ahead b) [] b v (sym (append-nil (ahead b)))
          (ground (arith, length-ahead b v, e)) in
      rw (e, read_at-read (get_read_size b) b v fits)
        (ap (λ (n : ℕ). bytes_of (read n b)) (sym (length-ahead b v)) ∙ rw r refl)
]
  where
    nothing : (xs : List ℕ) → length xs ≡ 0 → xs ≡ []
    nothing [] h = refl
    nothing (x ∷ xs) h = absurd (omega arith)
