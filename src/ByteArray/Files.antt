-- ===== src/ByteArray/Files.antt =====
-- writeToFile and readFromFile. A file to write is the list of its bytes; `opened` tells whether the stream
-- could be opened.
use c.Prelude.{
  ℕ, zero, suc, ◌+◌, ◌-◌, ◌%◌, ◌≤◌, ◌<◌, ◌≡◌, refl, sym, ap, ◌∙◌, Bool, true, false, List, [], ◌∷◌,
  ◌++◌, ltb, Option, none, some, if◌then◌else◌, length, take, drop, length-append, length-take,
  length-drop, arith, Bool-cases, inl, inr, ◌==◌, ==_iff, take-append-drop,
}
use mathlib.Core.Path.{subst}
use mathlib.Core.List.{append-nil}
use native.Mathlib.Nat.{add-mod_right, mod-lt, sub-zero, sub_self}
use c.ByteArray.{ByteArray, Result, ok, out_of_range, undefined, ◌>>=◌, write, slice, get_read_size}
use c.ByteArray.Bytes.{concat, take-append_left, take-append_over, take-all}
use c.ByteArray.Nodes.{Uniform}
use c.ByteArray.Valid.{Valid, memory, Uniform-drop}
use c.ByteArray.Overwrite.{drop-take}
use c.ByteArray.Content.{content, offset, back-length, write-IsWrite, IsWrite}
use c.ByteArray.Ahead.{ahead, IsWrite-append}
use c.ByteArray.Read.{slice-memory}

-- The loop of writeToFile from the node cur on. A negative length, or a step to the null pointer with
-- bytes left, is undefined.
pub file_loop : ℕ → List (List ℕ) → ℕ → ℕ → Result (List ℕ)
file_loop base [] pos read_size = if read_size == 0 then ok [] else undefined
file_loop base (n ∷ ns) pos read_size =
    let diff = pos % base in
    let want = if ltb base read_size then base else read_size in
    let len = want - diff in
    let rest = file_loop base ns (pos + len) (read_size - len) in
    if read_size == 0
    then ok []
    else if ltb want diff
    then undefined
    else (rest >>= λ xs. ok (slice diff len n ++ xs))

-- ByteArray::writeToFile: what the file holds, or none if it could not be opened.
pub write_to_file : Bool → ByteArray → Result (Option (List ℕ))
unfolding file_loop
write_to_file opened b =
    if opened
    then (file_loop b.base_size (drop b.cur b.nodes) b.position (get_read_size b) >>= λ xs.
        ok (some xs))
    else ok none

-- A file to read: its bytes up to its end, or up to a read that fails, as every read of a directory does.
pub record File : Type 0 where
  pub bytes : List ℕ
  pub fails : Bool

-- The rest of a loop after a write.
abbrev after :
    Result ByteArray → (ByteArray → Option (Result ByteArray)) → Option (Result ByteArray)
after (ok b) rest = rest b
after out_of_range rest = some out_of_range
after undefined rest = some undefined

-- The loop of readFromFile: `while(!ifs.eof())`, where eof is set by a read that gets fewer bytes than
-- it asked for. A read that fails gets none, sets badbit and not eof, and so does each one after it. None is
-- out of rounds.
pub load_loop : ℕ → File → ByteArray → Option (Result ByteArray)
load_loop zero file b = none
load_loop (suc fuel) file b =
    if ltb (length (take b.base_size file.bytes)) b.base_size
    then (if file.fails
        then after (write [] b) (load_loop fuel file)
        else some (write file.bytes b))
    else after (write (take b.base_size file.bytes) b)
        (load_loop fuel (record file { bytes = drop b.base_size file.bytes }))

-- ByteArray::readFromFile, with a number of rounds: false if the file could not be opened.
pub read_from_file : ℕ → Option File → ByteArray → Option (Result (ByteArray × Bool))
unfolding load_loop
read_from_file n none b = some (ok (b, false))
read_from_file n (some file) b = elim (load_loop n file b) [
  | none ↦ none
  | some r ↦ some (r >>= λ b'. ok (b', true))
]

file_loop-zero : (base : ℕ) (ns : List (List ℕ)) (pos : ℕ) → file_loop base ns pos 0 ≡ ok []
unfolding file_loop
file_loop-zero base [] pos = refl
file_loop-zero base (n ∷ ns) pos = refl

file_loop-aligned :
    (base : ℕ) (ns : List (List ℕ)) (pos read_size : ℕ)
    → 0 < base
    → Uniform base ns
    → pos % base ≡ 0
    → read_size ≤ length (concat ns)
    → file_loop base ns pos read_size ≡ ok (take read_size (concat ns))
unfolding file_loop
file_loop-aligned base [] pos zero h u a fits = refl
file_loop-aligned base [] pos (suc n) h u a fits = absurd (omega arith)
file_loop-aligned base (n ∷ ns) pos read_size h (e, u) a fits =
    rw (a, sub-zero (if ltb base read_size then base else read_size))
      (elim (Bool-cases (ltb base read_size)) [
        | inl more ↦
            rw
              (
                more,
                nonzero more,
                no_less base,
                file_loop-aligned base ns (pos + base) (read_size - base) h u
                    (add-mod_right pos base ∙ a) (omega (arith, length-append n (concat ns))),
              )
              (ap ok (whole more))
        | inr last ↦ rw last (elim (Bool-cases (read_size == 0)) [
          | inl z ↦ rw (z, (==_iff read_size 0).0 z) refl
          | inr nz ↦
              rw
                (
                  nz,
                  no_less read_size,
                  sub_self read_size,
                  file_loop-zero base ns (pos + read_size),
                )
                (ap ok (part last))
        ])
      ])
  where
    nonzero : ltb base read_size ≡ true → (read_size == 0) ≡ false
    nonzero m = ground (arith, m)

    no_less : (k : ℕ) → ltb k 0 ≡ false
    no_less k = ground arith

    whole :
        ltb base read_size ≡ true
        → take base n ++ take (read_size - base) (concat ns) ≡ take read_size (n ++ concat ns)
    whole m =
        ap (λ (xs : List ℕ). xs ++ take (read_size - base) (concat ns))
          (take-all base n (omega arith))
        ∙ ap (λ (k : ℕ). n ++ take (read_size - k) (concat ns)) (sym e)
        ∙ sym (take-append_over read_size n (concat ns) (ground (arith, m, e)))

    part : ltb base read_size ≡ false → take read_size n ++ [] ≡ take read_size (n ++ concat ns)
    part l =
        append-nil (take read_size n)
        ∙ sym (take-append_left read_size n (concat ns) (ground (arith, l, e)))

-- On a valid array, from a position at the start of a block, writeToFile puts into the file what
-- lies ahead.
pub write_to_file-ahead :
    (b : ByteArray)
    → Valid b
    → b.position % b.base_size ≡ 0
    → write_to_file true b ≡ ok (some (ahead b))
unfolding write_to_file ahead content
write_to_file-ahead b v a =
    rw
      (file_loop-aligned b.base_size (drop b.cur b.nodes) b.position (get_read_size b) v.block
        (Uniform-drop b.base_size b.cur b.nodes v.uniform) a
        (omega (arith, back-length b v, offset b v, a, v.bounded)))
      (ap (λ (xs : List ℕ). ok (some xs))
        (ap (λ (i : ℕ). slice i (get_read_size b) (concat (drop b.cur b.nodes))) (sym a)
          ∙ slice-memory (get_read_size b) b v
          ∙ sym (drop-take b.position b.size (memory b))))

-- On a valid array, from inside a block, with bytes left but fewer than the position lies into the
-- block, writeToFile computes a negative length for ofs.write.
pub write_to_file-undefined :
    (b : ByteArray)
    → Valid b
    → 0 < get_read_size b
    → get_read_size b < b.position % b.base_size
    → write_to_file true b ≡ undefined
unfolding write_to_file file_loop
write_to_file-undefined b v some_left short = rw (start (drop b.cur b.nodes)) refl
  where
    below : b.position % b.base_size < b.base_size
    below = mod-lt b.position v.block

    start : (ns : List (List ℕ)) → file_loop b.base_size ns b.position (get_read_size b) ≡ undefined
    start [] = ground arith
    start (n ∷ ns) = ground (arith, below)

load_loop-IsWrite :
    (fuel : ℕ) (file : List ℕ) (b : ByteArray)
    → Valid b
    → length file < fuel
    → (b' : ByteArray) × (load_loop fuel (record { bytes = file; fails = false }) b ≡ some (ok b'))
      × IsWrite file b b'
unfolding load_loop
load_loop-IsWrite zero file b v h = absurd (omega arith)
load_loop-IsWrite (suc fuel) file b v h =
    elim (Bool-cases (ltb (length (take b.base_size file)) b.base_size)) [
      | inl short ↦ let (b1, e1, w1) = write-IsWrite file b v in (b1, rw (short, e1) refl, w1)
      | inr full ↦
          let (b1, e1, w1) = write-IsWrite (take b.base_size file) b v in
          let same : b1.base_size ≡ b.base_size = ap (λ x. x.base_size) w1.same in
          let (b2, e2, w2) = load_loop-IsWrite fuel (drop b.base_size file) b1 w1.valid (
            ground
              (arith, full, v.block, length-take b.base_size file, length-drop b.base_size file)) in
          (
            b2,
            rw (full, e1) e2,
            subst (λ xs. IsWrite xs b b2) (take-append-drop b.base_size file)
                (IsWrite-append (take b.base_size file) (drop b.base_size file) b b1 b2 v w1 w2),
          )
    ]

load_loop-none :
    (n : ℕ) (file : List ℕ) (b : ByteArray)
    → Valid b
    → load_loop n (record { bytes = file; fails = true }) b ≡ none
unfolding load_loop
load_loop-none zero file b v = refl
load_loop-none (suc n) file b v =
    elim (Bool-cases (ltb (length (take b.base_size file)) b.base_size)) [
      | inl short ↦
          let (b1, e1, w1) = write-IsWrite [] b v in
          rw (short, e1) (load_loop-none n file b1 w1.valid)
      | inr full ↦
          let (b1, e1, w1) = write-IsWrite (take b.base_size file) b v in
          rw (full, e1) (load_loop-none n (drop b.base_size file) b1 w1.valid)
    ]

-- On a valid array readFromFile of a file that can be opened, and of which no read fails, ends, in at
-- most one round more than it has bytes, returns true, and writes the whole file at the position, as
-- one write would. When a read fails, it never ends.
pub read_from_file-IsWrite :
    (file : List ℕ) (b : ByteArray)
    → Valid b
    → ((b' : ByteArray) × (read_from_file
            (suc (length file))
            (some (record { bytes = file; fails = false }))
            b
          ≡ some (ok (b', true)))
        × IsWrite file b b')
      × ((n : ℕ) → read_from_file n (some (record { bytes = file; fails = true })) b ≡ none)
unfolding read_from_file
read_from_file-IsWrite file b v =
    let (b', e, w) = load_loop-IsWrite (suc (length file)) file b v (omega arith) in
    (
      (b', rw (read_from_file, e) refl, w),
      (λ n. rw (read_from_file, load_loop-none n file b v) refl),
    )
