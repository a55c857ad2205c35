-- ===== src/Stream/ReadFix.antt =====
-- readFixSize reads all bytes, or stops at the first error.

use c.Prelude.{
  ℕ, zero, suc, ◌-◌, ◌%◌, ◌^◌, ◌≤◌, ◌<◌, ◌≡◌, ◌⊎◌, inl, inr, refl, true, List, [], ◌++◌, none, some,
  ltb, length, length-append, arith,
}
use c.Prelude.Int.{ℤ, signed}
use c.Stream.{Got, got, no_bytes, IsError, IsGot, Stream, read_loop, read_fix_size}

module _ {ℓ} {S : Type ℓ} (T : Stream S) where
  -- Reads one after the other, and all that they give.
  pub data Reads : S → List ℕ → S → Type ℓ where
    nothing : {s : S} → Reads s [] s
    more :
        {s t u : S} {xs ys : List ℕ} (n : ℕ)
        → T.read n s ≡ (got xs, t)
        → Reads t ys u
        → Reads s (xs ++ ys) u

  -- All of `left` bytes were read, or a read failed behind fewer.
  abbrev pub IsReadFixed : ℕ → ℤ → S → ℤ × List ℕ × S → Type ℓ
  IsReadFixed left done s (rt, xs, u) =
      ((rt ≡ done) × (length xs ≡ left) × Reads s xs u)
      ⊎ (IsError rt
          × (length xs < left)
          × (t : S) × Reads s xs t
          × (n : ℕ) × (T.read n t ≡ (no_bytes rt, u)))

  read_loop-suc :
      (n left : ℕ) (done : ℤ) (s : S)
      → read_loop T (suc n) (suc left) done s ≡ elim (T.read (suc left) s).0 [
        | no_bytes code ↦ some (code, [], (T.read (suc left) s).1)
        | got xs ↦ elim (read_loop T n (suc left - length xs) done (T.read (suc left) s).1) [
          | none ↦ none
          | some (rt, ys, t) ↦ some (rt, xs ++ ys, t)
        ]
      ]
  unfolding read_loop
  read_loop-suc n left done s = refl

  -- A round, for what its read gives.
  read_round :
      (n left : ℕ) (done : ℤ) (s : S) (r : Got × S)
      → T.read (suc left) s ≡ r
      → IsGot (suc left) r.0
      → ((left' : ℕ) (t : S)
          → left' ≤ n
          → (q : ℤ × List ℕ × S) × (read_loop T n left' done t ≡ some q)
            × IsReadFixed left' done t q)
      → left ≤ n
      → (q : ℤ × List ℕ × S) × (read_loop T (suc n) (suc left) done s ≡ some q)
        × IsReadFixed (suc left) done s q
  read_round n left done s (no_bytes code, t) e g ih h = (
    (code, [], t),
    rw (read_loop-suc n left done s, e, e) refl,
    inr (g, omega arith, s, nothing, suc left, e),
  )
  read_round n left done s (got xs, t) e (some_bytes, few) ih h =
      let (q, eq, f) = ih (suc left - length xs) t (omega arith) in joined q eq f
    where
      joined :
          (q : ℤ × List ℕ × S)
          → read_loop T n (suc left - length xs) done t ≡ some q
          → IsReadFixed (suc left - length xs) done t q
          → (q' : ℤ × List ℕ × S) × (read_loop T (suc n) (suc left) done s ≡ some q')
            × IsReadFixed (suc left) done s q'
      joined (rt, ys, u) eq (inl (d, all, rs)) = (
        (rt, xs ++ ys, u),
        rw (read_loop-suc n left done s, e, e, eq) refl,
        inl (d, omega (arith, all, length-append xs ys), more (suc left) e rs),
      )
      joined (rt, ys, u) eq (inr (code, part, t', rs, m, stop)) = (
        (rt, xs ++ ys, u),
        rw (read_loop-suc n left done s, e, e, eq) refl,
        inr (code, omega (arith, part, length-append xs ys), t', more (suc left) e rs, m, stop),
      )

  read_loop_lem :
      (n left : ℕ) (done : ℤ) (s : S)
      → left ≤ n
      → (q : ℤ × List ℕ × S) × (read_loop T n left done s ≡ some q) × IsReadFixed left done s q
  unfolding read_loop
  read_loop_lem n zero done s h = ((done, [], s), refl, inl (refl, refl, nothing))
  read_loop_lem zero (suc left) done s h = absurd (omega arith)
  read_loop_lem (suc n) (suc left) done s h =
      read_round n left done s (T.read (suc left) s) refl (T.reads (suc left) s (omega arith))
        (λ left' t h'. read_loop_lem n left' done t h') (omega arith)

  -- readFixSize of any stream, for less than 2^63 bytes, ends: either it returns their number as an int, and
  -- has put so many bytes into the buffer, which reads of the stream gave one after the other; or it
  -- returns the code, 0 or below, of the first read that gave none, behind reads that gave fewer.
  pub read_fix_size_lem :
      (n : ℕ) (s : S)
      → n < 2 ^ 63
      → (q : ℤ × List ℕ × S) × (read_fix_size T n s ≡ some q)
        × IsReadFixed n (signed 32 (n % 2 ^ 32)) s q
  unfolding read_fix_size
  read_fix_size_lem n s h =
      let (q, e, f) = read_loop_lem n n (signed 32 (n % 2 ^ 32)) s (omega arith) in
      (q, rw (small, e) refl, f)
    where
      small : ltb n (2 ^ 63) ≡ true
      small = ground arith
