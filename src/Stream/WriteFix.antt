-- ===== src/Stream/WriteFix.antt =====
-- writeFixSize writes all bytes, or stops at the first error.
use mathlib.Core.List.{append_assoc}
use mathlib.Core.Path.{subst}
use c.Prelude.{
  ℕ, zero, suc, ◌%◌, ◌^◌, ◌≤◌, ◌<◌, ◌≡◌, ◌⊎◌, inl, inr, refl, sym, ap, ◌∙◌, true, List, [], ◌∷◌,
  ◌++◌, some, ltb, length, take, drop, length-drop, take-append-drop, arith,
}
use c.Prelude.Int.{ℤ, signed}
use c.Stream.{Put, took, no_room, IsError, IsPut, Stream, write_loop, write_fix_size}

module _ {ℓ} {S : Type ℓ} (T : Stream S) where
  -- Writes one after the other, and all that they take.
  pub data Writes : S → List ℕ → S → Type ℓ where
    nothing_more : {s : S} → Writes s [] s
    and_more :
        {s t u : S} {ys : List ℕ} (buf : List ℕ) (k : ℕ)
        → T.write buf s ≡ (took k, t)
        → Writes t ys u
        → Writes s (take k buf ++ ys) u

  write_loop-suc :
      (n x : ℕ) (xs : List ℕ) (done : ℤ) (s : S)
      → write_loop T (suc n) (x ∷ xs) done s ≡ elim (T.write (x ∷ xs) s).0 [
        | no_room code ↦ some (code, (T.write (x ∷ xs) s).1)
        | took k ↦ write_loop T n (drop k (x ∷ xs)) done (T.write (x ∷ xs) s).1
      ]
  unfolding write_loop
  write_loop-suc n x xs done s = refl

  -- All of xs were written, or a write failed behind a part.
  abbrev pub IsWriteFixed : List ℕ → ℤ → S → ℤ × S → Type ℓ
  IsWriteFixed xs done s (rt, u) =
      ((rt ≡ done) × Writes s xs u)
      ⊎ (IsError rt
          × (t : S) × (ys : List ℕ) × (zs : List ℕ) × (xs ≡ ys ++ zs)
          × (0 < length zs)
          × Writes s ys t
          × (T.write zs t ≡ (no_room rt, u)))

  write_round :
      (n : ℕ) (xs : List ℕ) (done : ℤ) (s : S) (r : Put × S)
      → 0 < length xs
      → T.write xs s ≡ r
      → IsPut (length xs) r.0
      → ((ys : List ℕ) (t : S)
          → length ys ≤ n
          → (q : ℤ × S) × (write_loop T n ys done t ≡ some q) × IsWriteFixed ys done t q)
      → length xs ≤ suc n
      → (q : ℤ × S) × (write_loop T (suc n) xs done s ≡ some q) × IsWriteFixed xs done s q
  write_round n [] done s r some_left e g ih h = absurd (omega arith)
  write_round n (x ∷ xs) done s (no_room code, t) some_left e g ih h = (
    (code, t),
    rw (write_loop-suc n x xs done s, e, e) refl,
    inr (g, s, [], x ∷ xs, refl, some_left, nothing_more, e),
  )
  write_round n (x ∷ xs) done s (took k, t) some_left e (some_bytes, few) ih h =
      let (q, eq, f) = ih rest t (omega (arith, length-drop k (x ∷ xs))) in joined q eq f
    where
      rest : List ℕ
      rest = drop k (x ∷ xs)

      joined :
          (q : ℤ × S)
          → write_loop T n rest done t ≡ some q
          → IsWriteFixed rest done t q
          → (q' : ℤ × S) × (write_loop T (suc n) (x ∷ xs) done s ≡ some q')
            × IsWriteFixed (x ∷ xs) done s q'
      joined (rt, u) eq (inl (d, ws)) = (
        (rt, u),
        rw (write_loop-suc n x xs done s, e, e, eq) refl,
        inl (d, subst (λ l. Writes s l u) (take-append-drop k (x ∷ xs)) (and_more (x ∷ xs) k e ws)),
      )
      joined (rt, u) eq (inr (code, t', ys, zs, cut, left, ws, stop)) = (
        (rt, u),
        rw (write_loop-suc n x xs done s, e, e, eq) refl,
        inr (
          code,
          t',
          take k (x ∷ xs) ++ ys,
          zs,
          sym (take-append-drop k (x ∷ xs))
              ∙ ap (λ (l : List ℕ). take k (x ∷ xs) ++ l) cut
              ∙ sym (append_assoc (take k (x ∷ xs)) ys zs),
          left,
          and_more (x ∷ xs) k e ws,
          stop,
        ),
      )

  write_loop_lem :
      (n : ℕ) (xs : List ℕ) (done : ℤ) (s : S)
      → length xs ≤ n
      → (q : ℤ × S) × (write_loop T n xs done s ≡ some q) × IsWriteFixed xs done s q
  unfolding write_loop
  write_loop_lem n [] done s h = ((done, s), refl, inl (refl, nothing_more))
  write_loop_lem zero (x ∷ xs) done s h = absurd (omega arith)
  write_loop_lem (suc n) (x ∷ xs) done s h =
      write_round n (x ∷ xs) done s (T.write (x ∷ xs) s) (omega arith) refl
        (T.writes (x ∷ xs) s (omega arith)) (λ ys t h'. write_loop_lem n ys done t h') h

  -- writeFixSize of less than 2^63 bytes to any stream ends: either it returns their number as an int, and
  -- writes of the stream have taken all of them one after the other, in order; or it returns the code, 0
  -- or below, of the first write that took none, behind writes that took the bytes before.
  pub write_fix_size_lem :
      (xs : List ℕ) (s : S)
      → length xs < 2 ^ 63
      → (q : ℤ × S) × (write_fix_size T xs s ≡ some q)
        × IsWriteFixed xs (signed 32 (length xs % 2 ^ 32)) s q
  unfolding write_fix_size
  write_fix_size_lem xs s h =
      let (q, e, f) =
        write_loop_lem (length xs) xs (signed 32 (length xs % 2 ^ 32)) s (omega arith) in
      (q, rw (small, e) refl, f)
    where
      small : ltb (length xs) (2 ^ 63) ≡ true
      small = ground arith
