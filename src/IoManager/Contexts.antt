-- ===== src/IoManager/Contexts.antt =====
-- The vector m_fdContexts: what stands at an index, and how many events are registered.
use c.Prelude.{
  ℕ, zero, suc, ◌+◌, ◌≡◌, refl, sym, ap, ◌∙◌, ◌<◌, Bool, false, List, [], ◌∷◌, ◌++◌, ◌==◌,
  if◌then◌else◌, length, replicate, arith, All,
}
use c.IoManager.{done, Events, FdContext, new_context, context_at, put_context}

abbrev pub bit : Bool → ℕ
bit b = if b then 1 else 0

abbrev pub bits : Events → ℕ
bits es = bit es.read + bit es.write

unfoldable pub count : List FdContext → ℕ
count [] = 0
count (c ∷ cs) = bits c.events + count cs

-- The context of an fd; there is none yet beyond the end of the vector.
unfoldable pub context_of : ℕ → List FdContext → FdContext
context_of fd [] = new_context
context_of zero (c ∷ cs) = c
context_of (suc fd) (c ∷ cs) = context_of fd cs

pub context_at-context_of :
    (fd : ℕ) (cs : List FdContext) → fd < length cs → context_at fd cs ≡ done (context_of fd cs)
unfolding context_at context_of
context_at-context_of fd [] h = absurd (omega arith)
context_at-context_of zero (c ∷ cs) h = refl
context_at-context_of (suc fd) (c ∷ cs) h = context_at-context_of fd cs (omega arith)

pub length-put_context :
    (fd : ℕ) (c' : FdContext) (cs : List FdContext) → length (put_context fd c' cs) ≡ length cs
unfolding put_context
length-put_context fd c' [] = refl
length-put_context zero c' (c ∷ cs) = refl
length-put_context (suc fd) c' (c ∷ cs) = ap suc (length-put_context fd c' cs)

pub count-put_context :
    (fd : ℕ) (c' : FdContext) (cs : List FdContext)
    → fd < length cs
    → count (put_context fd c' cs) + bits (context_of fd cs).events ≡ count cs + bits c'.events
unfolding put_context count context_of
count-put_context fd c' [] h = absurd (omega arith)
count-put_context zero c' (c ∷ cs) h = omega arith
count-put_context (suc fd) c' (c ∷ cs) h = omega (arith, count-put_context fd c' cs (omega arith))

pub context_of-put_context :
    (q fd : ℕ) (c' : FdContext) (cs : List FdContext)
    → fd < length cs
    → context_of q (put_context fd c' cs) ≡ (if q == fd then c' else context_of q cs)
unfolding put_context context_of
context_of-put_context q fd c' [] h = absurd (omega arith)
context_of-put_context zero zero c' (c ∷ cs) h = refl
context_of-put_context (suc q) zero c' (c ∷ cs) h = rw (above q) refl
  where
    above : (a : ℕ) → (suc a == 0) ≡ false
    above a = ground arith
context_of-put_context zero (suc fd) c' (c ∷ cs) h = rw (differ fd) refl
  where
    differ : (a : ℕ) → (0 == suc a) ≡ false
    differ a = ground arith
context_of-put_context (suc q) (suc fd) c' (c ∷ cs) h =
    context_of-put_context q fd c' cs (omega arith)
    ∙ ap (λ t. if t then c' else context_of q cs) (sym (same q fd))
  where
    same : (a b : ℕ) → (suc a == suc b) ≡ (a == b)
    same a b = ground arith

module _ {ℓ} (P : FdContext → Type ℓ) where
  pub All-put_context :
      (fd : ℕ) (c' : FdContext) (cs : List FdContext)
      → P c'
      → All P cs
      → All P (put_context fd c' cs)
  unfolding put_context
  All-put_context fd c' [] p a = a
  All-put_context zero c' (c ∷ cs) p a = (p, a.1)
  All-put_context (suc fd) c' (c ∷ cs) p a = (a.0, All-put_context fd c' cs p a.1)

  pub All-context_of :
      (fd : ℕ) (cs : List FdContext) → P new_context → All P cs → P (context_of fd cs)
  unfolding context_of
  All-context_of fd [] p a = p
  All-context_of zero (c ∷ cs) p a = a.0
  All-context_of (suc fd) (c ∷ cs) p a = All-context_of fd cs p a.1

  pub All-grow :
      (k : ℕ) (cs : List FdContext)
      → P new_context
      → All P cs
      → All P (cs ++ replicate k new_context)
  All-grow zero [] p a = tt
  All-grow (suc k) [] p a = (p, All-grow k [] p tt)
  All-grow k (c ∷ cs) p a = (a.0, All-grow k cs p a.1)

pub count-grow : (k : ℕ) (cs : List FdContext) → count (cs ++ replicate k new_context) ≡ count cs
unfolding count
count-grow zero [] = refl
count-grow (suc k) [] = omega (arith, count-grow k [])
count-grow k (c ∷ cs) = ap (◌+◌ (bits c.events)) (count-grow k cs)

pub context_of-grow :
    (q k : ℕ) (cs : List FdContext) → context_of q (cs ++ replicate k new_context) ≡ context_of q cs
unfolding context_of
context_of-grow q zero [] = refl
context_of-grow zero (suc k) [] = refl
context_of-grow (suc q) (suc k) [] = context_of-grow q k []
context_of-grow zero k (c ∷ cs) = refl
context_of-grow (suc q) k (c ∷ cs) = context_of-grow q k cs
