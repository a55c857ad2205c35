-- ===== src/Connection/Pool/Loans.antt =====
-- The connections of a pool that are lent, and what a pool promises about them all.
use c.Prelude.{
  ℕ, suc, ◌+◌, ◌%◌, ◌^◌, ◌≤◌, ◌≡◌, refl, ap, ◌∙◌, Bool, List, [], ◌∷◌, ◌++◌, Option, none, some,
  ◌==◌, ==_iff, length, length-append, arith, Bool-cases, inl, inr,
}
use c.Connection.Pool.{
  HttpConnection, HttpConnectionPool, take_usable, is_usable, finish_get, get_connection,
  release_ptr, counted, is_dropped, less_by,
}
use c.Connection.Pool.Count.{count, count-cons, count-append, taken, take_usable-append}

-- The pool, and the connections that are lent.
pub record Loans : Type 0 where
  pub pool : HttpConnectionPool
  pub lent : List HttpConnection

-- What `new` returns is not the address of a connection that exists.
abbrev pub IsFresh : Option ℕ → Loans → Type 0
IsFresh none l = Unit {0}
IsFresh (some a) l = (count a l.pool.conns ≡ 0) × (count a l.lent ≡ 0)

unfoldable pub lend : (ℕ → Bool) → ℕ → Option ℕ → Loans → Loans
lend connected now opened l =
    let (conn, pool) = get_connection connected now opened l.pool in
    record { pool = pool; lent = taken conn ++ l.lent }

-- m_total counts the connections, and none is there twice.
pub record Counted (l : Loans) : Type 0 where
  pub all : l.pool.total ≡ (length l.pool.conns + length l.lent) % 2 ^ 32
  pub once : (a : ℕ) → count a l.pool.conns + count a l.lent ≤ 1

count_all :
    (a : ℕ) (xs ys zs : List HttpConnection)
    → count a (xs ++ (ys ++ zs)) ≡ count a xs + (count a ys + count a zs)
count_all a xs ys zs = omega (arith, count-append a xs (ys ++ zs), count-append a ys zs)

length_all :
    (xs ys zs : List HttpConnection)
    → length (xs ++ (ys ++ zs)) ≡ length xs + (length ys + length zs)
length_all xs ys zs = omega (arith, length-append xs (ys ++ zs), length-append ys zs)

fresh-once :
    (a p : ℕ) (rest lent : List HttpConnection)
    → count p rest ≡ 0
    → count p lent ≡ 0
    → count a rest + count a lent ≤ 1
    → count a rest + count a (record { address = p; create_time = 0; request = 0 } ∷ lent) ≤ 1
fresh-once a p rest lent f g h =
    rw (count-cons a (record { address = p; create_time = 0; request = 0 }) lent)
      (elim (Bool-cases (a == p)) [
        | inl e ↦
            let at : a ≡ p = (==_iff a p).0 e in
            rw e (omega (arith, f, g, ap (λ q. count q rest) at, ap (λ q. count q lent) at))
        | inr e ↦ rw e (omega (arith, h))
      ])

less_by-mod : (t i k : ℕ) → t ≡ (i + k) % 2 ^ 32 → less_by t i ≡ k % 2 ^ 32
less_by-mod t i k e = omega arith

-- The part of getConnection behind its loop.
finish_get-Counted :
    (invalid : List HttpConnection) (ptr : Option HttpConnection) (rest : List HttpConnection)
    (opened : Option ℕ) (l : Loans)
    → l.pool.conns ≡ invalid ++ (taken ptr ++ rest)
    → IsFresh opened l
    → Counted l
    → let r =
        finish_get ptr opened
          (record l.pool { conns = rest; total = less_by l.pool.total (length invalid) }) in
      Counted (record { pool = r.1; lent = taken r.0 ++ l.lent })
unfolding finish_get
finish_get-Counted invalid (some conn) rest opened l e f c = record {
  all =
      less_by-mod l.pool.total (length invalid) (length rest + (1 + length l.lent)) (
        c.all
        ∙ ap (λ (n : ℕ). n % 2 ^ 32)
            (omega (arith, ap length e, length_all invalid (conn ∷ []) rest)))
      ∙ ap (λ (n : ℕ). n % 2 ^ 32) (omega arith);
  once = λ a. omega (
    arith,
    c.once a,
    ap (count a) e,
    count_all a invalid (conn ∷ []) rest,
    count-append a (conn ∷ []) l.lent,
  );
}
finish_get-Counted invalid none rest none l e f c = record {
  all =
      less_by-mod l.pool.total (length invalid) (length rest + length l.lent) (
        c.all
        ∙ ap (λ (n : ℕ). n % 2 ^ 32) (omega (arith, ap length e, length-append invalid rest)));
  once = λ a. omega (arith, c.once a, ap (count a) e, count-append a invalid rest);
}
finish_get-Counted invalid none rest (some p) l e f c = record {
  all = one_more (less_by l.pool.total (length invalid)) (length rest) (length l.lent) (
      less_by-mod l.pool.total (length invalid) (length rest + length l.lent) (
        c.all
        ∙ ap (λ (n : ℕ). n % 2 ^ 32) (omega (arith, ap length e, length-append invalid rest))));
  once = λ a.
      fresh-once a p rest l.lent (gone p f.0) f.1
        (omega (arith, c.once a, ap (count a) e, count-append a invalid rest));
}
  where
    one_more : (t m n : ℕ) → t ≡ (m + n) % 2 ^ 32 → (t + 1) % 2 ^ 32 ≡ (m + suc n) % 2 ^ 32
    one_more t m n h = omega arith

    gone : (p : ℕ) → count p l.pool.conns ≡ 0 → count p rest ≡ 0
    gone p h = omega (arith, ap (count p) e, count-append p invalid rest)

pub lends-Counted :
    (connected : ℕ → Bool) (now : ℕ) (opened : Option ℕ) (l : Loans)
    → IsFresh opened l
    → Counted l
    → Counted (lend connected now opened l)
unfolding lend get_connection
lends-Counted connected now opened l f c =
    let usable = is_usable connected now l.pool in
    let t = take_usable usable l.pool.conns in
    finish_get-Counted t.0 t.1 t.2 opened l (take_usable-append usable l.pool.conns) f c

lent_lem :
    (before after lent : List HttpConnection) (conn : HttpConnection)
    → lent ≡ before ++ conn ∷ after
    → (length lent ≡ suc (length (before ++ after)))
      × ((a : ℕ) → count a lent ≡ count a (conn ∷ []) + count a (before ++ after))
lent_lem before after lent conn e = (
  omega (arith, ap length e, length_all before (conn ∷ []) after, length-append before after),
  λ a.
      omega
        (arith, ap (count a) e, count_all a before (conn ∷ []) after, count-append a before after),
)

-- A connection with another count of requests is the same one.
count-again :
    (a : ℕ) (conn : HttpConnection) (n : ℕ)
    → count a (record conn { request = n } ∷ []) ≡ count a (conn ∷ [])
unfolding count
count-again a conn n = refl

pub releases-Counted :
    (connected : ℕ → Bool) (now : ℕ) (before after : List HttpConnection) (conn : HttpConnection)
    (l : Loans)
    → l.lent ≡ before ++ conn ∷ after
    → Counted l
    → Counted (record { pool = release_ptr connected now conn l.pool; lent = before ++ after })
unfolding release_ptr
releases-Counted connected now before after conn l e c =
    elim (Bool-cases (is_dropped connected now (counted conn) l.pool)) [
      | inl d ↦ rw d (record {
        all = less_by-mod l.pool.total 1 (length l.pool.conns + length (before ++ after)) (
            c.all
            ∙ ap (λ (n : ℕ). n % 2 ^ 32) (omega (arith, (lent_lem before after l.lent conn e).0)));
        once = λ a. omega (arith, c.once a, (lent_lem before after l.lent conn e).1 a);
      })
      | inr d ↦ rw d (record {
        all =
            c.all
            ∙ ap (λ (n : ℕ). n % 2 ^ 32)
                (omega (
                  arith,
                  (lent_lem before after l.lent conn e).0,
                  length-append l.pool.conns (counted conn ∷ []),
                ));
        once = λ a. omega (
          arith,
          c.once a,
          (lent_lem before after l.lent conn e).1 a,
          count-append a l.pool.conns (counted conn ∷ []),
          count-again a conn (counted conn).request,
        );
      })
    ]
