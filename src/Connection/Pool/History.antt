-- ===== src/Connection/Pool/History.antt =====
-- Any sequence of getConnection and of releases: each is one step, and m_total, which is atomic, is changed
-- in it.
use c.Prelude.{ℕ, ◌+◌, ◌≤◌, ◌≡◌, refl, Bool, List, [], ◌∷◌, ◌++◌, Option, none, some, arith}
use c.Connection.Pool.{
  HttpConnection, HttpConnectionPool, get_connection, release_ptr, Answers, pool_do_request,
  finish_request,
}
use c.Connection.Pool.Count.{count, taken}
use c.Connection.Pool.Loans.{Loans, IsFresh, lend, Counted, lends-Counted, releases-Counted}

pub data Step (l : Loans) : Loans → Type 0 where
  lends :
      (connected : ℕ → Bool) (now : ℕ) (opened : Option ℕ)
      → IsFresh opened l
      → Step l (lend connected now opened l)
  releases :
      (connected : ℕ → Bool) (now : ℕ) (before after : List HttpConnection) (conn : HttpConnection)
      → l.lent ≡ before ++ conn ∷ after
      → Step l (record { pool = release_ptr connected now conn l.pool; lent = before ++ after })

pub data Reach (l : Loans) : Loans → Type 0 where
  here : Reach l l
  next : {m n : Loans} → Reach l m → Step m n → Reach l n

-- In a new pool nothing is there, and nothing is lent.
abbrev pub no_loans : HttpConnectionPool → Loans
no_loans pool = record { pool = record pool { conns = []; total = 0 }; lent = [] }

none_once : (a : ℕ) → count a [] + count a [] ≤ 1
unfolding count
none_once a = omega arith

Reach-Counted_from : {l m : Loans} → Counted l → Reach l m → Counted m
Reach-Counted_from c here = c
Reach-Counted_from {l} c (next {m} r (lends connected now opened f)) =
    lends-Counted connected now opened m f (Reach-Counted_from c r)
Reach-Counted_from {l} c (next {m} r (releases connected now before after conn e)) =
    releases-Counted connected now before after conn m e (Reach-Counted_from c r)

-- After any sequence of getConnection, of any outcome, and of releases of lent connections, from a new
-- pool on, where `new` gives no address that is in use: m_total is, modulo 2^32, the number of the
-- connections in the pool and of those lent; and no connection is twice among them, so that none is
-- lent to two users, or lent and in the pool.
pub Reach-Counted : (pool : HttpConnectionPool) (l : Loans) → Reach (no_loans pool) l → Counted l
Reach-Counted pool l r = Reach-Counted_from (record { all = refl; once = λ a. none_once a }) r

-- doRequest on a pool that counts its connections, whatever is lent meanwhile: on every path, errors
-- included, the pool counts them afterwards, with nothing more lent: the connection that doRequest took is
-- given back or deleted.
pub pool_do_request-Counted :
    (a : Answers) (l : Loans)
    → IsFresh a.opened l
    → Counted l
    → Counted (record { pool = (pool_do_request a l.pool).1; lent = l.lent })
unfolding pool_do_request lend
pool_do_request-Counted a l f c =
    given (get_connection a.connected a.now a.opened l.pool).0
      (get_connection a.connected a.now a.opened l.pool).1
      (lends-Counted a.connected a.now a.opened l f c)
  where
    given :
        (conn : Option HttpConnection) (pool : HttpConnectionPool)
        → Counted (record { pool = pool; lent = taken conn ++ l.lent })
        → Counted (record { pool = (finish_request a conn pool).1; lent = l.lent })
    given none pool c' = c'
    given (some conn) pool c' =
        releases-Counted a.connected_after a.now_after [] l.lent conn
          (record { pool = pool; lent = conn ∷ l.lent }) refl c'
