-- ===== src/Connection/Pool/Age.antt =====
-- The age of a connection, which is that of the epoch.
use c.Prelude.{
  ℕ, ◌^◌, ◌<◌, ◌≡◌, refl, Bool, true, false, not, ◌||◌, ◌&&◌, List, [], ◌∷◌, ◌++◌, Option, none,
  some, leb, ltb, if◌then◌else◌, arith, All, length, Bool-cases, inl, inr,
}
use c.Connection.Pool.Count.{taken}
use c.Connection.Pool.{
  HttpConnection, HttpConnectionPool, deadline, is_usable, take_usable, get_connection, finish_get,
  release_ptr, counted, is_dropped, less_by,
}

-- No connection has a time of creation.
abbrev pub Ageless : List HttpConnection → Type 0
Ageless = All (λ conn. conn.create_time ≡ 0)

or_false : (b : Bool) → (b || false) ≡ b
or_false true = refl
or_false false = refl

past : (n d : ℕ) → d < n → leb n d ≡ false
past n d h = ground arith

before_now :
    (now : ℕ) (pool : HttpConnectionPool) (conn : HttpConnection)
    → conn.create_time ≡ 0
    → pool.max_alive_time < 2 ^ 32
    → pool.max_alive_time < now
    → deadline conn pool < now
before_now now pool conn e small h = omega arith

usable_if_connected :
    (connected : ℕ → Bool) (now : ℕ) (pool : HttpConnectionPool) (conn : HttpConnection)
    → deadline conn pool < now
    → is_usable connected now pool conn ≡ connected conn.address
unfolding is_usable
usable_if_connected connected now pool conn h =
    rw (late now (deadline conn pool) h) (and_true (connected conn.address))
  where
    late : (n d : ℕ) → d < n → ltb n d ≡ false
    late n d h = ground arith

    and_true : (b : Bool) → (b && true) ≡ b
    and_true true = refl
    and_true false = refl

module _ (f g : HttpConnection → Bool) where
  take_usable-agree :
      (conns : List HttpConnection)
      → All (λ conn. f conn ≡ g conn) conns
      → take_usable f conns ≡ take_usable g conns
  unfolding take_usable
  take_usable-agree [] h = refl
  take_usable-agree (conn ∷ conns) (e, h) = rw (e, take_usable-agree conns h) refl

take_usable-Ageless :
    (f : HttpConnection → Bool) (conns : List HttpConnection)
    → Ageless conns
    → Ageless (taken (take_usable f conns).1 ++ (take_usable f conns).2)
unfolding take_usable
take_usable-Ageless f [] h = tt
take_usable-Ageless f (conn ∷ conns) (e, h) = elim (Bool-cases (f conn)) [
  | inl d ↦ rw d (e, h)
  | inr d ↦ rw d (take_usable-Ageless f conns h)
]

finish_get-Ageless :
    (ptr : Option HttpConnection) (opened : Option ℕ) (pool : HttpConnectionPool)
    → Ageless (taken ptr ++ pool.conns)
    → Ageless (taken (finish_get ptr opened pool).0 ++ (finish_get ptr opened pool).1.conns)
unfolding finish_get
finish_get-Ageless (some conn) opened pool h = h
finish_get-Ageless none none pool h = h
finish_get-Ageless none (some a) pool h = (refl, h)

Ageless-append :
    (xs : List HttpConnection) (conn : HttpConnection)
    → Ageless xs
    → conn.create_time ≡ 0
    → Ageless (xs ++ counted conn ∷ [])
Ageless-append [] conn h e = (e, tt)
Ageless-append (x ∷ xs) conn (d, h) e = (d, Ageless-append xs conn h e)

all_connected :
    (connected : ℕ → Bool) (now : ℕ) (pool : HttpConnectionPool) (conns : List HttpConnection)
    → Ageless conns
    → pool.max_alive_time < 2 ^ 32
    → pool.max_alive_time < now
    → All (λ conn. is_usable connected now pool conn ≡ connected conn.address) conns
all_connected connected now pool [] h small late = tt
all_connected connected now pool (conn ∷ conns) (e, h) small late = (
  usable_if_connected connected now pool conn (before_now now pool conn e small late),
  all_connected connected now pool conns h small late,
)

-- While no connection has a time of creation, which getConnection and ReleasePtr keep, and once the clock is
-- past the pool's greatest age: getConnection takes the first connection that is connected, whatever
-- its age, dropping those before it, and opens a new one if there is none; and ReleasePtr deletes a
-- connection only if it is not connected or has had the greatest number of requests, and puts it at
-- the end of the pool otherwise.
pub get_connection-Ageless :
    (connected : ℕ → Bool) (now : ℕ) (opened : Option ℕ) (ptr : HttpConnection)
    (pool : HttpConnectionPool)
    → Ageless (ptr ∷ pool.conns)
    → pool.max_alive_time < 2 ^ 32
    → pool.max_alive_time < now
    → (get_connection connected now opened pool ≡ (
        let (invalid, first, rest) = take_usable (λ conn. connected conn.address) pool.conns in
        finish_get first opened
          (record pool { conns = rest; total = less_by pool.total (length invalid) })))
      × Ageless (
          taken (get_connection connected now opened pool).0
          ++ (get_connection connected now opened pool).1.conns)
      × (release_ptr connected now ptr pool ≡ (
          if not (connected ptr.address) || leb pool.max_request (counted ptr).request
          then record pool { total = less_by pool.total 1 }
          else record pool { conns = pool.conns ++ counted ptr ∷ [] }))
      × Ageless (release_ptr connected now ptr pool).conns
unfolding get_connection release_ptr is_dropped
get_connection-Ageless connected now opened ptr pool (e, h) small late = (
  rw same_take refl,
  finish_get-Ageless _ opened _ (take_usable-Ageless (is_usable connected now pool) pool.conns h),
  rw (not_late, or_false (not (connected ptr.address))) refl,
  kept (is_dropped connected now (counted ptr) pool),
)
  where
    same_take :
        take_usable (is_usable connected now pool) pool.conns
        ≡ take_usable (λ conn. connected conn.address) pool.conns
    same_take =
        take_usable-agree (is_usable connected now pool) (λ conn. connected conn.address) pool.conns
          (all_connected connected now pool pool.conns h small late)

    not_late : leb now (deadline (counted ptr) pool) ≡ false
    not_late = past now (deadline ptr pool) (before_now now pool ptr e small late)

    kept :
        (b : Bool)
        → Ageless
            (if b
              then record pool { total = less_by pool.total 1 }
              else record pool { conns = pool.conns ++ counted ptr ∷ [] }).conns
    kept true = h
    kept false = Ageless-append pool.conns ptr h e
