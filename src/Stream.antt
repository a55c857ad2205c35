-- ===== src/Stream.antt =====
-- stream.h, stream.cc, socket_stream.h, socket_stream.cc: a Stream, its loops over read and write, and the
-- stream over a socket. The socket's calls are arguments, with what recv and send promise.
pub mod ReadFix
pub mod WriteFix
pub mod Pieces
mod Tests
use c.Prelude.{
  ℕ, zero, suc, ◌+◌, ◌-◌, ◌%◌, ◌^◌, ◌≤◌, ◌<◌, ◌≡◌, refl, Bool, true, false, List, [], ◌∷◌, ◌++◌,
  Option, none, some, ltb, if◌then◌else◌, length, take, drop, Bool-cases, inl, inr,
}
use c.Prelude.Int.{ℤ, pos, negsuc, signed}

-- What read returns: some bytes, and their count; or 0 or a negative code.
pub data Got : Type 0 where
  got : List ℕ → Got
  no_bytes : ℤ → Got

-- What write returns: how many of the bytes were taken; or 0 or a negative code.
pub data Put : Type 0 where
  took : ℕ → Put
  no_room : ℤ → Put

abbrev pub IsError : ℤ → Type 0
IsError (pos zero) = Unit {0}
IsError (pos (suc n)) = suc n ≡ zero
IsError (negsuc n) = Unit {0}

-- A read of n bytes gives from 1 to n of them, or none.
abbrev pub IsGot : ℕ → Got → Type 0
IsGot n (got xs) = (0 < length xs) × (length xs ≤ n)
IsGot n (no_bytes code) = IsError code

abbrev pub IsPut : ℕ → Put → Type 0
IsPut n (took k) = (0 < k) × (k ≤ n)
IsPut n (no_room code) = IsError code

-- Stream, with read and write as its subclasses define them, for n bytes above 0.
pub record Stream {ℓ} (S : Type ℓ) : Type ℓ where
  pub read : ℕ → S → Got × S
  pub write : List ℕ → S → Put × S
  pub reads : (n : ℕ) (s : S) → 0 < n → IsGot n (read n s).0
  pub writes : (xs : List ℕ) (s : S) → 0 < length xs → IsPut (length xs) (write xs s).0

module _ {ℓ} {S : Type ℓ} (T : Stream S) where
  -- The loop of readFixSize: with `left` bytes to come, what it returns, the bytes that it has put into the
  -- buffer, and the new state; `done` is what the function returns behind the loop. A round reads one
  -- byte at least, so that `left` rounds are enough; none is out of rounds.
  unfoldable pub read_loop : ℕ → ℕ → ℤ → S → Option (ℤ × List ℕ × S)
  read_loop n zero done s = some (done, [], s)
  read_loop zero (suc left) done s = none
  read_loop (suc n) (suc left) done s =
      let r = T.read (suc left) s in
      elim r.0 [
        | no_bytes code ↦ some (code, [], r.1)
        | got xs ↦ elim (read_loop n (suc left - length xs) done r.1) [
          | none ↦ none
          | some (rt, ys, t) ↦ some (rt, xs ++ ys, t)
        ]
      ]

  -- readFixSize(buffer, length). left is an int64_t, and the count is returned as an int.
  unfoldable pub read_fix_size : ℕ → S → Option (ℤ × List ℕ × S)
  read_fix_size n s =
      if ltb n (2 ^ 63)
      then read_loop n n (signed 32 (n % 2 ^ 32)) s
      else some (signed 32 (n % 2 ^ 32), [], s)

  -- The loop of writeFixSize, with the bytes that are left.
  unfoldable pub write_loop : ℕ → List ℕ → ℤ → S → Option (ℤ × S)
  write_loop n [] done s = some (done, s)
  write_loop zero (x ∷ xs) done s = none
  write_loop (suc n) (x ∷ xs) done s =
      let r = T.write (x ∷ xs) s in
      elim r.0 [
        | no_room code ↦ some (code, r.1)
        | took k ↦ write_loop n (drop k (x ∷ xs)) done r.1
      ]

  unfoldable pub write_fix_size : List ℕ → S → Option (ℤ × S)
  write_fix_size xs s =
      if ltb (length xs) (2 ^ 63)
      then write_loop (length xs) xs (signed 32 (length xs % 2 ^ 32)) s
      else some (signed 32 (length xs % 2 ^ 32), s)

-- The calls of a Socket, null or not, and what recv and send promise.
pub record Socket {ℓ} (S : Type ℓ) : Type ℓ where
  pub is_connected : S → Bool
  pub recv : ℕ → S → Got × S
  pub send : List ℕ → S → Put × S
  pub received : (n : ℕ) (s : S) → 0 < n → IsGot n (recv n s).0
  pub sent : (xs : List ℕ) (s : S) → 0 < length xs → IsPut (length xs) (send xs s).0

module _ {ℓ} {S : Type ℓ} (K : Socket S) where
  -- SocketStream::read and write on a buffer.
  unfoldable pub socket_read : ℕ → S → Got × S
  socket_read n s = if K.is_connected s then K.recv n s else (no_bytes (negsuc 0), s)

  unfoldable pub socket_write : List ℕ → S → Put × S
  socket_write xs s = if K.is_connected s then K.send xs s else (no_room (negsuc 0), s)

  pub socket_read-IsGot : (n : ℕ) (s : S) → 0 < n → IsGot n (socket_read n s).0
  unfolding socket_read
  socket_read-IsGot n s h = elim (Bool-cases (K.is_connected s)) [
    | inl e ↦ rw e (K.received n s h)
    | inr e ↦ rw e tt
  ]

  pub socket_write-IsPut :
      (xs : List ℕ) (s : S) → 0 < length xs → IsPut (length xs) (socket_write xs s).0
  unfolding socket_write
  socket_write-IsPut xs s h = elim (Bool-cases (K.is_connected s)) [
    | inl e ↦ rw e (K.sent xs s h)
    | inr e ↦ rw e tt
  ]

  -- A SocketStream is a Stream.
  abbrev pub socket_stream : Stream S
  socket_stream = record {
    read = socket_read;
    write = socket_write;
    reads = socket_read-IsGot;
    writes = socket_write-IsPut;
  }
