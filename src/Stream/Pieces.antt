-- ===== src/Stream/Pieces.antt =====
-- SocketStream::read and write on a ByteArray: recvmsg fills the pieces of getWriteBuffers, and sendmsg takes
-- those of getReadBuffers. A call moves less than 2^31 bytes, so that the int that counts them is exact.
pub mod Scatter
pub mod Array
use c.Prelude.{
  ℕ, zero, suc, ◌+◌, Bool, true, false, List, [], ◌∷◌, ◌++◌, if◌then◌else◌, length, take, drop, set,
  get_or,
}
use c.Prelude.Int.{ℤ, pos, negsuc}
use c.ByteArray.{ByteArray, Result, ok, undefined, ◌>>=◌, put, set_position}
use c.ByteArray.Buffers.{Iovec, get_write_buffers, get_read_buffers, gather}
use c.Stream.{Got, Put, got, no_bytes, took, no_room, Socket}

-- The bytes xs are put into the pieces, one piece after the other.
unfoldable pub scatter : List Iovec → List ℕ → List (List ℕ) → List (List ℕ)
scatter [] xs nodes = nodes
scatter (v ∷ vs) xs nodes =
    scatter vs (drop v.iov_len xs)
      (set nodes v.node (put (get_or nodes v.node []) v.iov_base (take v.iov_len xs)))

-- The call with &iovs[0], which is undefined for no pieces.
abbrev pub first_piece {ℓ} : {A : Type ℓ} → List Iovec → Result A → Result A
first_piece [] m = undefined
first_piece (v ∷ vs) m = m

module _ {ℓ} {S : Type ℓ} (K : Socket S) where
  -- What read does with the answer of recvmsg.
  unfoldable pub take_in : ByteArray → List Iovec → Got × S → Result (ℤ × ByteArray × S)
  take_in b v (no_bytes code, s) = ok (code, b, s)
  take_in b v (got xs, s) =
      set_position (b.position + length xs) (record b { nodes = scatter v xs b.nodes }) >>= λ b'.
      ok (pos (length xs), b', s)

  -- read(ba, length)
  unfoldable pub read_array : ℕ → ByteArray → S → Result (ℤ × ByteArray × S)
  read_array n b s =
      if K.is_connected s
      then (get_write_buffers n b >>= λ r. first_piece r.1 (take_in r.0 r.1 (K.recv r.2 s)))
      else ok (negsuc 0, b, s)

  unfoldable pub take_out : ByteArray → Put × S → Result (ℤ × ByteArray × S)
  take_out b (no_room code, s) = ok (code, b, s)
  take_out b (took k, s) = set_position (b.position + k) b >>= λ b'. ok (pos k, b', s)

  -- write(ba, length)
  unfoldable pub write_array : ℕ → ByteArray → S → Result (ℤ × ByteArray × S)
  write_array n b s =
      if K.is_connected s
      then (get_read_buffers n b >>= λ r.
          first_piece r.0 (take_out b (K.send (gather r.0 b.nodes) s)))
      else ok (negsuc 0, b, s)
