-- ===== src/Stream/Tests.antt =====
-- A socket with some bytes to read.
use Prim.Native.Nat.{min}
use c.Prelude.{
  ℕ, ◌%◌, ◌^◌, ◌<◌, ◌≡◌, refl, true, List, [], ◌∷◌, some, length, take, drop, length-take, arith,
}
use c.Prelude.Int.{ℤ, pos, signed}
use c.ByteArray.{ByteArray, init, ok}
use c.ByteArray.Valid.{Valid, init-Valid}
use c.Stream.{
  Got, got, no_bytes, took, IsGot, Socket, socket_stream, read_fix_size, write_fix_size, read_loop,
  socket_read,
}
use c.Stream.ReadFix.{IsReadFixed, read_fix_size_lem}
use c.Stream.WriteFix.{IsWriteFixed, write_fix_size_lem}
use c.Stream.Pieces.{read_array}
use c.Stream.Pieces.Array.{IsReceived, read_array-IsReceived}

-- At most three bytes a call.
abbrev recv : ℕ → List ℕ → Got × List ℕ
recv n [] = (no_bytes (pos 0), [])
recv n (x ∷ s) = (got (take (min n 3) (x ∷ s)), drop (min n 3) (x ∷ s))

received : (n : ℕ) (s : List ℕ) → 0 < n → IsGot n (recv n s).0
received n [] h = tt
received n (x ∷ s) h =
    (omega (arith, length-take (min n 3) (x ∷ s)), omega (arith, length-take (min n 3) (x ∷ s)))

abbrev three : Socket (List ℕ)
three = record {
  is_connected = λ s. true;
  recv = recv;
  send = λ xs s. (took (length xs), s);
  received = received;
  sent = λ xs s h. (h, omega arith);
}

abbrev five : List ℕ
five = 1 ∷ 2 ∷ 3 ∷ 4 ∷ 5 ∷ []

all_five : read_fix_size (socket_stream three) 5 five ≡ some (pos 5, five, [])
unfolding read_fix_size read_loop socket_read
all_five = refl

five_of_six : read_fix_size (socket_stream three) 6 five ≡ some (pos 0, five, [])
unfolding read_fix_size read_loop socket_read
five_of_six = refl

read_fix_size_lem_example :
    (q : ℤ × List ℕ × List ℕ) × (read_fix_size (socket_stream three) 5 five ≡ some q)
    × IsReadFixed (socket_stream three) 5 (signed 32 (5 % 2 ^ 32)) five q
read_fix_size_lem_example = read_fix_size_lem (socket_stream three) 5 five (omega arith)

write_fix_size_lem_example :
    (q : ℤ × List ℕ) × (write_fix_size (socket_stream three) five [] ≡ some q)
    × IsWriteFixed (socket_stream three) five (signed 32 (5 % 2 ^ 32)) [] q
write_fix_size_lem_example = write_fix_size_lem (socket_stream three) five [] (omega arith)

two_blocks : Valid (init 0 2)
two_blocks = init-Valid 0 2 (omega arith)

read_array-IsReceived_example :
    (r : ℤ × ByteArray) × (read_array three 5 (init 0 2) five ≡ ok (r.0, r.1, (recv 5 five).1))
    × IsReceived (init 0 2) (recv 5 five).0 r
read_array-IsReceived_example =
    read_array-IsReceived three 5 (init 0 2) five two_blocks (omega arith) refl
