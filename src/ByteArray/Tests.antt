-- ===== src/ByteArray/Tests.antt =====
-- Runs of a ByteArray with blocks of four bytes, and its theorems at concrete inputs.
use c.Prelude.{ℕ, ◌≡◌, refl, ◌≤◌, true, false, List, [], ◌∷◌, none, some, arith}
use c.ByteArray.{
  ByteArray, ok, out_of_range, init, write, read, read_at, write_nodes, read_nodes, put, seek,
  add_capacity, set_position, clear,
}
use c.ByteArray.Nodes.{Moves}
use c.ByteArray.Valid.{Valid, init-Valid}
use c.ByteArray.Content.{content, IsWrite, write-IsWrite}
use c.ByteArray.Files.{read_from_file, read_from_file-IsWrite}
use c.ByteArray.Cursor.{Call, writes, seeks, reads, step, steps, run, AllOk, Shows, run-steps}

abbrev start : ByteArray
start = init 0xcc 4

start-Valid : Valid start
start-Valid = init-Valid 0xcc 4 (omega arith)

-- Six bytes in two blocks, at position p in block k.
abbrev six : ℕ → ℕ → ByteArray
six p k = record {
  base_size = 4;
  position = p;
  capacity = 8;
  size = 6;
  little_endian = false;
  nodes = (1 ∷ 2 ∷ 3 ∷ 4 ∷ []) ∷ (5 ∷ 6 ∷ 0xcc ∷ 0xcc ∷ []) ∷ [];
  cur = k;
  junk = 0xcc;
}

six-Valid : (p k : ℕ) → Moves 4 p k → p ≤ 6 → Valid (six p k)
six-Valid p k m h = record {
  block = omega arith;
  uniform = (refl, (refl, tt));
  root = omega arith;
  counted = refl;
  at_cur = m;
  within = h;
  bounded = omega arith;
}

abbrev full : ByteArray
full = record (six 8 2) { size = 8 }

full-Valid : Valid full
full-Valid = record {
  block = omega arith;
  uniform = (refl, (refl, tt));
  root = omega arith;
  counted = refl;
  at_cur = omega arith;
  within = omega arith;
  bounded = omega arith;
}

write_run : write (1 ∷ 2 ∷ 3 ∷ 4 ∷ 5 ∷ 6 ∷ []) start ≡ ok (six 6 1)
unfolding write init add_capacity write_nodes put
write_run = refl

read_run : read 3 (six 3 0) ≡ ok (4 ∷ 5 ∷ 6 ∷ [], six 6 1)
unfolding read read_nodes
read_run = refl

read_beyond : read 4 (six 3 0) ≡ out_of_range
unfolding read read_nodes
read_beyond = refl

-- read(buf, size, position) at another position than the array's starts in the wrong block.
read_at_wrong : read_at 1 4 (six 0 0) ≡ ok (1 ∷ [])
unfolding read_at read_nodes
read_at_wrong = refl

set_position_run : set_position 4 (six 0 0) ≡ ok (six 4 1)
unfolding set_position seek
set_position_run = refl

clear_run : (clear (six 6 1)).nodes ≡ (1 ∷ 2 ∷ 3 ∷ 4 ∷ []) ∷ []
unfolding clear
clear_run = refl

write-IsWrite_example :
    (b' : ByteArray) × (write (7 ∷ 8 ∷ 9 ∷ []) (six 3 0) ≡ ok b')
    × IsWrite (7 ∷ 8 ∷ 9 ∷ []) (six 3 0) b'
write-IsWrite_example =
    write-IsWrite (7 ∷ 8 ∷ 9 ∷ []) (six 3 0) (six-Valid 3 0 (omega arith) (omega arith))

abbrev five : ByteArray
five = record (six 3 0) { size = 5 }

five-Valid : Valid five
five-Valid = record {
  block = omega arith;
  uniform = (refl, (refl, tt));
  root = omega arith;
  counted = refl;
  at_cur = omega arith;
  within = omega arith;
  bounded = omega arith;
}

read_from_file-IsWrite_example :
    ((b' : ByteArray) × (read_from_file 6
          (some (record { bytes = 1 ∷ 2 ∷ 3 ∷ 4 ∷ 5 ∷ []; fails = false }))
          start
        ≡ some (ok (b', true)))
      × IsWrite (1 ∷ 2 ∷ 3 ∷ 4 ∷ 5 ∷ []) start b')
    × ((n : ℕ)
        → read_from_file n (some (record { bytes = 1 ∷ 2 ∷ 3 ∷ 4 ∷ 5 ∷ []; fails = true })) start
          ≡ none)
read_from_file-IsWrite_example = read_from_file-IsWrite (1 ∷ 2 ∷ 3 ∷ 4 ∷ 5 ∷ []) start start-Valid

abbrev calls : List Call
calls = writes (1 ∷ 2 ∷ 3 ∷ []) ∷ seeks 1 ∷ reads 5 ∷ reads 2 ∷ []

start-Shows : Shows start (record { bytes = []; position = 0 })
unfolding content init
start-Shows = record { valid = start-Valid; bytes = refl; position = refl }

calls_ok : AllOk calls (record { bytes = []; position = 0 })
unfolding AllOk step
calls_ok = (tt, (omega arith, (omega arith, (omega arith, tt))))

run-steps_example :
    (b' : ByteArray) × (run calls start
      ≡ ok ((steps calls (record { bytes = []; position = 0 })).0, b'))
    × Shows b' (steps calls (record { bytes = []; position = 0 })).1
run-steps_example = run-steps calls start (record { bytes = []; position = 0 }) start-Shows calls_ok
