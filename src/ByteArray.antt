-- ===== src/ByteArray.antt =====
-- bytearray.h, bytearray.cc: the memory of a ByteArray, its position, write, read, setPosition,
-- clear and toString. A node is its memory, a list of bytes; the chain from m_root is a list of
-- nodes, and m_cur is an index into it, which is the null pointer at the end of the list.
pub mod Bytes
pub mod Nodes
pub mod Valid
pub mod Overwrite
pub mod Content
pub mod Read
pub mod Ahead
pub mod Null
pub mod Files
pub mod Buffers
pub mod Cursor
mod Tests
use c.Prelude.{
  ℕ, zero, suc, ◌+◌, ◌-◌, ◌*◌, ◌/◌, ◌%◌, ◌^◌, Bool, true, false, List, [], ◌∷◌, ◌++◌, Option, none,
  some, ltb, leb, ◌==◌, if◌then◌else◌, length, take, drop, replicate,
}

-- How a call ends: with a value, by throwing std::out_of_range, or in undefined behaviour, such as
-- a null pointer that is dereferenced.
pub data Result {ℓ} (A : Type ℓ) : Type ℓ where
  ok : A → Result A
  out_of_range : Result A
  undefined : Result A

infixl 5 ◌>>=◌
abbrev pub ◌>>=◌ {ℓ κ} : {A : Type ℓ} {B : Type κ} → Result A → (A → Result B) → Result B
ok a >>= f = f a
out_of_range >>= f = out_of_range
undefined >>= f = undefined

pub record ByteArray : Type 0 where
  pub base_size : ℕ
  pub position : ℕ
  pub capacity : ℕ
  pub size : ℕ
  pub little_endian : Bool
  pub nodes : List (List ℕ)
  pub cur : ℕ
  -- What `new char[s]` finds in memory.
  pub junk : ℕ

-- ByteArray::Node::Node(s)
abbrev pub new_node : ℕ → ℕ → List ℕ
new_node junk s = replicate s junk

-- ByteArray::ByteArray(base_size)
unfoldable pub init : ℕ → ℕ → ByteArray
init junk base_size = record {
  base_size = base_size;
  position = 0;
  capacity = base_size;
  size = 0;
  little_endian = false;
  nodes = new_node junk base_size ∷ [];
  cur = 0;
  junk = junk;
}

pub is_little_endian : ByteArray → Bool
is_little_endian b = b.little_endian

pub set_is_little_endian : Bool → ByteArray → ByteArray
set_is_little_endian val b = record b { little_endian = val }

-- getReadSize() and getCapacity(); size_t wraps, but position stays below both.
abbrev pub get_read_size : ByteArray → ℕ
get_read_size b = b.size - b.position

abbrev pub get_capacity : ByteArray → ℕ
get_capacity b = b.capacity - b.position

-- ceil(1.0 * size / m_baseSize), where a double holds a size below 2 ^ 53 exactly.
abbrev pub blocks : ℕ → ℕ → ℕ
blocks size base = (size + base - 1) / base

-- ByteArray::addCapacity(size)
unfoldable pub add_capacity : ℕ → ByteArray → ByteArray
add_capacity size b =
    if size == 0
    then b
    else if leb size (get_capacity b)
    then b
    else (let count = blocks (size - get_capacity b) b.base_size in
        record b {
          nodes = b.nodes ++ replicate count (new_node b.junk b.base_size);
          capacity = b.capacity + count * b.base_size;
          cur = if get_capacity b == 0 then length b.nodes else b.cur;
        })

-- memcpy(p + i, src, length src), where p points to `mem`.
unfoldable pub put : List ℕ → ℕ → List ℕ → List ℕ
put [] i src = []
put (x ∷ xs) zero [] = x ∷ xs
put (x ∷ xs) zero (y ∷ ys) = y ∷ put xs zero ys
put (x ∷ xs) (suc i) src = x ∷ put xs i src

-- The loop of write from the node m_cur on: the nodes after it, and by how many m_cur moves.
unfoldable pub write_nodes : List (List ℕ) → ℕ → List ℕ → Result (List (List ℕ) × ℕ)
write_nodes [] npos buf = undefined
write_nodes (n ∷ ns) npos buf =
    let ncap = length n - npos in
    let rest = write_nodes ns 0 (drop ncap buf) in
    if leb (length buf) ncap
    then ok (put n npos buf ∷ ns, if length n == npos + length buf then 1 else 0)
    else (rest >>= λ r. ok (put n npos (take ncap buf) ∷ r.0, r.1 + 1))

-- ByteArray::write(buf, size), where size is the length of the list.
pub write : List ℕ → ByteArray → Result ByteArray
write buf b =
    if length buf == 0
    then ok b
    else (let b' = add_capacity (length buf) b in
        write_nodes (drop b'.cur b'.nodes) (b'.position % b'.base_size) buf >>= λ r.
        let position' = b'.position + length buf in
        ok (record b' {
          nodes = take b'.cur b'.nodes ++ r.0;
          cur = b'.cur + r.1;
          position = position';
          size = if ltb b'.size position' then position' else b'.size;
        }))

-- The bytes [i, i + k) of a memory.
abbrev pub slice : ℕ → ℕ → List ℕ → List ℕ
slice i k xs = take k (drop i xs)

-- The loop of read from the node m_cur on. m_cur->size is read before the loop, also if size is 0.
unfoldable pub read_nodes : List (List ℕ) → ℕ → ℕ → Result (List ℕ × ℕ)
read_nodes [] npos size = undefined
read_nodes (n ∷ ns) npos size =
    let ncap = length n - npos in
    let rest = read_nodes ns 0 (size - ncap) in
    if size == 0
    then ok ([], 0)
    else if leb size ncap
    then ok (slice npos size n, if length n == npos + size then 1 else 0)
    else (rest >>= λ r. ok (slice npos ncap n ++ r.0, r.1 + 1))

-- ByteArray::read(buf, size): what it puts into buf, and the new state.
pub read : ℕ → ByteArray → Result (List ℕ × ByteArray)
read size b =
    if ltb (get_read_size b) size
    then out_of_range
    else (read_nodes (drop b.cur b.nodes) (b.position % b.base_size) size >>= λ r.
        ok (r.0, record b { position = b.position + size; cur = b.cur + r.1 }))

-- ByteArray::read(buf, size, position) const. It starts at m_cur, whatever the position.
pub read_at : ℕ → ℕ → ByteArray → Result (List ℕ)
read_at size position b =
    if ltb ((b.size + 2 ^ 64 - position) % 2 ^ 64) size
    then out_of_range
    else (read_nodes (drop b.cur b.nodes) (position % b.base_size) size >>= λ r. ok r.0)

-- The loop of setPosition: how far m_cur moves from m_root.
unfoldable pub seek : List (List ℕ) → ℕ → Result ℕ
seek [] v = undefined
seek (n ∷ ns) v =
    let rest = seek ns (v - length n) in
    if ltb (length n) v then (rest >>= λ k. ok (k + 1)) else ok (if v == length n then 1 else 0)

-- ByteArray::setPosition(v)
pub set_position : ℕ → ByteArray → Result ByteArray
set_position v b =
    if ltb b.capacity v
    then out_of_range
    else (seek b.nodes v >>= λ k.
        ok (record b { position = v; size = if ltb b.size v then v else b.size; cur = k }))

-- ByteArray::clear(): only the root node stays.
pub clear : ByteArray → ByteArray
clear b = record b {
  position = 0;
  size = 0;
  capacity = b.base_size;
  nodes = take 1 b.nodes;
  cur = 0;
}

-- ByteArray::toString()
pub to_string : ByteArray → Result (List ℕ)
unfolding read_at
to_string b = if get_read_size b == 0 then ok [] else read_at (get_read_size b) b.position b
