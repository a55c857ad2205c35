-- ===== src/ByteArray/Valid.antt =====
-- The invariant of a ByteArray, and that addCapacity keeps it and makes room.
use c.Prelude.{
  ℕ, zero, suc, ◌+◌, ◌-◌, ◌*◌, ◌≤◌, ◌<◌, ◌≡◌, refl, sym, ◌∙◌, ◌⊎◌, ◌||◌, true, false, List, [], ◌∷◌,
  ◌++◌, leb, ◌==◌, ==_iff, if◌then◌else◌, length, take, drop, replicate, length-append,
  length-replicate, arith, Bool-cases, inl, inr,
}
use mathlib.Core.List.{append-nil}
use native.Mathlib.Nat.{div-add-mod, mod-lt}
use c.ByteArray.{ByteArray, add_capacity, blocks, new_node, init, get_capacity}
use c.ByteArray.Bytes.{concat, concat-append}
use c.ByteArray.Nodes.{Uniform, length-concat, Moves}

pub record Valid (b : ByteArray) : Type 0 where
  pub block : 0 < b.base_size
  pub uniform : Uniform b.base_size b.nodes
  pub root : 0 < length b.nodes
  pub counted : b.capacity ≡ length b.nodes * b.base_size
  -- m_cur is the node of the byte at m_position; at the very end it is null.
  pub at_cur : Moves b.base_size b.position b.cur
  pub within : b.position ≤ b.size
  pub bounded : b.size ≤ b.capacity

pub init-Valid : (junk base : ℕ) → 0 < base → Valid (init junk base)
unfolding init
init-Valid junk base h = record {
  block = h;
  uniform = (length-replicate base junk, tt);
  root = omega arith;
  counted = omega arith;
  at_cur = omega arith;
  within = omega arith;
  bounded = omega arith;
}

pub Uniform-append :
    (base : ℕ) (ms ns : List (List ℕ)) → Uniform base ms → Uniform base ns → Uniform base (ms ++ ns)
Uniform-append base [] ns u v = v
Uniform-append base (m ∷ ms) ns u v = (u.0, Uniform-append base ms ns u.1 v)

Uniform-replicate : (base junk k : ℕ) → Uniform base (replicate k (new_node junk base))
Uniform-replicate base junk zero = tt
Uniform-replicate base junk (suc k) = (length-replicate base junk, Uniform-replicate base junk k)

pub Uniform-drop : (base k : ℕ) (ns : List (List ℕ)) → Uniform base ns → Uniform base (drop k ns)
Uniform-drop base zero ns u = u
Uniform-drop base (suc k) [] u = u
Uniform-drop base (suc k) (n ∷ ns) u = Uniform-drop base k ns u.1

pub Uniform-take : (base k : ℕ) (ns : List (List ℕ)) → Uniform base ns → Uniform base (take k ns)
Uniform-take base zero ns u = tt
Uniform-take base (suc k) [] u = u
Uniform-take base (suc k) (n ∷ ns) u = (u.0, Uniform-take base k ns u.1)

-- The new blocks hold what was missing, and less than one block more.
blocks_enough :
    (size base : ℕ)
    → 0 < base
    → (size ≤ blocks size base * base) × (blocks size base * base < size + base)
blocks_enough size base h =
    let e = div-add-mod (size + base - 1) base in
    let l = mod-lt (size + base - 1) h in grind (arith, e, l)

-- The memory of an array.
abbrev pub memory : ByteArray → List ℕ
memory b = concat b.nodes

pub length-memory : (b : ByteArray) → Valid b → length (memory b) ≡ b.capacity
length-memory b v = length-concat b.base_size b.nodes v.uniform ∙ sym v.counted

null_at_end : (b : ByteArray) → Valid b → get_capacity b ≡ 0 → b.cur ≡ length b.nodes
null_at_end b v e = grind (arith, v.at_cur, v.counted, v.within, v.bounded, v.block)

-- What addCapacity(size) promises.
pub record IsGrown (size : ℕ) (b b' : ByteArray) (extra : List ℕ) : Type 0 where
  pub valid : Valid b'
  pub room : b'.position + size ≤ b'.capacity
  pub kept : memory b' ≡ memory b ++ extra
  pub same : b' ≡ record b { nodes = b'.nodes; capacity = b'.capacity }
  pub frugal : (b'.capacity ≡ b.capacity) ⊎ (b'.capacity < b.position + size + b.base_size)

abbrev grown : ℕ → ByteArray → ByteArray
grown size b =
    let count = blocks (size - get_capacity b) b.base_size in
    record b {
      nodes = b.nodes ++ replicate count (new_node b.junk b.base_size);
      capacity = b.capacity + count * b.base_size;
      cur = if get_capacity b == 0 then length b.nodes else b.cur;
    }

grown-cur : (size : ℕ) (b : ByteArray) → Valid b → (grown size b).cur ≡ b.cur
grown-cur size b v = elim (Bool-cases (get_capacity b == 0)) [
  | inl e ↦ rw e (sym (null_at_end b v ((==_iff _ 0).0 e)))
  | inr e ↦ rw e refl
]

grown-Valid : (size : ℕ) (b : ByteArray) → Valid b → Valid (grown size b)
grown-Valid size b v = record {
  block = v.block;
  uniform = Uniform-append b.base_size b.nodes _ v.uniform (Uniform-replicate b.base_size b.junk _);
  root = omega (arith, v.root, length-append b.nodes more);
  counted = grind (
    arith,
    length-append b.nodes more,
    length-replicate count (new_node b.junk b.base_size),
    v.counted,
  );
  at_cur = rw (grown-cur size b v) v.at_cur;
  within = v.within;
  bounded = omega (arith, v.bounded);
}
  where
    count : ℕ
    count = blocks (size - get_capacity b) b.base_size

    more : List (List ℕ)
    more = replicate count (new_node b.junk b.base_size)

grown-IsGrown :
    (size : ℕ) (b : ByteArray)
    → Valid b
    → get_capacity b < size
    → IsGrown size b (grown size b) (
        concat
          (replicate (blocks (size - get_capacity b) b.base_size) (new_node b.junk b.base_size)))
grown-IsGrown size b v over =
    let (lo, hi) = blocks_enough (size - get_capacity b) b.base_size v.block in
    record {
      valid = grown-Valid size b v;
      room = omega (arith, lo, v.within, v.bounded);
      kept = concat-append b.nodes _;
      same = rw (grown-cur size b v) refl;
      frugal = inr (omega (arith, hi, v.within, v.bounded));
    }

-- addCapacity keeps a valid array valid and its bytes, makes room for `size` bytes at the
-- position, and takes less than one block more than that needs.
pub add_capacity-IsGrown :
    (size : ℕ) (b : ByteArray)
    → Valid b
    → (extra : List ℕ) × IsGrown size b (add_capacity size b) extra
unfolding add_capacity
add_capacity-IsGrown size b v = elim (Bool-cases (size == 0 || leb size (get_capacity b))) [
  | inl enough ↦ (
    [],
    rw (same_state enough) record {
      valid = v;
      room = ground (arith, enough, v.within, v.bounded);
      kept = sym (append-nil (memory b));
      same = refl;
      frugal = inl refl;
    },
  )
  | inr short ↦
      let (z, l) = both_false short in
      (
        concat
            (replicate (blocks (size - get_capacity b) b.base_size) (new_node b.junk b.base_size)),
        rw (z, l) (grown-IsGrown size b v (ground (arith, l))),
      )
]
  where
    same_state :
        (size == 0 || leb size (get_capacity b)) ≡ true
        → (if size == 0 then b else if leb size (get_capacity b) then b else grown size b) ≡ b
    same_state e = ground (arith, e)

    both_false :
        (size == 0 || leb size (get_capacity b)) ≡ false
        → ((size == 0) ≡ false) × (leb size (get_capacity b) ≡ false)
    both_false e = ground (arith, e)
