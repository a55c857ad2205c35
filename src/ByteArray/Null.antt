-- ===== src/ByteArray/Null.antt =====
-- Where the code goes wrong at the ends of the blocks.
use c.Prelude.{ℕ, ◌-◌, ◌≤◌, ◌≡◌, refl, false, List, [], ◌∷◌, ltb, length, drop, length-drop, arith}
use c.ByteArray.{ByteArray, undefined, read, read_nodes}
use c.ByteArray.Valid.{Valid}

-- On a valid array whose position is its capacity, a read of no bytes dereferences the null
-- pointer m_cur.
pub read-undefined : (b : ByteArray) → Valid b → b.position ≡ b.capacity → read 0 b ≡ undefined
unfolding read read_nodes
read-undefined b v e = rw (not_beyond, at_end) refl
  where
    not_beyond : ltb (b.size - b.position) 0 ≡ false
    not_beyond = ground arith

    past : length b.nodes ≤ b.cur
    past = grind (arith, v.at_cur, v.counted, v.block)

    at_end : drop b.cur b.nodes ≡ []
    at_end = nothing (drop b.cur b.nodes) (omega (arith, length-drop b.cur b.nodes, past))
      where
        nothing : (xs : List (List ℕ)) → length xs ≡ 0 → xs ≡ []
        nothing [] h = refl
        nothing (x ∷ xs) h = absurd (omega arith)
