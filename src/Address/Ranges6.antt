-- ===== src/Address/Ranges6.antt =====
-- The blocks of IPv6 addresses: a byte of the 16 is split by the prefix.
use Prim.Native.Nat.{bit_or, bit_and}
use c.Prelude.{
  ℕ, zero, suc, ◌+◌, ◌-◌, ◌/◌, ◌%◌, ◌^◌, ◌≡◌, refl, sym, ap, ◌∙◌, arith, List, [], ◌∷◌, ◌++◌,
  length, set, get_or, ◌≤◌, drop, replicate, ltb, true, lt→ltb, length-append,
}
use native.Mathlib.Nat.{one-le-pow}
use c.Prelude.Outcome.{done}
use c.Address.{
  complement, change_byte, fill_from, broadcast_address6, netword_address6, subnet_mask6,
}
use c.Address.Masks.{bit_and-mask}
use c.Address.Ranges.{create_mask_lem, last_of_block, bit_or-last_of_block}

module _ (x : ℕ) (post : List ℕ) where
  set-append : (pre : List ℕ) (v : ℕ) → set (pre ++ x ∷ post) (length pre) v ≡ pre ++ v ∷ post
  set-append [] v = refl
  set-append (p ∷ pre) v = ap (p ∷◌) (set-append pre v)

  get_or-append : (pre : List ℕ) → get_or (pre ++ x ∷ post) (length pre) 0 ≡ x
  get_or-append [] = refl
  get_or-append (p ∷ pre) = get_or-append pre

fill_from-zero : (v : ℕ) (xs : List ℕ) → fill_from 0 v xs ≡ replicate (length xs) v
unfolding fill_from
fill_from-zero v [] = refl
fill_from-zero v (x ∷ xs) = ap (v ∷◌) (fill_from-zero v xs)

fill_from-append :
    (v x : ℕ)
    → (pre post : List ℕ)
    → fill_from (suc (length pre)) v (pre ++ x ∷ post) ≡ pre ++ x ∷ replicate (length post) v
unfolding fill_from
fill_from-append v x [] post = ap (x ∷◌) (fill_from-zero v post)
fill_from-append v x (p ∷ pre) post = ap (p ∷◌) (fill_from-append v x pre post)

fill_rest :
    (v x : ℕ)
    → (pre post : List ℕ)
    → fill_from (length pre + 1) v (pre ++ x ∷ post) ≡ pre ++ x ∷ replicate (length post) v
fill_rest v x pre post =
    let one : length pre + 1 ≡ suc (length pre) = omega arith in
    rw one (fill_from-append v x pre post)

change_byte_lem :
    (f : ℕ → ℕ)
    → (x : ℕ) → (pre post : List ℕ) → length (pre ++ x ∷ post) ≡ 16
    → change_byte (length pre) f (pre ++ x ∷ post) ≡ done (pre ++ f x ∷ post)
unfolding change_byte
change_byte_lem f x pre post h =
    let inside : ltb (length pre) 16 ≡ true =
      lt→ltb (length pre) 16 (omega (arith, h, length-append pre (x ∷ post))) in
    rw (inside, get_or-append x post pre, set-append x post pre (f x)) refl

pub broadcast_address6_lem :
    (prefix_len port x : ℕ)
    → (pre post : List ℕ) → length (pre ++ x ∷ post) ≡ 16
    → prefix_len / 8 ≡ length pre
    → broadcast_address6 prefix_len (record { port = port; address = pre ++ x ∷ post })
      ≡ done (record {
        port = port;
        address = pre ++ last_of_block (8 - prefix_len % 8) x ∷ replicate (length post) 0xff;
      })
unfolding broadcast_address6
broadcast_address6_lem prefix_len port x pre post h e =
    rw
      (
        create_mask_lem 8 (prefix_len % 8) (omega arith) (omega arith),
        e,
        change_byte_lem (λ y. bit_or y (2 ^ (8 - prefix_len % 8) - 1)) x pre post h,
        bit_or-last_of_block (8 - prefix_len % 8) x,
      )
      (ap (λ xs. done (record { port = port; address = xs }))
        (fill_rest 0xff (last_of_block (8 - prefix_len % 8) x) pre post))

pub netword_address6_lem :
    (prefix_len port x : ℕ)
    → (pre post : List ℕ) → length (pre ++ x ∷ post) ≡ 16
    → prefix_len / 8 ≡ length pre
    → netword_address6 prefix_len (record { port = port; address = pre ++ x ∷ post })
      ≡ done (record {
        port = port;
        address = pre ++ x % 2 ^ (8 - prefix_len % 8) ∷ replicate (length post) 0;
      })
unfolding netword_address6
netword_address6_lem prefix_len port x pre post h e =
    rw
      (
        create_mask_lem 8 (prefix_len % 8) (omega arith) (omega arith),
        e,
        change_byte_lem (λ y. bit_and y (2 ^ (8 - prefix_len % 8) - 1)) x pre post h,
        bit_and-mask (8 - prefix_len % 8) x,
      )
      (ap (λ xs. done (record { port = port; address = xs }))
        (fill_rest 0 (x % 2 ^ (8 - prefix_len % 8)) pre post))

abbrev zeros : ℕ → List ℕ
zeros n = replicate n 0

drop-set : (i n v : ℕ) → drop i (set (zeros (i + suc n)) i v) ≡ v ∷ zeros n
drop-set zero n v = let e : 0 + suc n ≡ suc n = omega arith in rw e refl
drop-set (suc i) n v =
    let e : suc i + suc n ≡ suc (i + suc n) = omega arith in rw e (drop-set i n v)

pub subnet_mask6_lem :
    (prefix_len i n : ℕ)
    → i + suc n ≡ 16
    → prefix_len / 8 ≡ i
    → subnet_mask6 prefix_len
      ≡ done (record {
        port = 0;
        address = replicate i 0xff ++ (2 ^ 8 - 2 ^ (8 - prefix_len % 8)) ∷ replicate n 0;
      })
unfolding subnet_mask6 change_byte
subnet_mask6_lem prefix_len i n h e =
    let inside : ltb i 16 ≡ true = lt→ltb i 16 (omega arith) in
    let one : 1 ≤ 2 ^ (8 - prefix_len % 8) = one-le-pow (8 - prefix_len % 8) 2 (omega arith) in
    let byte : complement 8 (2 ^ (8 - prefix_len % 8) - 1) ≡ 2 ^ 8 - 2 ^ (8 - prefix_len % 8) =
      omega arith in
    let rest =
      ap (λ m. drop i (set (zeros m) i (2 ^ 8 - 2 ^ (8 - prefix_len % 8)))) (sym h)
      ∙ drop-set i n (2 ^ 8 - 2 ^ (8 - prefix_len % 8)) in
    rw (create_mask_lem 8 (prefix_len % 8) (omega arith) (omega arith), e, inside, byte, rest) refl

-- For an IPv6 address and a prefix that ends in one of its 16 bytes, the byte x between pre and post:
-- broadcastAddress keeps the bytes before, sets the bits of x behind the prefix, and makes the bytes
-- after it 0xff; networdAddress also keeps the bytes before, takes from x the bits behind the prefix,
-- and makes the bytes after it 0; subnetMask has exactly the bits of the prefix set.
pub broadcast_address6-netword_address6 :
    (prefix_len port x : ℕ)
    → (pre post : List ℕ) → length pre + suc (length post) ≡ 16
    → prefix_len / 8 ≡ length pre
    → (broadcast_address6 prefix_len (record { port = port; address = pre ++ x ∷ post })
        ≡ done (record {
          port = port;
          address = pre ++ last_of_block (8 - prefix_len % 8) x ∷ replicate (length post) 0xff;
        }))
      × (netword_address6 prefix_len (record { port = port; address = pre ++ x ∷ post })
          ≡ done (record {
            port = port;
            address = pre ++ x % 2 ^ (8 - prefix_len % 8) ∷ replicate (length post) 0;
          }))
      × (subnet_mask6 prefix_len
          ≡ done (record {
            port = 0;
            address =
                replicate (length pre) 0xff
                ++ (2 ^ 8 - 2 ^ (8 - prefix_len % 8)) ∷ replicate (length post) 0;
          }))
broadcast_address6-netword_address6 prefix_len port x pre post h e =
    let whole : length (pre ++ x ∷ post) ≡ 16 = length-append pre (x ∷ post) ∙ h in
    (
      broadcast_address6_lem prefix_len port x pre post whole e,
      netword_address6_lem prefix_len port x pre post whole e,
      subnet_mask6_lem prefix_len (length pre) (length post) h e,
    )
