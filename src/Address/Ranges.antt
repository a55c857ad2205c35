-- ===== src/Address/Ranges.antt =====
-- The block of addresses with a common prefix: CreateMask, broadcastAddress, networdAddress and subnetMask.
use native.Mathlib.Nat.{pow-le-pow_right, one-le-pow, mod-eq_of_lt, div-add-mod, mul_comm}
use c.Prelude.{ℕ, ◌+◌, ◌-◌, ◌*◌, ◌/◌, ◌%◌, ◌^◌, ◌≤◌, ◌≡◌, refl, arith, some, ltb, leb, false}
use c.Prelude.Outcome.{done}
use c.Address.{
  IPv4Address, create_mask, broadcast_address, netword_address, subnet_mask, af_inet, complement,
}
use Prim.Native.Nat.{bit_or}
use c.Address.Masks.{bit_and-mask, bit_or-mask}

-- An int holds 1 << (w - bits).
pub create_mask_lem :
    (w bits : ℕ) → bits ≤ w → w ≤ bits + 30 → create_mask w bits ≡ done (2 ^ (w - bits) - 1)
unfolding create_mask
create_mask_lem w bits p q =
    let low : ltb w bits ≡ false = ground arith in
    let high : leb 31 (w - bits) ≡ false = ground arith in
    let small : 2 ^ (w - bits) ≤ 2 ^ w = pow-le-pow_right (omega arith) (omega arith) in
    let one : 1 ≤ 2 ^ (w - bits) = one-le-pow (w - bits) 2 (omega arith) in
    let kept : (2 ^ (w - bits) - 1) % 2 ^ w ≡ 2 ^ (w - bits) - 1 = mod-eq_of_lt (omega arith) in
    rw (low, high, kept) refl

low_prefix : (bits : ℕ) → bits ≤ 32 → ltb 32 bits ≡ false
low_prefix bits h = ground arith

-- The last address of the block of 2 ^ k that has the address n.
unfoldable pub last_of_block : ℕ → ℕ → ℕ
last_of_block k n = n / 2 ^ k * 2 ^ k + (2 ^ k - 1)

pub bit_or-last_of_block : (k n : ℕ) → bit_or n (2 ^ k - 1) ≡ last_of_block k n
unfolding last_of_block
bit_or-last_of_block k n =
    omega (arith, bit_or-mask k n, div-add-mod n (2 ^ k), mul_comm (n / 2 ^ k) (2 ^ k))

pub broadcast_address_lem :
    (prefix_len : ℕ)
    → 2 ≤ prefix_len
    → prefix_len ≤ 32
    → (a : IPv4Address)
    → broadcast_address prefix_len a
      ≡ done (some (record a { address = last_of_block (32 - prefix_len) a.address }))
unfolding broadcast_address
broadcast_address_lem prefix_len p q a =
    rw
      (
        low_prefix prefix_len q,
        create_mask_lem 32 prefix_len q (omega arith),
        bit_or-last_of_block (32 - prefix_len) a.address,
      )
      refl

pub netword_address_lem :
    (prefix_len : ℕ)
    → 2 ≤ prefix_len
    → prefix_len ≤ 32
    → (a : IPv4Address)
    → netword_address prefix_len a
      ≡ done (some (record a { address = a.address % 2 ^ (32 - prefix_len) }))
unfolding netword_address
netword_address_lem prefix_len p q a =
    rw
      (
        low_prefix prefix_len q,
        create_mask_lem 32 prefix_len q (omega arith),
        bit_and-mask (32 - prefix_len) a.address,
      )
      refl

pub subnet_mask_lem :
    (prefix_len : ℕ)
    → 2 ≤ prefix_len
    → prefix_len ≤ 32
    → subnet_mask prefix_len
      ≡ done (record { family = af_inet; port = 0; address = 2 ^ 32 - 2 ^ (32 - prefix_len) })
unfolding subnet_mask
subnet_mask_lem prefix_len p q =
    let one : 1 ≤ 2 ^ (32 - prefix_len) = one-le-pow (32 - prefix_len) 2 (omega arith) in
    let left : complement 32 (2 ^ (32 - prefix_len) - 1) ≡ 2 ^ 32 - 2 ^ (32 - prefix_len) =
      omega arith in
    rw (create_mask_lem 32 prefix_len q (omega arith), left) refl

-- For a prefix of 2 to 32 bits and an IPv4 address: broadcastAddress returns the last address of the
-- block of 2 ^ (32 - prefix_len) addresses that it is in, networdAddress its number in that block,
-- counted from 0, which is not the first address of the block, and subnetMask the bits of the prefix.
-- The port stays.
pub broadcast_address-netword_address :
    (prefix_len : ℕ)
    → 2 ≤ prefix_len
    → prefix_len ≤ 32
    → (a : IPv4Address)
    → (broadcast_address prefix_len a
        ≡ done (some (record a { address = last_of_block (32 - prefix_len) a.address })))
      × (netword_address prefix_len a
          ≡ done (some (record a { address = a.address % 2 ^ (32 - prefix_len) })))
      × (subnet_mask prefix_len
          ≡ done (record { family = af_inet; port = 0; address = 2 ^ 32 - 2 ^ (32 - prefix_len) }))
broadcast_address-netword_address prefix_len p q a = (
  broadcast_address_lem prefix_len p q a,
  netword_address_lem prefix_len p q a,
  subnet_mask_lem prefix_len p q,
)
