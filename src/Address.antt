-- ===== src/Address.antt =====
-- address.h, address.cc: the addresses, but for the look-ups. The bytes of an IPv4 address, in network order,
-- are kept as the number that byteswapOnLittleEndian makes of them, on machines of either byte order;
-- & and | on the bytes are those on the numbers. A port is kept so, too.
pub mod Masks
pub mod Order
pub mod Ranges
pub mod Ranges6
pub mod Unix
mod Tests
use Prim.Native.Nat.{bit_and, bit_or, min}
use c.Prelude.{
  ℕ, zero, suc, ◌+◌, ◌-◌, ◌*◌, ◌/◌, ◌%◌, ◌^◌, Bool, true, false, not, ◌&&◌, ◌||◌, List, [], ◌∷◌,
  ◌++◌, Option, none, some, ltb, leb, ◌==◌, if◌then◌else◌, length, take, drop, set, get_or,
  replicate,
}
use c.Prelude.Outcome.{Outcome, done, undefined, ◌>>=◌}
use c.Prelude.Text.{String, codes, decimal, decimal_loop, c_str, same}

-- CreateMask<T>(bits), for a T of w bits. The shift and the subtraction are those of an int of 32 bits.
unfoldable pub create_mask : ℕ → ℕ → Outcome ℕ
create_mask w bits =
    if ltb w bits || leb 31 (w - bits) then undefined else done ((2 ^ (w - bits) - 1) % 2 ^ w)

-- CountBytes(value), with as many rounds as there are bits.
unfoldable pub count_loop : ℕ → ℕ → ℕ
count_loop zero value = 0
count_loop (suc n) value =
    let rest = count_loop n (bit_and value (value - 1)) in if value == 0 then 0 else suc rest

-- memcmp: the sign of the first difference.
pub data Sign : Type 0 where
  below : Sign
  equal : Sign
  above : Sign

unfoldable pub memcmp : List ℕ → List ℕ → ℕ → Sign
memcmp (x ∷ xs) (y ∷ ys) (suc n) =
    let rest = memcmp xs ys n in if ltb x y then below else if ltb y x then above else rest
memcmp _ _ _ = equal

-- The tests of operator< and == on the result of memcmp: result < 0, or result = 0 and the other test.
abbrev pub below_or : Sign → Bool → Bool
below_or below shorter = true
below_or above shorter = false
below_or equal shorter = shorter

abbrev pub is_equal : Sign → Bool
is_equal equal = true
is_equal below = false
is_equal above = false

-- Address::operator<, == and != on the bytes of the two sockaddr.
unfoldable pub address_less : List ℕ → List ℕ → Bool
address_less a b = below_or (memcmp a b (min (length a) (length b))) (ltb (length a) (length b))

unfoldable pub address_equal : List ℕ → List ℕ → Bool
address_equal a b = length a == length b && is_equal (memcmp a b (length a))

abbrev pub address_differs : List ℕ → List ℕ → Bool
address_differs a b = not (address_equal a b)

pub record IPv4Address : Type 0 where
  pub family : ℕ
  pub port : ℕ
  pub address : ℕ

abbrev pub af_inet : ℕ
af_inet = 2

-- IPv4Address::IPv4Address(address, port)
unfoldable pub ipv4 : ℕ → ℕ → IPv4Address
ipv4 address port = record { family = af_inet; port = port; address = address }

-- The text of an IPv4Address.
unfoldable pub ipv4_insert : IPv4Address → String
ipv4_insert a =
    decimal (bit_and (a.address / 2 ^ 24) 0xff)
    ++ codes "."
    ++ decimal (bit_and (a.address / 2 ^ 16) 0xff)
    ++ codes "."
    ++ decimal (bit_and (a.address / 2 ^ 8) 0xff)
    ++ codes "."
    ++ decimal (bit_and a.address 0xff)
    ++ codes ":"
    ++ decimal a.port

-- none is nullptr.
unfoldable pub broadcast_address : ℕ → IPv4Address → Outcome (Option IPv4Address)
broadcast_address prefix_len a =
    if ltb 32 prefix_len
    then done none
    else (create_mask 32 prefix_len >>= λ mask.
        done (some (record a { address = bit_or a.address mask })))

unfoldable pub netword_address : ℕ → IPv4Address → Outcome (Option IPv4Address)
netword_address prefix_len a =
    if ltb 32 prefix_len
    then done none
    else (create_mask 32 prefix_len >>= λ mask.
        done (some (record a { address = bit_and a.address mask })))

-- ~ of a number of w bits.
abbrev pub complement : ℕ → ℕ → ℕ
complement w n = 2 ^ w - 1 - n

unfoldable pub subnet_mask : ℕ → Outcome IPv4Address
subnet_mask prefix_len = create_mask 32 prefix_len >>= λ mask.
    done (record { family = af_inet; port = 0; address = complement 32 mask })

abbrev pub set_port : ℕ → IPv4Address → IPv4Address
set_port v a = record a { port = v }

-- IPv6Address: the 16 bytes of s6_addr.
pub record IPv6Address : Type 0 where
  pub port : ℕ
  pub address : List ℕ

-- s6_addr[from .. 16) = v; the loops count up.
unfoldable pub fill_from : ℕ → ℕ → List ℕ → List ℕ
fill_from from v [] = []
fill_from zero v (x ∷ xs) = v ∷ fill_from 0 v xs
fill_from (suc from) v (x ∷ xs) = x ∷ fill_from from v xs

-- The byte at an index of s6_addr is changed; an index above 15 is out of range.
unfoldable pub change_byte : ℕ → (ℕ → ℕ) → List ℕ → Outcome (List ℕ)
change_byte i f xs = if ltb i 16 then done (set xs i (f (get_or xs i 0))) else undefined

unfoldable pub broadcast_address6 : ℕ → IPv6Address → Outcome IPv6Address
broadcast_address6 prefix_len a = create_mask 8 (prefix_len % 8) >>= λ mask.
    change_byte (prefix_len / 8) (λ x. bit_or x mask) a.address >>= λ xs.
    done (record a { address = fill_from (prefix_len / 8 + 1) 0xff xs })

unfoldable pub netword_address6 : ℕ → IPv6Address → Outcome IPv6Address
netword_address6 prefix_len a = create_mask 8 (prefix_len % 8) >>= λ mask.
    change_byte (prefix_len / 8) (λ x. bit_and x mask) a.address >>= λ xs.
    done (record a { address = fill_from (prefix_len / 8 + 1) 0 xs })

unfoldable pub subnet_mask6 : ℕ → Outcome IPv6Address
subnet_mask6 prefix_len = create_mask 8 (prefix_len % 8) >>= λ mask.
    change_byte (prefix_len / 8) (λ x. complement 8 mask) (replicate 16 0) >>= λ xs.
    done
      (record { port = 0; address = replicate (prefix_len / 8) 0xff ++ drop (prefix_len / 8) xs })
