-- ===== src/Address/Tests.antt =====
-- Tests and examples of the addresses.
use c.Prelude.{◌-◌, ◌^◌, [], ◌∷◌, ◌≡◌, refl, arith, some, replicate}
use mathlib.Core.Option.{map as map_option}
use c.Prelude.Outcome.{done, undefined}
use c.Prelude.Text.{codes, decimal, decimal_loop}
use c.Address.{
  IPv4Address, ipv4, broadcast_address, netword_address, subnet_mask, create_mask, change_byte,
  count_loop, ipv4_insert, subnet_mask6, netword_address6, broadcast_address6, af_inet,
}
use c.Address.Ranges.{broadcast_address-netword_address, last_of_block}
use c.Address.Ranges6.{broadcast_address6-netword_address6}
use c.Address.Unix.{get_path, unix_address, name_length, needed, printed, get_path-unix_address}

-- 192.168.1.130
abbrev some_host : IPv4Address
some_host = ipv4 0xC0A80182 80

some_host-text : ipv4_insert some_host ≡ codes "192.168.1.130:80"
unfolding ipv4_insert decimal decimal_loop ipv4
some_host-text = refl

-- The value is not the network's address, 192.168.1.0, but the host's number in it.
netword_address-host :
    netword_address 24 some_host ≡ done (some (record some_host { address = 130 }))
unfolding netword_address create_mask ipv4
netword_address-host = refl

no_prefix : broadcast_address 0 some_host ≡ undefined
unfolding broadcast_address create_mask ipv4
no_prefix = refl

long_prefix : netword_address6 128 (record { port = 1; address = replicate 16 0 }) ≡ undefined
unfolding netword_address6 create_mask change_byte
long_prefix = refl

mask_bits : count_loop 32 0xFFFFFF00 ≡ 24
unfolding count_loop
mask_bits = refl

no_path : map_option get_path (unix_address []) ≡ some (codes "\\0")
unfolding get_path unix_address name_length
no_path = refl

broadcast_address-netword_address_example :
    (broadcast_address 24 some_host
      ≡ done (some (record some_host { address = last_of_block 8 some_host.address })))
    × (netword_address 24 some_host ≡ done (some (record some_host { address = 130 })))
    × (subnet_mask 24 ≡ done (record { family = af_inet; port = 0; address = 2 ^ 32 - 2 ^ 8 }))
unfolding ipv4
broadcast_address-netword_address_example =
    broadcast_address-netword_address 24 (omega arith) (omega arith) some_host

broadcast_address6-netword_address6_example :
    (broadcast_address6 9 (record { port = 7; address = 0x20 ∷ 0x81 ∷ replicate 14 3 })
      ≡ done (record { port = 7; address = 0x20 ∷ last_of_block 7 0x81 ∷ replicate 14 0xff }))
    × (netword_address6 9 (record { port = 7; address = 0x20 ∷ 0x81 ∷ replicate 14 3 })
        ≡ done (record { port = 7; address = 0x20 ∷ 1 ∷ replicate 14 0 }))
    × (subnet_mask6 9 ≡ done (record { port = 0; address = 0xff ∷ 0x80 ∷ replicate 14 0 }))
broadcast_address6-netword_address6_example =
    broadcast_address6-netword_address6 9 7 0x81 (0x20 ∷ []) (replicate 14 3) refl refl

get_path-unix_address_example :
    map_option get_path (unix_address (0 ∷ codes "name")) ≡ some (codes "\\0name")
unfolding needed printed
get_path-unix_address_example = get_path-unix_address (0 ∷ codes "name") (omega arith)
