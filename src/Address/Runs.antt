-- ===== src/Address/Runs.antt =====
-- skt/address/address.cpp: the theorems at concrete addresses and hosts.
use learn_web.Common.{◌+◌, ◌-◌, ◌*◌, ◌^◌, ◌≡◌, refl, arith, some, [], ◌∷◌}
use learn_web.Common.Outcome.{ok, ◌>>=◌}
use learn_web.Endian.{little, byteswap_on_little_endian, byteswap, word_of}
use learn_web.Http.Texts.{codes, decimal}
use learn_web.Address.Defs.{
  IPv4Address, ipv4_address, broadcast_address, network_address, subnet_mask6, insert, address_less,
  split_host, in_brackets, count_bytes,
}
use learn_web.Address.Networks.{broadcast_address_lem, network_address_lem}
use learn_web.Address.Masks6.{bit_of, subnet_mask6_lem}
use learn_web.Address.Ones.{ones, count_bytes_lem}
use learn_web.Address.Order.{lex_less, address_less_lem}
use learn_web.Address.Hosts.{host_text, split_host-host_text, split_host_colons}

-- 192.168.1.10:80
abbrev an_address : IPv4Address
an_address = ipv4_address little 0xc0a8010a 80

insert_run : insert little an_address ≡ codes "192.168.1.10:80"
unfolding insert ipv4_address decimal byteswap_on_little_endian byteswap word_of
insert_run = refl

broadcast_address_example :
    broadcast_address little 24 (ipv4_address little (10 + 0xc0a801 * 2 ^ (32 - 24)) 80)
    ≡ ok (some (ipv4_address little (2 ^ (32 - 24) - 1 + 0xc0a801 * 2 ^ (32 - 24)) 80))
broadcast_address_example =
    broadcast_address_lem little 24 10 0xc0a801 80 (omega arith) (omega arith) (omega arith)

network_address_example :
    network_address little 24 (ipv4_address little (10 + 0xc0a801 * 2 ^ (32 - 24)) 80)
    ≡ ok (some (ipv4_address little 10 80))
network_address_example =
    network_address_lem little 24 10 0xc0a801 80 (omega arith) (omega arith) (omega arith)

split_host-host_text_example :
    split_host (host_text (codes "fe80::1") (codes "80")) ≡ (codes "fe80::1", some (codes "80"))
split_host-host_text_example = split_host-host_text 102 (codes "e80::1") (codes "80") refl refl refl

split_host_colons_example : split_host (codes "fe80::1") ≡ (codes "fe80::1", some (codes "::1"))
unfolding in_brackets
split_host_colons_example = split_host_colons (codes "fe80") (codes ":1") refl refl refl

address_less_example : address_less (2 ∷ 3 ∷ []) (2 ∷ []) ≡ lex_less (2 ∷ 3 ∷ []) (2 ∷ [])
address_less_example = address_less_lem (2 ∷ 3 ∷ []) (2 ∷ [])

subnet_mask6_example : (subnet_mask6 64 >>= λ m. ok (bit_of m.s6_addr 63)) ≡ ok 1
subnet_mask6_example = subnet_mask6_lem 64 63

count_bytes_example : count_bytes 9 0xf0 0 ≡ ok (0 + ones 8 0xf0)
count_bytes_example = count_bytes_lem 8 9 0xf0 0 (omega arith) (omega arith)
