-- ===== src/Address/Defs.antt =====
-- skt/address/address.h and address.cpp: IPv4Address, IPv6Address, UnixAddress, the comparison of
-- addresses, and how Address::Lookup takes a host name apart. `order` is the byte order of the host.
use learn_web.Common.{
  ℕ, zero, suc, ◌+◌, ◌-◌, ◌/◌, ◌%◌, ◌^◌, Bool, true, false, ◌&&◌, ◌||◌, Option, none, some, [], ◌∷◌,
  ◌++◌, bit_and, bit_or, length, if◌then◌else◌, ltb, leb, ◌==◌, mem,
}
use learn_web.Common.Outcome.{Outcome, ok, err, ◌>>=◌, out_of_range, out_of_fuel}
use learn_web.Endian.{ByteOrder, byteswap_on_little_endian}
use learn_web.Http.Texts.{Text, codes, decimal}

-- CreateMask<T> of `w` bits. The shift and the subtraction are those of int: a shift of 32 and more,
-- and the subtraction behind a shift of 31, are undefined.
unfoldable pub create_mask : ℕ → ℕ → Outcome ℕ
create_mask w bits =
    if ltb w bits || leb 31 (w - bits) then err out_of_range else ok ((2 ^ (w - bits) - 1) % 2 ^ w)

-- CountBytes
unfoldable pub count_bytes : ℕ → ℕ → ℕ → Outcome ℕ
count_bytes zero value res = err out_of_fuel
count_bytes (suc fuel) value res =
    let rest = count_bytes fuel (bit_and value (value - 1)) (res + 1) in
    if value == 0 then ok res else rest

-- sockaddr_in, with sin_port and s_addr as they stand in it.
pub record IPv4Address : Type 0 where
  pub family : ℕ
  pub sin_port : ℕ
  pub s_addr : ℕ

abbrev pub af_inet : ℕ
af_inet = 2

-- IPv4Address::IPv4Address(address, port)
unfoldable pub ipv4_address : ByteOrder → ℕ → ℕ → IPv4Address
ipv4_address order address port = record {
  family = af_inet;
  sin_port = byteswap_on_little_endian order 2 port;
  s_addr = byteswap_on_little_endian order 4 address;
}

-- IPv4Address::broadcastAddress
unfoldable pub broadcast_address : ByteOrder → ℕ → IPv4Address → Outcome (Option IPv4Address)
broadcast_address order prefix_len a =
    if ltb 32 prefix_len
    then ok none
    else (create_mask 32 prefix_len >>= λ mask.
        ok (some (record a { s_addr = bit_or a.s_addr (byteswap_on_little_endian order 4 mask) })))

-- IPv4Address::networkAddress
unfoldable pub network_address : ByteOrder → ℕ → IPv4Address → Outcome (Option IPv4Address)
network_address order prefix_len a =
    if ltb 32 prefix_len
    then ok none
    else (create_mask 32 prefix_len >>= λ mask.
        ok (some (record a { s_addr = bit_and a.s_addr (byteswap_on_little_endian order 4 mask) })))

-- IPv4Address::subnetMask; `~` of a uint32_t
unfoldable pub subnet_mask : ByteOrder → ℕ → Outcome IPv4Address
subnet_mask order prefix_len = create_mask 32 prefix_len >>= λ mask. ok (record {
  family = af_inet;
  sin_port = 0;
  s_addr = 2 ^ 32 - 1 - byteswap_on_little_endian order 4 mask;
})

-- IPv4Address::getPort and setPort
unfoldable pub get_port : ByteOrder → IPv4Address → ℕ
get_port order a = byteswap_on_little_endian order 2 a.sin_port

unfoldable pub set_port : ByteOrder → ℕ → IPv4Address → IPv4Address
set_port order v a = record a { sin_port = byteswap_on_little_endian order 2 v }

-- IPv4Address::insert
unfoldable pub insert : ByteOrder → IPv4Address → Text
insert order a =
    let addr = byteswap_on_little_endian order 4 a.s_addr in
    decimal (bit_and (addr / 2 ^ 24) 0xff)
    ++ (codes "."
        ++ (decimal (bit_and (addr / 2 ^ 16) 0xff)
            ++ (codes "."
                ++ (decimal (bit_and (addr / 2 ^ 8) 0xff)
                    ++ (codes "."
                        ++ (decimal (bit_and addr 0xff)
                            ++ (codes ":"
                                ++ decimal (byteswap_on_little_endian order 2 a.sin_port))))))))

-- sockaddr_in6, with the sixteen bytes of s6_addr.
pub record IPv6Address : Type 0 where
  pub sin6_port : ℕ
  pub s6_addr : ℕ → ℕ

-- The loop that sets the bytes from `from` on to 0xff.
abbrev filled : ℕ → (ℕ → ℕ) → ℕ → ℕ
filled from bytes i = if leb from i && ltb i 16 then 0xff else bytes i

abbrev at_byte : ℕ → ℕ → (ℕ → ℕ) → ℕ → ℕ
at_byte j b bytes i = if i == j then b else bytes i

-- IPv6Address::broadcastAddress and networkAddress, which differ in the operator.
unfoldable pub fill_host6 : (ℕ → ℕ → ℕ) → ℕ → IPv6Address → Outcome IPv6Address
unfolding create_mask
fill_host6 op prefix_len a =
    let j = prefix_len / 8 in
    if leb 16 j
    then err out_of_range
    else (create_mask 8 (prefix_len % 8) >>= λ mask.
        ok (record a { s6_addr = filled (j + 1) (at_byte j (op (a.s6_addr j) mask) a.s6_addr) }))

unfoldable pub broadcast_address6 : ℕ → IPv6Address → Outcome IPv6Address
broadcast_address6 prefix_len a = fill_host6 bit_or prefix_len a

unfoldable pub network_address6 : ℕ → IPv6Address → Outcome IPv6Address
network_address6 prefix_len a = fill_host6 bit_and prefix_len a

-- IPv6Address::subnetMask
unfoldable pub subnet_mask6 : ℕ → Outcome IPv6Address
subnet_mask6 prefix_len =
    let j = prefix_len / 8 in
    if leb 16 j
    then err out_of_range
    else (create_mask 8 (prefix_len % 8) >>= λ mask. ok (record {
      sin6_port = 0;
      s6_addr = λ i. if ltb i j then 0xff else if i == j then 255 - mask else 0;
    }))

-- A sockaddr_un: the bytes of sun_path that were copied, and m_length.
pub record UnixAddress : Type 0 where
  pub sun_path : Text
  pub m_length : ℕ

-- UnixAddress::UnixAddress(path), none when it throws. sun_path has 108 bytes and stands at offset
-- 2; the terminating zero is copied unless the path starts with one.
unfoldable pub unix_address : Text → Option UnixAddress
unix_address path =
    let abstract : Bool = elim path [ [] ↦ false | c ∷ cs ↦ c == 0 ] in
    let bytes = if abstract then path else path ++ (0 ∷ []) in
    if ltb 108 (length bytes)
    then none
    else some (record { sun_path = bytes; m_length = length bytes + 2 })

-- The text before the first zero byte.
abbrev pub c_text : Text → Text
c_text [] = []
c_text (c ∷ cs) = let rest = c_text cs in if c == 0 then [] else c ∷ rest

-- The first `n` bytes, with the zeros behind those that were copied.
abbrev pub leading : ℕ → Text → Text
leading zero cs = []
leading (suc n) [] = 0 ∷ leading n []
leading (suc n) (c ∷ cs) = c ∷ leading n cs

-- UnixAddress::insert
unfoldable pub insert_unix : UnixAddress → Text
insert_unix a = elim a.sun_path [
  | [] ↦ []
  | c ∷ cs ↦
      if ltb 2 a.m_length && c == 0
      then codes "\\0" ++ leading (a.m_length - 3) cs
      else c_text (c ∷ cs)
]

-- `memcmp(a, b, n) < 0` and `== 0` on the first `n` bytes.
unfoldable pub memcmp_less : ℕ → Text → Text → Bool
memcmp_less zero a b = false
memcmp_less (suc n) [] b = false
memcmp_less (suc n) (x ∷ a) [] = false
memcmp_less (suc n) (x ∷ a) (y ∷ b) =
    let rest = memcmp_less n a b in if x == y then rest else ltb x y

-- Address::operator< and operator== on the bytes that getAddr and getAddrLen give.
unfoldable pub address_less : Text → Text → Bool
address_less a b =
    let n = if leb (length a) (length b) then length a else length b in
    if memcmp_less n a b
    then true
    else if memcmp_less n b a
    then false
    else ltb (length a) (length b)

-- `memchr`: the text before the first such byte, and the text behind it.
unfoldable pub break_at : ℕ → Text → Option (Text × Text)
break_at c [] = none
break_at c (d ∷ ds) =
    let rest = break_at c ds in
    if d == c then some ([], ds) else elim rest [ none ↦ none | some p ↦ some (d ∷ p.0, p.1) ]

abbrev pub none_of : Text → Bool
none_of [] = true
none_of (c ∷ cs) = false

-- Behind the closing bracket: the service when a colon follows.
abbrev behind_bracket : Text → Option Text
behind_bracket [] = none
behind_bracket (c ∷ cs) = if c == 58 then some cs else none

-- The node in brackets, with the service behind it; an empty node when there is none.
unfoldable pub in_brackets : Text → Text × Option Text
in_brackets [] = ([], none)
in_brackets (c ∷ cs) =
    if c == 91
    then elim (break_at 93 cs) [ none ↦ ([], none) | some p ↦ (p.0, behind_bracket p.1) ]
    else ([], none)

-- The node before the only colon, with the service behind it. With a second colon the node is left
-- empty, and `service` stays at the first colon.
unfoldable pub at_colon : Text → Text × Option Text
at_colon host = elim (break_at 58 host) [
  | none ↦ ([], none)
  | some p ↦ if mem 58 p.1 then ([], some (58 ∷ p.1)) else (p.0, some p.1)
]

abbrev pub bracketed_or : Text × Option Text → Text × Option Text → Text × Option Text
bracketed_or bracketed other = if none_of bracketed.0 then other else bracketed

abbrev pub or_whole : Text → Text × Option Text → Text × Option Text
or_whole host split = (if none_of split.0 then host else split.0, split.1)

-- What Address::Lookup gives to getaddrinfo for a host.
unfoldable pub split_host : Text → Text × Option Text
split_host host = or_whole host (bracketed_or (in_brackets host) (at_colon host))
