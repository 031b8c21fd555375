-- ===== src/Loader/Address.antt =====
-- ebpf/loader/main.go: `ipToUint32` and `uint32ToIP`.
use rate_limiter.Base.{ℕ, none, some, Bytes, Result, ok, err, ◌∷◌, []}
use rate_limiter.Net.{parse_ip, to4, be_u32, put_be_u32, print_ipv4}

-- The two errors of `ipToUint32`, with the text that they quote.
pub data IpError : Type 0 where
  cannot_parse not_ipv4 : Bytes → IpError

unfoldable pub ip_to_uint32 : Bytes → Result IpError ℕ
ip_to_uint32 s = elim (parse_ip s) [
  | none ↦ err (cannot_parse s)
  | some ip ↦ elim (to4 ip) [ none ↦ err (not_ipv4 s) | some ip4 ↦ ok (be_u32 ip4) ]
]

-- `net.IP(b).String()` of a slice of four bytes
abbrev ip_string : Bytes → Bytes
ip_string (a ∷ b ∷ c ∷ d ∷ []) = print_ipv4 a b c d
ip_string _ = []

unfoldable pub uint32_to_ip : ℕ → Bytes
unfolding put_be_u32
uint32_to_ip n = ip_string (put_be_u32 n)
