-- ===== src/Loader/RoundTrip.antt =====
-- The keys of the map and the texts of addresses (`ipToUint32`, `uint32ToIP`).
use rate_limiter.Base.{
  ℕ, ◌+◌, ◌*◌, ◌/◌, ◌%◌, ◌<◌, ◌^◌, ◌≡◌, ◌≢◌, ◌∙◌, ap, sym, Option-cases, inl, inr, some, [], ◌∷◌,
  ◌++◌, Bytes, All, ok, arith,
}
use rate_limiter.Net.{be_u32, put_be_u32, parse_ip, print_ipv4, v4_in_v6_prefix}
use rate_limiter.Net.RoundTrip.{parse_ip-print_ipv4, to4-mapped}
use rate_limiter.Net.Canonical.{parse_ip-IsPrint}
use rate_limiter.Loader.Address.{ip_to_uint32, uint32_to_ip}

be_u32-put_be_u32 : (n : ℕ) → n < 2 ^ 32 → be_u32 (put_be_u32 n) ≡ n
unfolding be_u32 put_be_u32
be_u32-put_be_u32 n h = omega arith

pub ip_to_uint32-print_ipv4 :
    (a b c d : ℕ)
    → a < 256
    → b < 256
    → c < 256
    → d < 256
    → ip_to_uint32 (print_ipv4 a b c d) ≡ ok (be_u32 (a ∷ b ∷ c ∷ d ∷ []))
unfolding ip_to_uint32
ip_to_uint32-print_ipv4 a b c d ha hb hc hd =
    ground (arith, parse_ip-print_ipv4 a b c d ha hb hc hd, to4-mapped a b c d)

-- Every key prints as an address that is read back as the same key.
pub ip_to_uint32-uint32_to_ip : (n : ℕ) → n < 2 ^ 32 → ip_to_uint32 (uint32_to_ip n) ≡ ok n
unfolding uint32_to_ip
ip_to_uint32-uint32_to_ip n h =
    ip_to_uint32-print_ipv4 (n / 2 ^ 24 % 256) (n / 2 ^ 16 % 256) (n / 2 ^ 8 % 256) (n % 256)
      (omega arith) (omega arith) (omega arith) (omega arith)
    ∙ ap ok (be_u32-put_be_u32 n h)

-- The print of the key that four bytes make is the print of the bytes.
uint32_to_ip-be_u32 :
    (a b c d : ℕ)
    → a < 256
    → b < 256
    → c < 256
    → d < 256
    → uint32_to_ip (be_u32 (a ∷ b ∷ c ∷ d ∷ [])) ≡ print_ipv4 a b c d
unfolding uint32_to_ip be_u32
uint32_to_ip-be_u32 a b c d ha hb hc hd =
    let n = a * 2 ^ 24 + b * 2 ^ 16 + c * 2 ^ 8 + d in
    let ea : n / 2 ^ 24 % 256 ≡ a = omega arith in
    let eb : n / 2 ^ 16 % 256 ≡ b = omega arith in
    let ec : n / 2 ^ 8 % 256 ≡ c = omega arith in
    let ed : n % 256 ≡ d = omega arith in λ i. print_ipv4 (ea i) (eb i) (ec i) (ed i)

be_u32-lt :
    (a b c d : ℕ) → a < 256 → b < 256 → c < 256 → d < 256 → be_u32 (a ∷ b ∷ c ∷ d ∷ []) < 2 ^ 32
unfolding be_u32
be_u32-lt a b c d ha hb hc hd = omega arith

key_of_parsed :
    (s : Bytes) (a b c d : ℕ) {n : ℕ}
    → parse_ip s ≡ some (v4_in_v6_prefix ++ (a ∷ b ∷ c ∷ d ∷ []))
    → ip_to_uint32 s ≡ ok n
    → n ≡ be_u32 (a ∷ b ∷ c ∷ d ∷ [])
unfolding ip_to_uint32
key_of_parsed s a b c d h e = ground (arith, to4-mapped a b c d)

-- An address text without a colon that is accepted is the text that its key prints as, so the list
-- of blocks shows an address as it was posted. The key is a 32-bit word.
pub uint32_to_ip-ip_to_uint32 :
    (s : Bytes) {n : ℕ}
    → All (λ c. c ≢ b':') s
    → ip_to_uint32 s ≡ ok n
    → (uint32_to_ip n ≡ s) × (n < 2 ^ 32)
uint32_to_ip-ip_to_uint32 s {n} h e = elim (Option-cases (parse_ip s)) [
  | inl bad ↦ absurd (unfold ip_to_uint32 in ground arith)
  | inr (ip, good) ↦
      let (v4, mapped, P) = parse_ip-IsPrint s h good in
      let key : n ≡ be_u32 (P.a ∷ P.b ∷ P.c ∷ P.d ∷ []) =
        key_of_parsed s P.a P.b P.c P.d
          (good ∙ ap some (mapped ∙ ap (λ v. v4_in_v6_prefix ++ v) P.fields)) e in
      (
        ap uint32_to_ip key
            ∙ uint32_to_ip-be_u32 P.a P.b P.c P.d P.a_byte P.b_byte P.c_byte P.d_byte
            ∙ sym P.printed,
        rw key (be_u32-lt P.a P.b P.c P.d P.a_byte P.b_byte P.c_byte P.d_byte),
      )
]
