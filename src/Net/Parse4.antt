-- ===== src/Net/Parse4.antt =====
-- The IPv4 half of `netip.ParseAddr`, and the text of four bytes.
use rate_limiter.Base.{
  ℕ, ◌+◌, ◌-◌, ◌*◌, ◌/◌, ◌%◌, Bool, ◌&&◌, ◌||◌, Option, none, some, List, [], ◌∷◌, ◌++◌, Bytes, ltb,
  leb, ◌==◌, if◌then◌else◌, length,
}

abbrev pub is_digit : ℕ → Bool
is_digit c = leb b'0' c && leb c b'9'

abbrev is_nil : Bytes → Bool
is_nil [] = Bool.true
is_nil (_ ∷ _) = Bool.false

-- One digit of a field: no octet has a leading zero, none is above 255.
abbrev pub push_digit : ℕ → ℕ → ℕ → Option ℕ
push_digit val digits c =
    if (digits == 1) && (val == 0)
    then none
    else if ltb 255 (val * 10 + (c - b'0'))
    then none
    else some (val * 10 + (c - b'0'))

-- The loop of `parseIPv4Fields`: the fields so far, the value of the current one, and how many
-- digits it has. A dot wants a digit before it and something behind it, and three fields at most.
unfoldable pub parse_fields : Bytes → List ℕ → ℕ → ℕ → Option (List ℕ)
parse_fields [] fields val digits = if length fields == 3 then some (fields ++ val ∷ []) else none
parse_fields (c ∷ s) fields val digits = elim (is_digit c) [
  | Bool.true ↦ elim (push_digit val digits c) [
    | none ↦ none
    | some v ↦ parse_fields s fields v (digits + 1)
  ]
  | Bool.false ↦
      let next = parse_fields s (fields ++ val ∷ []) 0 0 in
      if c == b'.'
      then if (digits == 0) || is_nil s || (length fields == 3) then none else next
      else none
]

-- A byte in decimal.
unfoldable pub print_u8 : ℕ → Bytes
print_u8 n =
    if ltb n 10
    then (b'0' + n) ∷ []
    else if ltb n 100
    then (b'0' + n / 10) ∷ (b'0' + n % 10) ∷ []
    else (b'0' + n / 100) ∷ (b'0' + n / 10 % 10) ∷ (b'0' + n % 10) ∷ []

-- `net.IP(b).String()` of the four bytes a, b, c, d.
unfoldable pub print_ipv4 : ℕ → ℕ → ℕ → ℕ → Bytes
unfolding print_u8
print_ipv4 a b c d =
    print_u8 a ++ (b'.' ∷ (print_u8 b ++ (b'.' ∷ (print_u8 c ++ (b'.' ∷ print_u8 d)))))
