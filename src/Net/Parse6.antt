-- ===== src/Net/Parse6.antt =====
-- The IPv6 half of `netip.ParseAddr`, `net.ParseIP`, and `IP.To4`.
use rate_limiter.Base.{
  ℕ, zero, suc, ◌+◌, ◌-◌, ◌*◌, ◌/◌, ◌%◌, Bool, true, false, not, ◌&&◌, ◌||◌, Option, none, some, [],
  ◌∷◌, ◌++◌, Bytes, bytes_eq, ltb, leb, ◌==◌, if◌then◌else◌, length, take, drop, replicate,
}
use rate_limiter.Net.Parse4.{is_digit, parse_fields}

abbrev hex_value : ℕ → Option ℕ
hex_value c =
    if is_digit c
    then some (c - b'0')
    else if leb b'a' c && leb c b'f'
    then some (c - b'a' + 10)
    else if leb b'A' c && leb c b'F'
    then some (c - b'A' + 10)
    else none

-- A group of at most four hexadecimal digits: how many there were, their value, and the rest.
hex_group : Bytes → ℕ → ℕ → Option (ℕ × ℕ × Bytes)
hex_group [] off acc = some (off, acc, [])
hex_group (c ∷ s) off acc = elim (hex_value c) [
  | none ↦ some (off, acc, c ∷ s)
  | some d ↦
      let next = hex_group s (off + 1) (acc * 16 + d) in
      if ltb 3 off || ltb 65535 (acc * 16 + d) then none else next
]

-- What the loop leaves: the unread text, the bytes so far, and where the ellipsis stood.
abbrev Parsed : Type 0
Parsed = Bytes × Bytes × Option ℕ

is_none : Option ℕ → Bool
is_none none = true
is_none (some _) = false

starts_with_dot : Bytes → Bool
starts_with_dot [] = false
starts_with_dot (c ∷ s) = c == b'.'

-- A dotted tail stands for the last four bytes.
dotted_tail : Bytes → Bytes → Option ℕ → Option Parsed
unfolding is_none
dotted_tail s ip ellipsis =
    if is_none ellipsis && not (length ip == 12)
    then none
    else if ltb 16 (length ip + 4)
    then none
    else elim (parse_fields s [] 0 0) [ none ↦ none | some v4 ↦ some ([], ip ++ v4, ellipsis) ]

-- What may follow a group: nothing, or a colon and more, or the ellipsis. `true` ends the loop.
after_group : Bytes → ℕ → Option ℕ → Option (Bool × Bytes × Option ℕ)
unfolding is_none
after_group [] i ellipsis = some (true, [], ellipsis)
after_group (c ∷ []) i ellipsis = none
after_group (c ∷ d ∷ s) i ellipsis =
    if not (c == b':')
    then none
    else if not (d == b':')
    then some (false, d ∷ s, ellipsis)
    else if not (is_none ellipsis)
    then none
    else some (length s == 0, s, some i)

-- The loop over groups; the first argument counts the rounds left, two bytes each.
-- A group with a dot behind it starts a dotted tail, which is read from the group's first digit.
groups : ℕ → Bytes → Bytes → Option ℕ → Option Parsed
unfolding hex_group starts_with_dot dotted_tail after_group
groups zero s ip ellipsis = some (s, ip, ellipsis)
groups (suc rounds) s ip ellipsis = elim (hex_group s 0 0) [
  | none ↦ none
  | some (off, acc, rest) ↦ elim (off == 0) [
    | true ↦ none
    | false ↦ elim (starts_with_dot rest) [
      | true ↦ dotted_tail s ip ellipsis
      | false ↦
          let grown = ip ++ (acc / 256) ∷ (acc % 256) ∷ [] in
          elim (after_group rest (length grown) ellipsis) [
            | none ↦ none
            | some (stop, more, place) ↦ elim stop [
              | true ↦ some (more, grown, place)
              | false ↦ groups rounds more grown place
            ]
          ]
    ]
  ]
]

-- The ellipsis stands for the zeros that are missing, at least one byte.
expand : Parsed → Option Bytes
expand (s, ip, ellipsis) = if not (length s == 0) then none else elim ellipsis [
  | none ↦ if ltb (length ip) 16 then none else some ip
  | some at ↦
      if ltb (length ip) 16
      then some (take at ip ++ (replicate (16 - length ip) 0 ++ drop at ip))
      else none
]

parse_ipv6_from : Bytes → Bytes → Option ℕ → Option Bytes
unfolding groups expand
parse_ipv6_from s ip ellipsis = elim (groups 8 s ip ellipsis) [
  | none ↦ none
  | some parsed ↦ expand parsed
]

parse_ipv6 : Bytes → Option Bytes
unfolding parse_ipv6_from
parse_ipv6 (c ∷ d ∷ []) =
    if (c == b':') && (d == b':')
    then some (replicate 16 0)
    else parse_ipv6_from (c ∷ d ∷ []) [] none
parse_ipv6 (c ∷ d ∷ s) =
    if (c == b':') && (d == b':')
    then parse_ipv6_from s [] (some 0)
    else parse_ipv6_from (c ∷ d ∷ s) [] none
parse_ipv6 s = parse_ipv6_from s [] none

-- An IPv6 zone makes `net.ParseIP` return nil, so a text with a percent sign is refused.
has_zone : Bytes → Bool
has_zone [] = false
has_zone (c ∷ s) = (c == b'%') || has_zone s

abbrev pub v4_in_v6_prefix : Bytes
v4_in_v6_prefix = 0 ∷ 0 ∷ 0 ∷ 0 ∷ 0 ∷ 0 ∷ 0 ∷ 0 ∷ 0 ∷ 0 ∷ 255 ∷ 255 ∷ []

-- The scan of `ParseAddr` for the first mark, over the rest of the text `whole`.
unfoldable pub dispatch : Bytes → Bytes → Option Bytes
unfolding has_zone parse_ipv6
dispatch [] whole = none
dispatch (c ∷ s) whole =
    if c == b'.'
    then elim (parse_fields whole [] 0 0) [ none ↦ none | some v4 ↦ some (v4_in_v6_prefix ++ v4) ]
    else if c == b':'
    then (if has_zone whole then none else parse_ipv6 whole)
    else if c == b'%'
    then none
    else dispatch s whole

-- `net.ParseIP`: 16 bytes, or nil.
unfoldable pub parse_ip : Bytes → Option Bytes
unfolding dispatch
parse_ip s = dispatch s s

-- `ip.To4()`
unfoldable pub to4 : Bytes → Option Bytes
unfolding bytes_eq
to4 ip =
    if length ip == 4
    then some ip
    else if (length ip == 16) && bytes_eq (take 12 ip) v4_in_v6_prefix
    then some (drop 12 ip)
    else none
