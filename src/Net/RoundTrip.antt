-- ===== src/Net/RoundTrip.antt =====
-- Addresses and their texts.
use rate_limiter.Base.{
  ℕ, ◌+◌, ◌*◌, ◌/◌, ◌%◌, ◌<◌, ◌≡◌, refl, true, some, List, ◌++◌, [], ◌∷◌, Bytes, ◌≢◌, length,
  append-nil, ◌∙◌, ltb, if◌then◌else◌, arith,
}
use rate_limiter.Net.Parse4.{is_digit, push_digit, parse_fields, print_u8, print_ipv4}
use rate_limiter.Net.Parse6.{parse_ip, dispatch, to4, v4_in_v6_prefix}

parse_fields_digit :
    (c : ℕ) (s fields : List ℕ) (v k w : ℕ)
    → is_digit c ≡ true
    → push_digit v k c ≡ some w
    → parse_fields (c ∷ s) fields v k ≡ parse_fields s fields w (k + 1)
unfolding parse_fields
parse_fields_digit c s fields v k w d p = ground arith

abbrev pub width : ℕ → ℕ
width n = if ltb n 10 then 1 else if ltb n 100 then 2 else 3

one_digit :
    (d : ℕ) (rest fields : List ℕ)
    → d < 10
    → parse_fields ((b'0' + d) ∷ rest) fields 0 0 ≡ parse_fields rest fields d 1
one_digit d rest fields h =
    parse_fields_digit (b'0' + d) rest fields 0 0 d (ground arith) (ground arith)

next_digit :
    (v k d : ℕ) (rest fields : List ℕ)
    → 0 < v
    → d < 10
    → v * 10 + d < 256
    → parse_fields ((b'0' + d) ∷ rest) fields v k ≡ parse_fields rest fields (v * 10 + d) (k + 1)
next_digit v k d rest fields pos h b =
    parse_fields_digit (b'0' + d) rest fields v k (v * 10 + d) (ground arith) (ground arith)

parse_fields-print_u8 :
    (n : ℕ) (rest fields : List ℕ)
    → n < 256
    → parse_fields (print_u8 n ++ rest) fields 0 0 ≡ parse_fields rest fields n (width n)
unfolding print_u8
parse_fields-print_u8 n rest fields h = ground (
  arith,
  one_digit n rest fields,
  one_digit (n / 10) ((b'0' + n % 10) ∷ rest) fields,
  next_digit (n / 10) 1 (n % 10) rest fields,
  one_digit (n / 100) ((b'0' + n / 10 % 10) ∷ ((b'0' + n % 10) ∷ rest)) fields,
  next_digit (n / 100) 1 (n / 10 % 10) ((b'0' + n % 10) ∷ rest) fields,
  next_digit (n / 100 * 10 + n / 10 % 10) 2 (n % 10) rest fields,
)

parse_fields_dot :
    (s fields : List ℕ) (v k : ℕ)
    → k ≢ 0
    → s ≢ []
    → length fields ≢ 3
    → parse_fields (b'.' ∷ s) fields v k ≡ parse_fields s (fields ++ v ∷ []) 0 0
unfolding parse_fields
parse_fields_dot s fields v k hk hs hl = ground arith

print_u8-ne-nil : (n : ℕ) (rest : Bytes) → print_u8 n ++ rest ≢ []
unfolding print_u8
print_u8-ne-nil n rest = ground arith

field_dot :
    (n : ℕ) (rest fields : List ℕ)
    → n < 256
    → rest ≢ []
    → length fields ≢ 3
    → parse_fields (print_u8 n ++ (b'.' ∷ rest)) fields 0 0
      ≡ parse_fields rest (fields ++ n ∷ []) 0 0
field_dot n rest fields h r l =
    rw (parse_fields-print_u8 n _ fields h)
      (parse_fields_dot rest fields n (width n) (ground arith) r l)

last_field :
    (n : ℕ) (a b c : ℕ)
    → n < 256
    → parse_fields (print_u8 n) (a ∷ b ∷ c ∷ []) 0 0 ≡ some (a ∷ b ∷ c ∷ n ∷ [])
last_field n a b c h =
    rw (← append-nil (print_u8 n))
      (rw (parse_fields-print_u8 n [] (a ∷ b ∷ c ∷ []) h) (unfold parse_fields in refl))

pub parse_fields-print_ipv4 :
    (a b c d : ℕ)
    → a < 256
    → b < 256
    → c < 256
    → d < 256
    → parse_fields (print_ipv4 a b c d) [] 0 0 ≡ some (a ∷ b ∷ c ∷ d ∷ [])
parse_fields-print_ipv4 a b c d ha hb hc hd =
    unfold print_ipv4 in
    field_dot a _ [] ha (print_u8-ne-nil b _) (cc)
    ∙ field_dot b _ (a ∷ []) hb (print_u8-ne-nil c _) (cc)
    ∙ field_dot c _ (a ∷ b ∷ []) hc (λ e. print_u8-ne-nil d [] (append-nil _ ∙ e)) (cc)
    ∙ last_field d a b c hd

dispatch-print_u8 :
    (n : ℕ) (rest whole : Bytes)
    → n < 256
    → dispatch (print_u8 n ++ (b'.' ∷ rest)) whole ≡ dispatch (b'.' ∷ rest) whole
unfolding dispatch print_u8
dispatch-print_u8 n rest whole h = ground arith

pub to4-mapped :
    (a b c d : ℕ) → to4 (v4_in_v6_prefix ++ (a ∷ b ∷ c ∷ d ∷ [])) ≡ some (a ∷ b ∷ c ∷ d ∷ [])
unfolding to4
to4-mapped a b c d = refl

dispatch_dot :
    (rest whole : Bytes) (v4 : List ℕ)
    → parse_fields whole [] 0 0 ≡ some v4
    → dispatch (b'.' ∷ rest) whole ≡ some (v4_in_v6_prefix ++ v4)
unfolding dispatch
dispatch_dot rest whole v4 h = ground arith

pub parse_ip-print_ipv4 :
    (a b c d : ℕ)
    → a < 256
    → b < 256
    → c < 256
    → d < 256
    → parse_ip (print_ipv4 a b c d) ≡ some (v4_in_v6_prefix ++ (a ∷ b ∷ c ∷ d ∷ []))
unfolding parse_ip print_ipv4
parse_ip-print_ipv4 a b c d ha hb hc hd =
    dispatch-print_u8 a (print_u8 b ++ (b'.' ∷ (print_u8 c ++ (b'.' ∷ print_u8 d))))
      (print_ipv4 a b c d) ha
    ∙ dispatch_dot (print_u8 b ++ (b'.' ∷ (print_u8 c ++ (b'.' ∷ print_u8 d)))) (print_ipv4 a b c d)
        _ (parse_fields-print_ipv4 a b c d ha hb hc hd)
