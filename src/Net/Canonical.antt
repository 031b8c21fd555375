-- ===== src/Net/Canonical.antt =====
-- What the IPv4 parser accepts.
use rate_limiter.Base.{
  ℕ, ◌+◌, ◌<◌, ◌≡◌, refl, true, some, List, ◌++◌, [], ◌∷◌, Bytes, ◌≢◌, length, append-nil,
  length-append, append_assoc, sym, ap, ◌==◌, All, Option-cases, Bool-cases, false, ◌∙◌, ◌⊎◌, inl,
  inr, arith,
}
use rate_limiter.Net.Parse4.{is_digit, push_digit, parse_fields, print_u8, print_ipv4}
use rate_limiter.Net.Parse6.{parse_ip, dispatch, v4_in_v6_prefix}
use rate_limiter.Net.RoundTrip.{width}

-- The text of the fields, with dots between them.
pub dotted : List ℕ → Bytes
dotted [] = []
dotted (x ∷ []) = print_u8 x
dotted (x ∷ y ∷ xs) = print_u8 x ++ (b'.' ∷ dotted (y ∷ xs))

-- `p` is what has been read of the current field.
abbrev IsRead : Bytes → ℕ → ℕ → Type 0
IsRead p v k = (k ≡ 0) × (p ≡ []) × (v ≡ 0) ⊎ (k ≡ width v) × (p ≡ print_u8 v) × (v < 256)

IsRead-digit :
    (p : Bytes) (v k c w : ℕ)
    → IsRead p v k
    → is_digit c ≡ true
    → push_digit v k c ≡ some w
    → IsRead (p ++ c ∷ []) w (k + 1)
unfolding print_u8
IsRead-digit p v k c w (inl h) d e = inr (ground arith)
IsRead-digit p v k c w (inr h) d e = inr (ground arith)

digit_inv :
    (c : ℕ) (s fields : List ℕ) (v k : ℕ) {r : List ℕ}
    → is_digit c ≡ true
    → parse_fields (c ∷ s) fields v k ≡ some r
    → (w : ℕ) × (push_digit v k c ≡ some w) × (parse_fields s fields w (k + 1) ≡ some r)
unfolding parse_fields
digit_inv c s fields v k d h = elim (Option-cases (push_digit v k c)) [
  | inl refused ↦ absurd (ground arith)
  | inr (w, pushed) ↦ (w, pushed, ground arith)
]

dot_inv :
    (c : ℕ) (s fields : List ℕ) (v k : ℕ) {r : List ℕ}
    → is_digit c ≡ false
    → parse_fields (c ∷ s) fields v k ≡ some r
    → (c ≡ b'.') × (k ≢ 0) × (s ≢ []) × (parse_fields s (fields ++ v ∷ []) 0 0 ≡ some r)
unfolding parse_fields
dot_inv c s fields v k d h = ground arith

-- What the fields still to come are: they spell the rest of the text.
record Reads (fields : List ℕ) (text : Bytes) (r : List ℕ) : Type 0 where
  more : List ℕ
  split : r ≡ fields ++ more
  spelled : text ≡ dotted more
  some_more : more ≢ []
  four : length r ≡ 4
  in_byte : All (λ x. x < 256) more

dotted-cons : (x : ℕ) (xs : List ℕ) → xs ≢ [] → dotted (x ∷ xs) ≡ print_u8 x ++ (b'.' ∷ dotted xs)
unfolding dotted
dotted-cons x [] h = absurd (h refl)
dotted-cons x (y ∷ xs) h = refl

read_some : (p : Bytes) (v k : ℕ) → IsRead p v k → k ≢ 0 → (p ≡ print_u8 v) × (v < 256)
read_some p v k (inl h) ne = absurd (ne h.0)
read_some p v k (inr h) ne = (h.1, h.2)

parse_fields_sound :
    (s fields : List ℕ) (v k : ℕ) (p : Bytes) {r : List ℕ}
    → IsRead p v k
    → (k ≡ 0 → s ≢ [])
    → parse_fields s fields v k ≡ some r
    → Reads fields (p ++ s) r
parse_fields_sound [] fields v k p (inl h) ne e = absurd (ne h.0 refl)
parse_fields_sound [] fields v k p (inr h) ne e = record {
  more = v ∷ [];
  split = unfold parse_fields in ground arith;
  spelled = unfold dotted in append-nil p ∙ h.1;
  some_more = λ q. cc;
  four = unfold parse_fields in ground (arith, length-append fields (v ∷ []));
  in_byte = (h.2, tt);
}
parse_fields_sound (c ∷ s) fields v k p {r} h ne e = elim (Bool-cases (is_digit c)) [
  | inl d ↦
      let (w, pushed, after) = digit_inv c s fields v k d e in
      rw (append_assoc p (c ∷ []) s) at (
        parse_fields_sound s fields w (k + 1) (p ++ c ∷ []) (IsRead-digit p v k c w h d pushed)
          (λ z. absurd (omega arith)) after)
  | inr d ↦
      let (dot, some_digit, more_text, after) = dot_inv c s fields v k d e in
      let R =
        parse_fields_sound s (fields ++ v ∷ []) 0 0 [] (inl (refl, refl, refl)) (λ z. more_text)
          after in
      record {
        more = v ∷ R.more;
        split = R.split ∙ append_assoc fields (v ∷ []) R.more;
        spelled =
            rw (
              dotted-cons v R.more R.some_more,
              ← R.spelled,
              dot,
              (read_some p v k h some_digit).0,
            );
        some_more = λ q. cc;
        four = R.four;
        in_byte = ((read_some p v k h some_digit).1, R.in_byte);
      }
]

-- Four bytes, and that a text is their print.
pub record IsPrint (text : Bytes) (v4 : List ℕ) : Type 0 where
  pub a : ℕ
  pub b : ℕ
  pub c : ℕ
  pub d : ℕ
  pub fields : v4 ≡ a ∷ b ∷ c ∷ d ∷ []
  pub printed : text ≡ print_ipv4 a b c d
  pub a_byte : a < 256
  pub b_byte : b < 256
  pub c_byte : c < 256
  pub d_byte : d < 256

dotted-IsPrint :
    (text : Bytes) (r : List ℕ)
    → text ≡ dotted r
    → length r ≡ 4
    → All (λ x. x < 256) r
    → IsPrint text r
unfolding dotted print_ipv4
dotted-IsPrint text [] e l h = absurd (omega arith)
dotted-IsPrint text (a ∷ []) e l h = absurd (omega arith)
dotted-IsPrint text (a ∷ b ∷ []) e l h = absurd (omega arith)
dotted-IsPrint text (a ∷ b ∷ c ∷ []) e l h = absurd (omega arith)
dotted-IsPrint text (a ∷ b ∷ c ∷ d ∷ []) e l (ha, (hb, (hc, (hd, _)))) = record {
  a = a;
  b = b;
  c = c;
  d = d;
  fields = refl;
  printed = e;
  a_byte = ha;
  b_byte = hb;
  c_byte = hc;
  d_byte = hd;
}
dotted-IsPrint text (a ∷ b ∷ c ∷ d ∷ e ∷ r) q l h = absurd (omega arith)

pub parse_fields-IsPrint : (s : Bytes) {r : List ℕ} → parse_fields s [] 0 0 ≡ some r → IsPrint s r
parse_fields-IsPrint [] e = absurd (unfold parse_fields in cc)
parse_fields-IsPrint (c ∷ s) {r} e =
    let R = parse_fields_sound (c ∷ s) [] 0 0 [] (inl (refl, refl, refl)) (λ z q. cc) e in
    dotted-IsPrint (c ∷ s) r (R.spelled ∙ ap dotted (sym R.split)) R.four (rw R.split R.in_byte)

-- `ParseAddr` takes the IPv4 parser for a text without a colon.
dispatch-IsPrint :
    (s whole : Bytes) {ip : Bytes}
    → All (λ c. c ≢ b':') s
    → dispatch s whole ≡ some ip
    → (v4 : List ℕ) × (ip ≡ v4_in_v6_prefix ++ v4) × IsPrint whole v4
dispatch-IsPrint [] whole h e = absurd (unfold dispatch in cc)
dispatch-IsPrint (c ∷ s) whole (hc, hs) e = elim (Bool-cases (c == b'.')) [
  | inl dot ↦ elim (Option-cases (parse_fields whole [] 0 0)) [
    | inl bad ↦ absurd (unfold dispatch in ground arith)
    | inr (v4, good) ↦ (v4, unfold dispatch in ground arith, parse_fields-IsPrint whole good)
  ]
  | inr other ↦ dispatch-IsPrint s whole hs (unfold dispatch in ground arith)
]

pub parse_ip-IsPrint :
    (s : Bytes) {ip : Bytes}
    → All (λ c. c ≢ b':') s
    → parse_ip s ≡ some ip
    → (v4 : List ℕ) × (ip ≡ v4_in_v6_prefix ++ v4) × IsPrint s v4
unfolding parse_ip
parse_ip-IsPrint s h e = dispatch-IsPrint s s h e
