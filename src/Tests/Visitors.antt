-- ===== src/Tests/Visitors.antt =====
-- A line reader, a decoder of the engine's responses, and the theorem on nginx at a concrete visitor.
use rate_limiter.Base.{
  ℕ, ◌+◌, ◌<◌, ◌≤◌, ◌^◌, ◌≡◌, ◌∙◌, refl, ap, Bool, true, false, Option, none, some, List, [], ◌∷◌,
  ◌++◌, Bytes, codes, bytes_eq, Result, ok, err, ◌==◌, if◌then◌else◌, length, All, arith,
}
use rate_limiter.Base.Int.{ℤ, pos, negsuc, IsI64}
use rate_limiter.Float.{fin}
use rate_limiter.Text.Decimal.{print_int, parse_int64, parse_int64-print_int}
use rate_limiter.Ml.{FeatureVector, Outcome, returns, value_or}
use rate_limiter.Redis.{replied}
use rate_limiter.Engine.Interface.{
  Action, allow, throttle, block, action_text, Decision, World, Call,
}
use rate_limiter.Engine.Evaluate.{evaluate}
use rate_limiter.Server.Lines.{newline}
use rate_limiter.Server.Respond.{marshal_decision}
use rate_limiter.Nginx.{Reply, pass, access}
use rate_limiter.Nginx.Obeys.{IsPlain, IsReader, IsExact, socket_to, access_follows}
use rate_limiter.Tests.Shelf.{shelf}
use rate_limiter.Tests.Engines.{paper, engine, sample, start, call_at}
use rate_limiter.Tests.Runs.{unmarshal}

-- The text up to the first line feed.
cut : Bytes → Option Bytes
cut [] = none
cut (c ∷ s) = elim (c == newline) [
  | true ↦ some []
  | false ↦ elim (cut s) [ none ↦ none | some r ↦ some (c ∷ r) ]
]

cut_line : (s : Bytes) → IsPlain s → cut (s ++ newline ∷ []) ≡ some s
unfolding cut
cut_line [] h = refl
cut_line (c ∷ s) (hc, h) = ground (arith, cut_line s h)

strip : Bytes → Bytes → Option Bytes
strip [] s = some s
strip (c ∷ p) [] = none
strip (c ∷ p) (d ∷ s) = let rest = strip p s in if c == d then rest else none

drop_last : Bytes → Bytes
drop_last [] = []
drop_last (c ∷ []) = []
drop_last (c ∷ d ∷ s) = c ∷ drop_last (d ∷ s)

drop_last-append : (s : Bytes) (c : ℕ) → drop_last (s ++ c ∷ []) ≡ s
unfolding drop_last
drop_last-append [] c = refl
drop_last-append (d ∷ []) c = refl
drop_last-append (d ∷ e ∷ s) c = ap (λ q. d ∷ q) (drop_last-append (e ∷ s) c)

read_number : Bytes → Bytes → Option Reply
read_number action n = elim (parse_int64 n) [
  | none ↦ none
  | some v ↦ some (record { action = some action; retry_after = some v })
]

number : Bytes → Bytes → Option Reply
unfolding strip
number action s = elim (strip (codes "\",\"retry_after\":") s) [
  | none ↦ none
  | some n ↦ read_number action (drop_last n)
]

of_action : Bytes → Option Reply
unfolding number strip
of_action s = elim (strip (codes "allow") s) [
  | some r ↦ number (codes "allow") r
  | none ↦ elim (strip (codes "throttle") s) [
    | some r ↦ number (codes "throttle") r
    | none ↦ elim (strip (codes "block") s) [ some r ↦ number (codes "block") r | none ↦ none ]
  ]
]

decode : Bytes → Option Reply
unfolding of_action strip
decode s = elim (strip (codes "{\"action\":\"") s) [ none ↦ none | some r ↦ of_action r ]

read_number_lem :
    (action : Bytes) (v : ℤ)
    → IsExact v
    → read_number action (print_int v)
      ≡ some (record { action = some action; retry_after = some v })
unfolding read_number
read_number_lem action v h = rw (parse_int64-print_int v (omega arith), read_number) refl

decode_number :
    (action : Bytes) (v : ℤ)
    → IsExact v
    → number action (codes "\",\"retry_after\":" ++ (print_int v ++ codes "}"))
      ≡ some (record { action = some action; retry_after = some v })
unfolding number
decode_number action v h =
    ap (read_number action) (drop_last-append (print_int v) b'}') ∙ read_number_lem action v h

decode_action :
    (a : Action) (v : ℤ)
    → IsExact v
    → decode (marshal_decision (record { action = a; retry_after = v }))
      ≡ some (record { action = some (action_text a); retry_after = some v })
unfolding decode marshal_decision
decode_action allow v h = decode_number (codes "allow") v h
decode_action throttle v h = decode_number (codes "throttle") v h
decode_action block v h = decode_number (codes "block") v h

cut-IsReader : IsReader cut decode
cut-IsReader = record {
  line_read = cut_line;
  decoded = λ d h. decode_action d.action d.retry_after h;
}

abbrev calls : ℕ → Call (Unit {0})
calls i = call_at 1000 replied (err tt)

abbrev decided : Outcome (Decision × World shelf paper)
decided = evaluate (negsuc 9223372036854775807) shelf paper engine sample (calls 0) start

abbrev allowed : Decision
allowed = record { action = allow; retry_after = pos 0 }

abbrev after : World shelf paper
after = (value_or (allowed, start) decided).1

decided_allow : decided ≡ returns (allowed, after)
unfolding evaluate rate_limiter.Ml.score_of rate_limiter.Engine.Evaluate.enforce
    rate_limiter.Float.gt rate_limiter.Float.to_float32 rate_limiter.Config.default_block
    rate_limiter.Float.nearest rate_limiter.Float.bit_length
    rate_limiter.Engine.Evaluate.bucket_exhausted rate_limiter.Redis.decrement
    rate_limiter.Redis.attempt rate_limiter.Redis.go_on rate_limiter.Redis.token_bucket
    rate_limiter.Tests.Shelf.is_there rate_limiter.Tests.Shelf.shelf_set
    rate_limiter.Redis.whole_seconds rate_limiter.Base.Int.◌-ℤ◌ rate_limiter.Config.default_throttle
decided_allow = refl

encode : FeatureVector → Option Bytes
encode fv = some (codes "{}")

encoded : encode sample ≡ some (codes "{}")
unfolding encode
encoded = refl

access_follows_example :
    access encode decode
      (socket_to (negsuc 9223372036854775807) shelf paper unmarshal engine calls start cut)
      sample
    ≡ pass
unfolding bytes_eq
access_follows_example =
    access_follows (negsuc 9223372036854775807) shelf paper unmarshal engine calls start after
      encode decode cut sample sample (codes "{}") allowed cut-IsReader encoded (omega arith)
      (omega arith) refl decided_allow (omega arith)
