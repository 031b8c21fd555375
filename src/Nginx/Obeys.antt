-- ===== src/Nginx/Obeys.antt =====
-- nginx and the decision engine at the two ends of the socket.
use rate_limiter.Base.{
  ℕ, suc, ◌+◌, ◌≤◌, ◌<◌, ◌^◌, ◌≡◌, ◌∙◌, refl, ap, sym, true, Option, some, List, [], ◌∷◌, ◌++◌,
  append_assoc, append-nil, Bytes, codes, ok, length, All, All-append, bytes_eq, arith,
}
use mathlib.Core.List.{foldr}
use rate_limiter.Base.Int.{ℤ, pos_part, neg_part}
use rate_limiter.Text.Decimal.{print_int, print_int-All}
use rate_limiter.Redis.Server.{RedisServer}
use rate_limiter.Ml.{FeatureVector, Outcome, returns, panics}
use rate_limiter.Engine.Interface.{
  Action, allow, throttle, block, action_text, Decision, Blocklist, World, Call,
}
use rate_limiter.Engine.Evaluate.{Engine, evaluate}
use rate_limiter.Server.Lines.{newline, scan_lines, scan_from, drop_cr}
use rate_limiter.Server.Respond.{marshal_decision, write_response}
use rate_limiter.Server.Connection.{handle_lines, handle_conn}
use rate_limiter.Server.Laws.{line_good, lines_step}
use rate_limiter.Nginx.{
  Cosocket, query_engine, Reply, Access, pass, forbidden, too_many, act_on, access,
}

-- No control characters.
abbrev pub IsPlain : Bytes → Type 0
IsPlain = All (λ c. 32 ≤ c)

drop_cr_plain : (s : Bytes) → IsPlain s → drop_cr s ≡ s
unfolding drop_cr
drop_cr_plain [] h = refl
drop_cr_plain (c ∷ []) h = ground arith
drop_cr_plain (c ∷ d ∷ s) (hc, h) = ap (λ q. c ∷ q) (drop_cr_plain (d ∷ s) h)

-- A plain line under way, and its line feed.
scan_plain :
    (s cur : Bytes) (size : ℕ)
    → IsPlain s
    → IsPlain cur
    → size + length s < 65536
    → scan_from (s ++ newline ∷ []) cur size ≡ (cur ++ s) ∷ []
unfolding scan_from
scan_plain [] cur size hs hc few = ap (λ q. q ∷ []) (drop_cr_plain cur hc ∙ sym (append-nil cur))
scan_plain (c ∷ s) cur size (h, hs) hc few = ground (
  arith,
  scan_plain s (cur ++ c ∷ []) (suc size) hs (All-append _ cur (c ∷ []) hc (h, tt)),
  append_assoc cur (c ∷ []) s,
)

scan_one : (s : Bytes) → IsPlain s → length s < 65536 → scan_lines (s ++ newline ∷ []) ≡ s ∷ []
unfolding scan_lines
scan_one s h few = scan_plain s [] 0 h tt (omega arith)

text-IsPlain : (s : Bytes) → All (λ c. b'-' ≤ c) s → IsPlain s
text-IsPlain [] h = tt
text-IsPlain (c ∷ s) (hc, hs) = (omega arith, text-IsPlain s hs)

action_text-IsPlain : (a : Action) → IsPlain (action_text a)
action_text-IsPlain allow = omega arith
action_text-IsPlain throttle = omega arith
action_text-IsPlain block = omega arith

marshal_decision-IsPlain : (d : Decision) → IsPlain (marshal_decision d)
unfolding marshal_decision
marshal_decision-IsPlain d = All-append _ (codes "{\"action\":\"") _ (omega arith) (
    All-append _ (action_text d.action) _ (action_text-IsPlain d.action) (
      All-append _ (codes "\",\"retry_after\":") _ (omega arith) (
        All-append _ (print_int d.retry_after) _ (text-IsPlain _ (print_int-All d.retry_after))
          (omega arith))))

-- What a visitor gets for a decision.
abbrev pub access_of : Decision → Access
access_of d = elim d.action [ allow ↦ pass | throttle ↦ too_many d.retry_after | block ↦ forbidden ]

act_on_action :
    (a : Action) (r : ℤ)
    → act_on (record { action = some (action_text a); retry_after = some r })
      ≡ access_of (record { action = a; retry_after = r })
unfolding act_on bytes_eq
act_on_action allow r = refl
act_on_action throttle r = refl
act_on_action block r = refl

-- What the engine writes to a connection, one response behind the other.
abbrev pub output_of : {W : Type 0} → Outcome (List Bytes × W) → Bytes
output_of panics = []
output_of (returns (rs, w)) = foldr ◌++◌ [] rs

write_response_lem : (d : Decision) → write_response d ≡ marshal_decision d ++ newline ∷ []
unfolding write_response
write_response_lem d = refl

-- A number that is the same as a double.
abbrev pub IsExact : ℤ → Type 0
IsExact a = (pos_part a ≤ 2 ^ 53) × (neg_part a ≤ 2 ^ 53)

-- What is documented of the socket's line reader, and of cjson on the engine's responses.
pub record IsReader (receive_line : Bytes → Option Bytes) (decode : Bytes → Option Reply)
    : Type 0 where
  pub line_read : (line : Bytes) → IsPlain line → receive_line (line ++ newline ∷ []) ≡ some line
  pub decoded :
      (d : Decision)
      → IsExact d.retry_after
      → decode (marshal_decision d)
        ≡ some (record { action = some (action_text d.action); retry_after = some d.retry_after })

module _ (invalid : ℤ) (R : RedisServer) (B : Blocklist)
    (unmarshal : Bytes → Option FeatureVector) where
  -- The socket to an engine that is up.
  abbrev pub socket_to :
      {E : Type 0}
      → Engine invalid R B
      → (ℕ → Call E)
      → World R B
      → (Bytes → Option Bytes)
      → Cosocket
  socket_to e calls w receive_line = record {
    connects = true;
    sends = true;
    answer = λ sent. output_of (handle_conn invalid R B unmarshal e calls sent w);
    receive_line = receive_line;
  }

  engine_output :
      {E : Type 0} (e : Engine invalid R B) (calls : ℕ → Call E) (w w' : World R B)
      (payload : Bytes) (fv : FeatureVector) (d : Decision)
      → IsPlain payload
      → length payload < 65536
      → unmarshal payload ≡ some fv
      → evaluate invalid R B e fv (calls 0) w ≡ returns (d, w')
      → output_of (handle_conn invalid R B unmarshal e calls (payload ++ newline ∷ []) w)
        ≡ write_response d
  unfolding handle_conn handle_lines
  engine_output e calls w w' payload fv d plain few known decided =
      ap (λ ls. output_of (handle_lines invalid R B unmarshal e calls 0 ls w))
        (scan_one payload plain few)
      ∙ ap output_of (
          lines_step invalid R B unmarshal e calls 0 payload [] w {rs = []}
            (line_good invalid R B unmarshal e payload (calls 0) w known decided) refl)
      ∙ append-nil (write_response d)

  asked :
      {E : Type 0} (e : Engine invalid R B) (calls : ℕ → Call E) (w : World R B)
      (receive_line : Bytes → Option Bytes) (payload line : Bytes)
      → receive_line
          (output_of (handle_conn invalid R B unmarshal e calls (payload ++ newline ∷ []) w))
        ≡ some line
      → query_engine (socket_to e calls w receive_line) payload ≡ ok line
  unfolding query_engine
  asked e calls w receive_line payload line h = rw h refl

  -- A request whose feature vector is encoded as a text of less than 64 KiB without control characters,
  -- which the engine decodes, over a socket to an engine that decides, with a back-off that is exact as
  -- a double: nginx refuses the request with
  -- 403 if the decision is a block, answers 429 with the engine's back-off if it is a throttle, and
  -- lets it pass if it is an allow.
  pub access_follows :
      {E : Type 0} (e : Engine invalid R B) (calls : ℕ → Call E) (w w' : World R B)
      (encode : FeatureVector → Option Bytes) (decode : Bytes → Option Reply)
      (receive_line : Bytes → Option Bytes) (vector fv : FeatureVector) (payload : Bytes)
      (d : Decision)
      → IsReader receive_line decode
      → encode vector ≡ some payload
      → IsPlain payload
      → length payload < 65536
      → unmarshal payload ≡ some fv
      → evaluate invalid R B e fv (calls 0) w ≡ returns (d, w')
      → IsExact d.retry_after
      → access encode decode (socket_to e calls w receive_line) vector ≡ access_of d
  unfolding access
  access_follows e calls w w' encode decode receive_line vector fv payload d I encoded plain few
        known decided exact =
      let answer = asked e calls w receive_line payload (marshal_decision d) (
        ap receive_line
          (engine_output e calls w w' payload fv d plain few known decided ∙ write_response_lem d)
        ∙ I.line_read (marshal_decision d) (marshal_decision-IsPlain d)) in
      rw (encoded, access, answer, I.decoded d exact) (act_on_action d.action d.retry_after)
