-- ===== src/Server/Connection.antt =====
-- decision-engine/cmd/server/main.go: `handleConn`.
use rate_limiter.Base.{ℕ, suc, Option, none, some, List, [], ◌∷◌, Bytes}
use rate_limiter.Base.Int.{ℤ, pos}
use rate_limiter.Redis.Server.{RedisServer}
use rate_limiter.Ml.{FeatureVector, Outcome, returns, ◌>>=◌}
use rate_limiter.Engine.Interface.{allow, Decision, Blocklist, World, Call}
use rate_limiter.Engine.Evaluate.{Engine, evaluate}
use rate_limiter.Server.Lines.{scan_lines}
use rate_limiter.Server.Respond.{write_response}

-- The answer to a line that is no feature vector.
abbrev pub bad_json_decision : Decision
bad_json_decision = record { action = allow; retry_after = pos 0 }

module _ (invalid : ℤ) (R : RedisServer) (B : Blocklist)
    (unmarshal : Bytes → Option FeatureVector) where
  -- One round of the loop. `call` is what the outside contributes to it.
  unfoldable pub handle_line :
      {E : Type 0} → Engine invalid R B → Bytes → Call E → World R B → Outcome (Bytes × World R B)
  handle_line e line call w = elim (unmarshal line) [
    | none ↦ returns (write_response bad_json_decision, w)
    | some fv ↦ evaluate invalid R B e fv call w >>= λ r. returns (write_response r.0, r.1)
  ]

  -- The loop over the lines: the responses, in order. `calls i` belongs to the line with index i.
  unfoldable pub handle_lines :
      {E : Type 0}
      → Engine invalid R B
      → (ℕ → Call E)
      → ℕ
      → List Bytes
      → World R B
      → Outcome (List Bytes × World R B)
  handle_lines e calls i [] w = returns ([], w)
  handle_lines e calls i (line ∷ lines) w = handle_line e line (calls i) w >>= λ r.
      handle_lines e calls (suc i) lines r.1 >>= λ q. returns (r.0 ∷ q.0, q.1)

  unfoldable pub handle_conn :
      {E : Type 0}
      → Engine invalid R B
      → (ℕ → Call E)
      → Bytes
      → World R B
      → Outcome (List Bytes × World R B)
  handle_conn e calls received w = handle_lines e calls 0 (scan_lines received) w
