-- ===== src/Server/Respond.antt =====
-- decision-engine/cmd/server/main.go: `writeResponse`, with the JSON text of a `Decision`.
use rate_limiter.Base.{◌≡◌, ◌≢◌, ◌≤◌, refl, [], ◌∷◌, ◌++◌, Bytes, codes, All, All-append, arith}
use rate_limiter.Text.Decimal.{print_int, print_int-All}
use rate_limiter.Engine.Interface.{Action, allow, throttle, block, action_text, Decision}
use rate_limiter.Server.Lines.{newline}

-- `json.Marshal(d)`
unfoldable pub marshal_decision : Decision → Bytes
marshal_decision d =
    codes "{\"action\":\""
    ++ (action_text d.action
        ++ (codes "\",\"retry_after\":" ++ (print_int d.retry_after ++ codes "}")))

-- The bytes that one call of `writeResponse` writes.
unfoldable pub write_response : Decision → Bytes
unfolding marshal_decision
write_response d = marshal_decision d ++ newline ∷ []

-- A response is one line, the way the client reads it: a text without a line feed, and a line feed.
pub record IsLine (r : Bytes) : Type 0 where
  pub content : Bytes
  pub split : r ≡ content ++ newline ∷ []
  pub no_newline : All (λ c. c ≢ newline) content

above : (s : Bytes) → All (λ c. b'-' ≤ c) s → All (λ c. c ≢ newline) s
above [] h = tt
above (c ∷ s) (hc, hs) = (λ e. absurd (omega arith), above s hs)

action_text-All : (a : Action) → All (λ c. c ≢ newline) (action_text a)
action_text-All allow = omega arith
action_text-All throttle = omega arith
action_text-All block = omega arith

pub write_response-IsLine : (d : Decision) → IsLine (write_response d)
unfolding write_response
write_response-IsLine d = record {
  content = marshal_decision d;
  split = refl;
  no_newline = All-append _ (codes "{\"action\":\"") _ (omega arith) (
      All-append _ (action_text d.action) _ (action_text-All d.action) (
        All-append _ (codes "\",\"retry_after\":") _ (omega arith) (
          All-append _ (print_int d.retry_after) _ (above _ (print_int-All d.retry_after))
            (omega arith))));
}
