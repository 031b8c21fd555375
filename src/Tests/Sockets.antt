-- ===== src/Tests/Sockets.antt =====
-- The theorems on the connection handler, at concrete bytes.
use rate_limiter.Base.{
  ℕ, ◌≡◌, refl, List, [], ◌∷◌, ◌++◌, Bytes, codes, bytes_eq, Option, none, some, if◌then◌else◌,
  length, All, err,
}
use rate_limiter.Base.Int.{ℤ, negsuc}
use rate_limiter.Ml.{FeatureVector, returns}
use rate_limiter.Redis.{replied}
use rate_limiter.Engine.Interface.{World, Call}
use rate_limiter.Server.Lines.{scan_lines}
use rate_limiter.Server.Respond.{IsLine}
use rate_limiter.Server.Connection.{handle_conn}
use rate_limiter.Server.Laws.{handle_conn_total, Responds}
use rate_limiter.Tests.Shelf.{shelf}
use rate_limiter.Tests.Engines.{paper, engine, sample, start, call_at}

-- A decoder that knows one text.
abbrev unmarshal : Bytes → Option FeatureVector
unmarshal line = if bytes_eq line (codes "{}") then some sample else none

abbrev outside : ℤ
outside = negsuc 9223372036854775807

abbrev calls : ℕ → Call (Unit {0})
calls i = call_at 1000 replied (err tt)

abbrev mixed : Bytes
mixed = codes "{}" ++ (10 ∷ codes "hello" ++ (10 ∷ codes "{}"))

handle_conn_total_example :
    (rs : List Bytes) × ((w : World shelf paper) × ((handle_conn outside shelf paper unmarshal
            engine calls mixed start
          ≡ returns (rs, w))
        × (Responds outside shelf paper unmarshal engine calls 0 (scan_lines mixed) rs start w
            × ((length rs ≡ length (scan_lines mixed)) × All IsLine rs))))
handle_conn_total_example =
    handle_conn_total outside shelf paper unmarshal engine calls mixed start refl

abbrev noise : Bytes
noise = codes "hello" ++ (13 ∷ 10 ∷ 10 ∷ [])

noise_lines : scan_lines noise ≡ codes "hello" ∷ [] ∷ []
unfolding scan_lines
noise_lines = refl
