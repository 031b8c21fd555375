-- ===== src/Tests/Runs.antt =====
-- The theorems on the interleaved server and on `main`, at concrete runs.
use rate_limiter.Base.{
  ◌≤◌, ◌≡◌, ◌⊎◌, inr, refl, true, false, Option, none, some, List, [], ◌∷◌, Bytes, codes, ok,
  bytes_eq, if◌then◌else◌, arith,
}
use rate_limiter.Base.Int.{negsuc}
use rate_limiter.Kafka.{Writer, Message}
use rate_limiter.Ml.{FeatureVector}
use rate_limiter.Redis.{replied, bucket_key}
use rate_limiter.Redis.Bucket.{empty}
use rate_limiter.Serving.System.{Program, System, idle, new_conn}
use rate_limiter.Serving.Steps.{Label, silent, took, accept, move, read_good, take, Run, stop, next}
use rate_limiter.Serving.Passes.{all_passes}
use rate_limiter.Serving.Account.{IsTidy}
use rate_limiter.Serving.Limit.{limit_interleaved}
use rate_limiter.Serving.Work.{work}
use rate_limiter.Serving.Finish.{IsDone, CanStep, run_ends}
use rate_limiter.Tests.Shelf.{shelf, shelf-IsLawful}
use rate_limiter.Tests.Buckets.{bare, bare-Holds, client_text}
use rate_limiter.Tests.Engines.{paper, engine, sample, start}

abbrev pub log : Writer
log = record {
  State = List Message;
  Error = Unit {0};
  write = λ s m. ok (m ∷ s);
  close = λ s. (none, s);
}

abbrev pub unmarshal : Bytes → Option FeatureVector
unmarshal line = if bytes_eq line (codes "{}") then some sample else none

abbrev pub tiny : Program
tiny = record {
  invalid = negsuc 9223372036854775807;
  redis = shelf;
  blocklist = paper;
  writer = log;
  RpcError = Unit {0};
  unmarshal = unmarshal;
  encode = λ e. e.ip;
  encode_ip = λ ip now. ip;
  engine = engine;
  Request = Bytes;
  Response = Bytes;
  respond = λ q b. (q, b);
}

abbrev pub booted : System tiny
booted = record {
  conns = [];
  world = start;
  producer = record { decisions = []; blocked = [] };
  listening = true;
  http_listening = true;
  requests = [];
  responses = [];
  alive = true;
}

one_line :
    new_conn tiny (codes "{}")
    ≡ record { unread = codes "{}" ∷ []; activity = idle; decided = []; written = [] }
unfolding new_conn rate_limiter.Server.Lines.scan_lines
one_line = refl

abbrev pub labels : List Label
labels = silent ∷ silent ∷ took client_text 1000 replied ∷ []

-- A connection is accepted, its line is read, and its token is taken.
one_take : (t : System tiny) × Run tiny booted labels t
unfolding new_conn bytes_eq rate_limiter.Server.Lines.scan_lines
one_take = (
  _,
  next (accept booted (codes "{}") refl refl) (
      next (move _ [] [] _ _ _ _ refl refl (read_good _ _ (codes "{}") [] sample refl refl refl))
        (next (move _ [] [] _ _ _ _ refl refl (take _ _ sample 1000 _ replied refl)) (stop _))),
)

pub bare-IsTidy : IsTidy shelf bare 0
bare-IsTidy ip = (empty, bare-Holds (bucket_key ip))

limit_interleaved_example : all_passes tiny client_text one_take.0.conns ≤ 2
unfolding bytes_eq
limit_interleaved_example =
    limit_interleaved tiny shelf-IsLawful 2 30 (omega arith) (omega arith) refl client_text 0 1000
      [] empty refl bare-IsTidy (bare-Holds (bucket_key client_text)) one_take.1 (omega arith, tt)
      (inr refl, tt) refl tt tt

-- Closed with one line unread.
abbrev closing : System tiny
closing = record booted {
  conns = record { unread = codes "{}" ∷ []; activity = idle; decided = []; written = [] } ∷ [];
  listening = false;
  http_listening = false;
}

one_read : (t : System tiny) × Run tiny closing (silent ∷ []) t
unfolding bytes_eq
one_read = (
  _,
  next (move closing [] [] _ _ _ _ refl refl (read_good _ _ (codes "{}") [] sample refl refl refl))
      (stop _),
)

run_ends_example :
    (1 ≤ work tiny closing)
    × ((one_read.0.alive ≡ false) ⊎ (IsDone tiny one_read.0 ⊎ CanStep tiny one_read.0))
run_ends_example = run_ends tiny refl (refl, refl) one_read.1
