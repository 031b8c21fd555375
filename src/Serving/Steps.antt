-- ===== src/Serving/Steps.antt =====
-- The steps of the socket server. A step of a connection is one access to what the goroutines share.
use rate_limiter.Base.{
  ℕ, suc, err, ◌≡◌, Bool, true, false, none, some, List, [], ◌∷◌, ◌++◌, Bytes, Result,
}
use rate_limiter.Base.Int.{ℤ}
use rate_limiter.Float.{Float}
use rate_limiter.Redis.{DecrementError, Delivery, network, max_redirects, attempt}
use rate_limiter.Ml.{FeatureVector, ScoreResponse, Scored, returns, panics, score_of}
use rate_limiter.Engine.Interface.{Decision, Task, World}
use rate_limiter.Engine.Evaluate.{bucket_exhausted}
use rate_limiter.Engine.Events.{announced, listed}
use rate_limiter.Server.Respond.{write_response}
use rate_limiter.Server.Connection.{bad_json_decision}
use rate_limiter.Serving.System.{
  Program, decide, idle, called, counted, judged, Conn, System, new_conn, write, perform,
}

-- What a step shows: the address, the server's second and the fate of a run of the script.
pub data Label : Type 0 where
  silent : Label
  took : Bytes → ℕ → Delivery → Label

module _ (P : Program) where
  -- One step of the goroutine of a connection.
  pub data Move
      : Conn P
        → World P.redis P.blocklist
        → Label
        → Conn P
        → World P.redis P.blocklist
        → Type 0 where
    read_bad :
        (c : Conn P) (w : World P.redis P.blocklist) (line : Bytes) (rest : List Bytes)
        (in_time : Bool)
        → c.activity ≡ idle
        → c.unread ≡ line ∷ rest
        → P.unmarshal line ≡ none
        → Move c w silent
            (record c {
              unread = rest;
              written = write P in_time (write_response bad_json_decision) c.written;
            })
            w
    read_good :
        (c : Conn P) (w : World P.redis P.blocklist) (line : Bytes) (rest : List Bytes)
        (fv : FeatureVector)
        → c.activity ≡ idle
        → c.unread ≡ line ∷ rest
        → P.unmarshal line ≡ some fv
        → Move c w silent (record c { unread = rest; activity = called fv max_redirects }) w
    hang_up :
        (c : Conn P) (w : World P.redis P.blocklist) (line : Bytes) (rest : List Bytes)
        → c.activity ≡ idle
        → c.unread ≡ line ∷ rest
        → Move c w silent (record c { unread = [] }) w
    -- An attempt without a reply, which the cluster client makes again.
    retry :
        (c : Conn P) (w : World P.redis P.blocklist) (fv : FeatureVector) (second : ℕ) (left : ℕ)
        (delivery : Delivery)
        → c.activity ≡ called fv (suc left)
        → (attempt P.redis P.engine.redis second delivery fv.client_ip w.redis).0 ≡ err network
        → Move c w
            (took fv.client_ip second delivery)
            (record c { activity = called fv left })
            (record w {
              redis = (attempt P.redis P.engine.redis second delivery fv.client_ip w.redis).1;
            })
    -- The last attempt: a reply, or the client gives up.
    take :
        (c : Conn P) (w : World P.redis P.blocklist) (fv : FeatureVector) (second : ℕ) (left : ℕ)
        (delivery : Delivery)
        → c.activity ≡ called fv left
        → Move c w
            (took fv.client_ip second delivery)
            (record c {
              activity =
                  counted fv
                    (attempt P.redis P.engine.redis second delivery fv.client_ip w.redis).0;
            })
            (record w {
              redis = (attempt P.redis P.engine.redis second delivery fv.client_ip w.redis).1;
            })
    judge :
        (c : Conn P) (w : World P.redis P.blocklist) (fv : FeatureVector)
        (r : Result (DecrementError P.redis.Error) ℤ) (scored : Result P.RpcError ScoreResponse)
        (s : Scored P.RpcError)
        → c.activity ≡ counted fv r
        → score_of P.engine.ml scored ≡ returns s
        → Move c w silent
            (record c {
              activity =
                  judged fv s.score (decide P.invalid P.engine.cfg s.score (bucket_exhausted r));
            })
            (record w {
              blocklist =
                  listed P.blocklist
                    (decide P.invalid P.engine.cfg s.score (bucket_exhausted r)).action
                    fv.client_ip
                    w.blocklist;
            })
    announce :
        (c : Conn P) (w : World P.redis P.blocklist) (fv : FeatureVector) (score : Float)
        (d : Decision) (timestamp : ℤ) (in_time : Bool)
        → c.activity ≡ judged fv score d
        → Move c w silent
            (record c {
              activity = idle;
              decided = c.decided ++ (fv, d) ∷ [];
              written = write P in_time (write_response d) c.written;
            })
            (record w { tasks = w.tasks ++ announced d.action fv score timestamp })

  -- One step of the process. An error of `Accept` that is not the end of the listener changes nothing.
  pub data Step : System P → Label → System P → Type 0 where
    accept :
        (s : System P) (received : Bytes)
        → s.alive ≡ true
        → s.listening ≡ true
        → Step s silent (record s { conns = s.conns ++ new_conn P received ∷ [] })
    close_listener :
        (s : System P)
        → s.alive ≡ true
        → s.listening ≡ true
        → Step s silent (record s { listening = false })
    move :
        (s : System P) (before after : List (Conn P)) (c c' : Conn P)
        (w : World P.redis P.blocklist) (l : Label)
        → s.alive ≡ true
        → s.conns ≡ before ++ (c ∷ after)
        → Move c s.world l c' w
        → Step s l (record s { conns = before ++ (c' ∷ after); world = w })
    publish :
        (s : System P) (before after : List Task) (task : Task) (now : ℤ)
        → s.alive ≡ true
        → s.world.tasks ≡ before ++ (task ∷ after)
        → Step s silent (record s {
          world = record s.world { tasks = before ++ after };
          producer = perform P task now s.producer;
        })
    -- The HTTP server takes a request until `Shutdown` has closed its listener; a handler touches the
    -- block list at most once.
    http_accept :
        (s : System P) (request : P.Request)
        → s.alive ≡ true
        → s.http_listening ≡ true
        → Step s silent (record s { requests = s.requests ++ request ∷ [] })
    http_respond :
        (s : System P) (before after : List P.Request) (request : P.Request)
        → s.alive ≡ true
        → s.requests ≡ before ++ (request ∷ after)
        → Step s silent (record s {
          requests = before ++ after;
          responses = s.responses ++ (P.respond request s.world.blocklist).0 ∷ [];
          world = record s.world { blocklist = (P.respond request s.world.blocklist).1 };
        })
    http_close :
        (s : System P)
        → s.alive ≡ true
        → s.http_listening ≡ true
        → Step s silent (record s { http_listening = false })
    -- A panic in one goroutine ends the process.
    panic :
        (s : System P) (before after : List (Conn P)) (c : Conn P) (fv : FeatureVector)
        (r : Result (DecrementError P.redis.Error) ℤ) (scored : Result P.RpcError ScoreResponse)
        → s.alive ≡ true
        → s.conns ≡ before ++ (c ∷ after)
        → c.activity ≡ counted fv r
        → score_of P.engine.ml scored ≡ panics
        → Step s silent (record s { alive = false })
    -- `main` returns, two seconds behind the signal, or `log.Fatal` is called.
    exit : (s : System P) → s.alive ≡ true → Step s silent (record s { alive = false })

  -- A run, with its labels in the order of time.
  pub data Run : System P → List Label → System P → Type 0 where
    stop : (s : System P) → Run s [] s
    next :
        {s t u : System P} {l : Label} {ls : List Label}
        → Step s l t
        → Run t ls u
        → Run s (l ∷ ls) u

  pub Run-append :
      {s t u : System P} {ls ms : List Label} → Run s ls t → Run t ms u → Run s (ls ++ ms) u
  Run-append (stop s) r = r
  Run-append (next st q) r = next st (Run-append q r)
