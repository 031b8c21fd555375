-- ===== src/Serving/Named.antt =====
-- Whom the steps of the process want on the block list.
use rate_limiter.Base.{List, [], ◌++◌, Bytes}
use rate_limiter.Engine.Interface.{World}
use rate_limiter.Engine.Evaluate.{bucket_exhausted}
use rate_limiter.Serving.System.{Program, decide, Conn, System}
use rate_limiter.Serving.Steps.{
  Label, Move, read_bad, read_good, hang_up, retry, take, judge, announce, Step, accept,
  close_listener, move, publish, http_accept, http_respond, http_close, panic, exit, Run, stop,
  next,
}
use rate_limiter.Server.Spares.{blocks}

module _ (P : Program) (asked : P.Request → List Bytes) where
  -- Whom a step, and a run, want on the block list.
  abbrev pub named_by_move :
      {c : Conn P} {w : World P.redis P.blocklist} {l : Label} {c' : Conn P}
      {w' : World P.redis P.blocklist}
      → Move P c w l c' w'
      → List Bytes
  named_by_move (judge c w fv r scored s a m) =
      blocks (decide P.invalid P.engine.cfg s.score (bucket_exhausted r)).action fv.client_ip
  named_by_move (read_bad c w line rest in_time a u bad) = []
  named_by_move (read_good c w line rest fv a u good) = []
  named_by_move (hang_up c w line rest a u) = []
  named_by_move (retry c w fv second left delivery a lost) = []
  named_by_move (take c w fv second left delivery a) = []
  named_by_move (announce c w fv score d timestamp in_time a) = []

  abbrev pub named_by : {s : System P} {l : Label} {t : System P} → Step P s l t → List Bytes
  named_by (move s before after c c' w l a at m) = named_by_move m
  named_by (http_respond s before after request a at) = asked request
  named_by (accept s received a o) = []
  named_by (close_listener s a o) = []
  named_by (publish s before after task now a at) = []
  named_by (http_accept s request a o) = []
  named_by (http_close s a o) = []
  named_by (panic s before after c fv r scored a at b m) = []
  named_by (exit s a) = []

  abbrev pub named : {s : System P} {ls : List Label} {t : System P} → Run P s ls t → List Bytes
  named (stop s) = []
  named (next st r) = named_by st ++ named r
