-- ===== src/Serving/Work.antt =====
-- How much is left to do when nothing new comes in.
use rate_limiter.Base.{
  ℕ, ◌+◌, ◌*◌, ◌≤◌, ◌<◌, ◌≡◌, ap, false, List, [], ◌∷◌, ◌++◌, if◌then◌else◌, length, length-append,
  arith,
}
use rate_limiter.Base.Int.{ℤ}
use rate_limiter.Float.{Float}
use rate_limiter.Ml.{FeatureVector}
use rate_limiter.Engine.Interface.{Action, allow, throttle, block, World}
use rate_limiter.Engine.Events.{announced}
use rate_limiter.Serving.System.{Program, Activity, idle, called, counted, judged, Conn, System}
use rate_limiter.Serving.Steps.{
  Label, Move, read_bad, read_good, hang_up, retry, take, judge, announce, Step, accept,
  close_listener, move, publish, http_accept, http_respond, http_close, panic, exit, Run, stop,
  next,
}

-- An action starts one goroutine or two.
length-announced :
    (a : Action) (fv : FeatureVector) (score : Float) (now : ℤ)
    → length (announced a fv score now) ≤ 2
length-announced allow fv score now = omega arith
length-announced throttle fv score now = omega arith
length-announced block fv score now = omega arith

module _ (P : Program) where
  -- How much a connection can still do, its goroutines that publish included.
  abbrev pub stage : Activity P → ℕ
  stage idle = 0
  stage (called fv left) = 5 + left
  stage (counted fv r) = 4
  stage (judged fv score d) = 3

  abbrev pub conn_work : Conn P → ℕ
  conn_work c = length c.unread * 9 + stage c.activity

  abbrev pub conns_work : List (Conn P) → ℕ
  conns_work [] = 0
  conns_work (c ∷ cs) = conn_work c + conns_work cs

  conns_work-append :
      (before after : List (Conn P))
      → conns_work (before ++ after) ≡ conns_work before + conns_work after
  conns_work-append [] after = omega arith
  conns_work-append (c ∷ before) after = omega (arith, conns_work-append before after)

  abbrev pub work : System P → ℕ
  work s =
      conns_work s.conns + length s.requests + length s.world.tasks + (if s.alive then 1 else 0)

  -- Neither server listens.
  abbrev pub IsShut : System P → Type 0
  IsShut s = (s.listening ≡ false) × (s.http_listening ≡ false)

  Move-work :
      {c : Conn P} {w : World P.redis P.blocklist} {l : Label} {c' : Conn P}
      {w' : World P.redis P.blocklist}
      → Move P c w l c' w'
      → conn_work c' + length w'.tasks < conn_work c + length w.tasks
  Move-work (read_bad c w line rest in_time a u bad) = ground arith
  Move-work (read_good c w line rest fv a u good) = ground arith
  Move-work (hang_up c w line rest a u) = ground arith
  Move-work (take c w fv second left delivery a) = ground arith
  Move-work (retry c w fv second left delivery a lost) = ground arith
  Move-work (judge c w fv r scored s a m) = ground arith
  Move-work (announce c w fv score d timestamp in_time a) = ground (
    arith,
    length-append w.tasks (announced d.action fv score timestamp),
    length-announced d.action fv score timestamp,
  )

  record Shrinks (s t : System P) : Type 0 where
    less : work t < work s
    closed : IsShut t

  Step-Shrinks : {s : System P} {l : Label} {t : System P} → IsShut s → Step P s l t → Shrinks s t
  Step-Shrinks (shut, http_shut) (accept s received a o) = absurd (ground arith)
  Step-Shrinks (shut, http_shut) (close_listener s a o) = absurd (ground arith)
  Step-Shrinks shut (move s before after c c' w l a at m) = record {
    less = omega (
      arith,
      ap conns_work at,
      conns_work-append before (c ∷ after),
      conns_work-append before (c' ∷ after),
      Move-work m,
    );
    closed = shut;
  }
  Step-Shrinks shut (publish s before after task now a at) = record {
    less =
        omega
          (arith, ap length at, length-append before (task ∷ after), length-append before after);
    closed = shut;
  }
  Step-Shrinks (shut, http_shut) (http_accept s request a o) = absurd (ground arith)
  Step-Shrinks (shut, http_shut) (http_close s a o) = absurd (ground arith)
  Step-Shrinks shut (http_respond s before after request a at) = record {
    less =
        omega
          (arith, ap length at, length-append before (request ∷ after), length-append before after);
    closed = shut;
  }
  Step-Shrinks shut (panic s before after c fv r scored a at b m) = record {
    less = rw a (omega arith);
    closed = shut;
  }
  Step-Shrinks shut (exit s a) = record { less = rw a (omega arith); closed = shut }

  pub run_length :
      {s : System P} {ls : List Label} {t : System P}
      → IsShut s
      → Run P s ls t
      → length ls + work t ≤ work s
  run_length shut (stop s) = omega arith
  run_length shut (next st r) =
      let S = Step-Shrinks shut st in omega (arith, S.less, run_length S.closed r)
