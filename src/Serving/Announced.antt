-- ===== src/Serving/Announced.antt =====
-- What the socket server publishes, against what it decides.
use rate_limiter.Base.{
  ℕ, ◌+◌, ◌≡◌, refl, ap, Bool, true, false, ◌&&◌, List, [], ◌∷◌, ◌++◌, Bytes, bytes_eq,
  if◌then◌else◌, arith,
}
use rate_limiter.Base.Int.{ℤ}
use rate_limiter.Float.{Float}
use rate_limiter.Ml.{FeatureVector}
use rate_limiter.Engine.Interface.{
  Action, allow, throttle, block, action_text, Decision, Task, publish_blocked, publish_decision,
  World,
}
use rate_limiter.Engine.Evaluate.{event_of}
use rate_limiter.Engine.Events.{announced}
use rate_limiter.Serving.System.{Program, Conn, System, new_conn}
use rate_limiter.Serving.Steps.{
  Label, Move, read_bad, read_good, hang_up, retry, take, judge, announce, Step, accept,
  close_listener, move, publish, http_accept, http_respond, http_close, panic, exit, Run, stop,
  next,
}

-- Weighed goroutines, and weighed decisions.
abbrev pub weight : (Task → ℕ) → List Task → ℕ
weight q [] = 0
weight q (t ∷ ts) = q t + weight q ts

abbrev pub made : (FeatureVector → Action → ℕ) → List (FeatureVector × Decision) → ℕ
made p [] = 0
made p ((fv, d) ∷ ds) = p fv d.action + made p ds

weight-append : (q : Task → ℕ) (xs ys : List Task) → weight q (xs ++ ys) ≡ weight q xs + weight q ys
weight-append q [] ys = omega arith
weight-append q (x ∷ xs) ys = omega (arith, weight-append q xs ys)

made-append :
    (p : FeatureVector → Action → ℕ) (xs ys : List (FeatureVector × Decision))
    → made p (xs ++ ys) ≡ made p xs + made p ys
made-append p [] ys = omega arith
made-append p ((fv, d) ∷ xs) ys = omega (arith, made-append p xs ys)

module _ (P : Program) where
  abbrev pub all_made : (FeatureVector → Action → ℕ) → List (Conn P) → ℕ
  all_made p [] = 0
  all_made p (c ∷ cs) = made p c.decided + all_made p cs

  all_made-append :
      (p : FeatureVector → Action → ℕ) (xs ys : List (Conn P))
      → all_made p (xs ++ ys) ≡ all_made p xs + all_made p ys
  all_made-append p [] ys = omega arith
  all_made-append p (c ∷ xs) ys = omega (arith, all_made-append p xs ys)

  -- The goroutines that a step, and a run, bring to their end.
  abbrev pub ended_by : {s : System P} {l : Label} {t : System P} → Step P s l t → List Task
  ended_by (publish s before after task now a at) = task ∷ []
  ended_by (accept s received a o) = []
  ended_by (close_listener s a o) = []
  ended_by (move s before after c c' w l a at m) = []
  ended_by (http_accept s request a o) = []
  ended_by (http_respond s before after request a at) = []
  ended_by (http_close s a o) = []
  ended_by (panic s before after c fv r scored a at b m) = []
  ended_by (exit s a) = []

  abbrev pub ended : {s : System P} {ls : List Label} {t : System P} → Run P s ls t → List Task
  ended (stop s) = []
  ended (next st r) = ended_by st ++ ended r

  new_conn-made :
      (p : FeatureVector → Action → ℕ) (received : Bytes) → made p (new_conn P received).decided ≡ 0
  unfolding new_conn
  new_conn-made p received = refl

  module _ (q : Task → ℕ) (p : FeatureVector → Action → ℕ)
      (same : (a : Action) (fv : FeatureVector) (score : Float) (now : ℤ)
        → weight q (announced a fv score now) ≡ p fv a) where
    Move-made :
        {c : Conn P} {w : World P.redis P.blocklist} {l : Label} {c' : Conn P}
        {w' : World P.redis P.blocklist}
        → Move P c w l c' w'
        → made p c'.decided + weight q w.tasks ≡ made p c.decided + weight q w'.tasks
    Move-made (read_bad c w line rest in_time a u bad) = refl
    Move-made (read_good c w line rest fv a u good) = refl
    Move-made (hang_up c w line rest a u) = refl
    Move-made (retry c w fv second left delivery a lost) = refl
    Move-made (take c w fv second left delivery a) = refl
    Move-made (judge c w fv r scored s a m) = refl
    Move-made (announce c w fv score d timestamp in_time a) = omega (
      arith,
      made-append p c.decided ((fv, d) ∷ []),
      weight-append q w.tasks (announced d.action fv score timestamp),
      same d.action fv score timestamp,
    )

    Step-made :
        {s : System P} {l : Label} {t : System P} (st : Step P s l t)
        → all_made p t.conns + weight q s.world.tasks
          ≡ all_made p s.conns + (weight q t.world.tasks + weight q (ended_by st))
    Step-made (accept s received a o) =
        omega
          (arith, all_made-append p s.conns (new_conn P received ∷ []), new_conn-made p received)
    Step-made (close_listener s a o) = omega arith
    Step-made (move s before after c c' w l a at m) = omega (
      arith,
      ap (all_made p) at,
      all_made-append p before (c ∷ after),
      all_made-append p before (c' ∷ after),
      Move-made m,
    )
    Step-made (publish s before after task now a at) = omega (
      arith,
      ap (weight q) at,
      weight-append q before (task ∷ after),
      weight-append q before after,
    )
    Step-made (http_accept s request a o) = omega arith
    Step-made (http_respond s before after request a at) = omega arith
    Step-made (http_close s a o) = omega arith
    Step-made (panic s before after c fv r scored a at b m) = omega arith
    Step-made (exit s a) = omega arith

    Run-made :
        {s : System P} {ls : List Label} {t : System P} (r : Run P s ls t)
        → all_made p t.conns + weight q s.world.tasks
          ≡ all_made p s.conns + (weight q t.world.tasks + weight q (ended r))
    Run-made (stop s) = omega arith
    Run-made (next st r) =
        omega (arith, Step-made st, Run-made r, weight-append q (ended_by st) (ended r))

abbrev pub same_action : Action → Action → Bool
same_action allow allow = true
same_action throttle throttle = true
same_action block block = true
same_action _ _ = false

-- A decision on an address, its event, and the message on a blocked address.
abbrev pub decision_on : Bytes → Action → FeatureVector → Action → ℕ
decision_on ip a fv b = if bytes_eq fv.client_ip ip && same_action b a then 1 else 0

abbrev pub event_on : Bytes → Action → Task → ℕ
event_on ip a (publish_decision e) =
    if bytes_eq e.ip ip && bytes_eq e.action (action_text a) then 1 else 0
event_on ip a (publish_blocked jp) = 0

abbrev pub blocked_on : Bytes → Task → ℕ
blocked_on ip (publish_decision e) = 0
blocked_on ip (publish_blocked jp) = if bytes_eq jp ip then 1 else 0

action_text-same_action :
    (b a : Action) → bytes_eq (action_text b) (action_text a) ≡ same_action b a
unfolding bytes_eq
action_text-same_action allow allow = refl
action_text-same_action allow throttle = refl
action_text-same_action allow block = refl
action_text-same_action throttle allow = refl
action_text-same_action throttle throttle = refl
action_text-same_action throttle block = refl
action_text-same_action block allow = refl
action_text-same_action block throttle = refl
action_text-same_action block block = refl

event_on-announced :
    (ip : Bytes) (a b : Action) (fv : FeatureVector) (score : Float) (now : ℤ)
    → weight (event_on ip a) (announced b fv score now) ≡ decision_on ip a fv b
unfolding event_of
event_on-announced ip a allow fv score now = rw (action_text-same_action allow a) (omega arith)
event_on-announced ip a throttle fv score now =
    rw (action_text-same_action throttle a) (omega arith)
event_on-announced ip a block fv score now = rw (action_text-same_action block a) (omega arith)

blocked_on-announced :
    (ip : Bytes) (b : Action) (fv : FeatureVector) (score : Float) (now : ℤ)
    → weight (blocked_on ip) (announced b fv score now) ≡ decision_on ip block fv b
blocked_on-announced ip allow fv score now = ground arith
blocked_on-announced ip throttle fv score now = ground arith
blocked_on-announced ip block fv score now = ground arith

-- A server without connections and without goroutines that publish, and any run of it: of each address
-- and each action, there are as many decisions as goroutines that publish such a decision, those that
-- are through and those that are not; and as many blocks of an address as goroutines that publish
-- it as blocked.
pub announced_once :
    (P : Program) {s : System P} {ls : List Label} {t : System P} (ip : Bytes) (a : Action)
    (r : Run P s ls t)
    → s.conns ≡ []
    → s.world.tasks ≡ []
    → (all_made P (decision_on ip a) t.conns
        ≡ weight (event_on ip a) t.world.tasks + weight (event_on ip a) (ended P r))
      × (all_made P (decision_on ip block) t.conns
          ≡ weight (blocked_on ip) t.world.tasks + weight (blocked_on ip) (ended P r))
announced_once P ip a r none_yet nothing = (
  omega (
    arith,
    ap (all_made P (decision_on ip a)) none_yet,
    ap (weight (event_on ip a)) nothing,
    Run-made P (event_on ip a) (decision_on ip a) (event_on-announced ip a) r,
  ),
  omega (
    arith,
    ap (all_made P (decision_on ip block)) none_yet,
    ap (weight (blocked_on ip)) nothing,
    Run-made P (blocked_on ip) (decision_on ip block) (blocked_on-announced ip) r,
  ),
)
