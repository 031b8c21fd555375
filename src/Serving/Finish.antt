-- ===== src/Serving/Finish.antt =====
-- The end of a server that no longer listens: nothing runs for ever, and nothing waits for ever.
use rate_limiter.Base.{
  ◌≤◌, ◌≡◌, ◌⊎◌, ◌∙◌, refl, sym, append_assoc, inl, inr, Bool-cases, true, false, Option-cases,
  none, List, [], ◌∷◌, ◌++◌, Bytes, ok, length, All, arith,
}
use rate_limiter.Base.Int.{pos}
use rate_limiter.Float.{fin}
use rate_limiter.Redis.{replied}
use rate_limiter.Ml.{ScoreResponse, returns, dialled, score_of}
use rate_limiter.Engine.Interface.{Task, World}
use rate_limiter.Serving.System.{Program, Activity, idle, called, counted, judged, Conn, System}
use rate_limiter.Serving.Steps.{
  Label, silent, Move, read_bad, read_good, take, judge, announce, Step, move, publish,
  http_respond, Run,
}
use rate_limiter.Serving.Work.{work, IsShut, run_length}

-- An answer of the sidecar.
abbrev blank : ScoreResponse
blank = record { anomaly_score = fin (pos 0); model_version = [] }

module _ (P : Program) where
  -- The goroutine of the connection is through with its lines.
  abbrev pub IsServed : Conn P → Type 0
  IsServed c = (c.activity ≡ idle) × (c.unread ≡ [])

  -- A step is possible after which the process is alive.
  abbrev pub CanStep : System P → Type 0
  CanStep s = (l : Label) × (t : System P) × Step P s l t × (t.alive ≡ true)

  record Moves (c : Conn P) (w : World P.redis P.blocklist) : Type 0 where
    label : Label
    conn : Conn P
    world : World P.redis P.blocklist
    moves : Move P c w label conn world

  -- The line under the hand of an idle connection, and the calls at each of their stages.
  idle-Moves :
      (c : Conn P) (w : World P.redis P.blocklist) (lines : List Bytes)
      → c.activity ≡ idle
      → c.unread ≡ lines
      → IsServed c ⊎ Moves c w
  idle-Moves c w [] i u = inl (i, u)
  idle-Moves c w (line ∷ rest) i u = elim (Option-cases (P.unmarshal line)) [
    | inl bad ↦
        inr (record { label = _; conn = _; world = _; moves = read_bad c w line rest true i u bad })
    | inr (fv, good) ↦
        inr (record { label = _; conn = _; world = _; moves = read_good c w line rest fv i u good })
  ]

  blank_scored :
      P.engine.ml ≡ dialled
      → score_of {E = P.RpcError} P.engine.ml (ok blank)
        ≡ returns (record { score = fin (pos 0); model_version = []; error = none })
  unfolding score_of
  blank_scored ml = rw ml refl

  active-Moves :
      (c : Conn P) (w : World P.redis P.blocklist) (a : Activity P)
      → P.engine.ml ≡ dialled
      → c.activity ≡ a
      → IsServed c ⊎ Moves c w
  active-Moves c w idle ml e = idle-Moves c w c.unread e refl
  active-Moves c w (called fv left) ml e =
      inr (record { label = _; conn = _; world = _; moves = take c w fv 0 left replied e })
  active-Moves c w (counted fv r) ml e = inr (record {
    label = _;
    conn = _;
    world = _;
    moves = judge c w fv r (ok blank) _ e (blank_scored ml);
  })
  active-Moves c w (judged fv score d) ml e =
      inr
        (record { label = _; conn = _; world = _; moves = announce c w fv score d (pos 0) true e })

  conns_move :
      (s : System P) (before after : List (Conn P))
      → P.engine.ml ≡ dialled
      → s.alive ≡ true
      → s.conns ≡ before ++ after
      → All IsServed after ⊎ CanStep s
  conns_move s before [] ml a at = inl tt
  conns_move s before (c ∷ after) ml a at = elim (active-Moves c s.world c.activity ml refl) [
    | inr M ↦ inr (M.label, _, move s before after c M.conn M.world M.label a at M.moves, a)
    | inl served ↦
        elim (conns_move s (before ++ c ∷ []) after ml a
          (at ∙ sym (append_assoc before (c ∷ []) after))) [
            | inl rest ↦ inl (served, rest)
            | inr can ↦ inr can
          ]
  ]

  tasks_move :
      (s : System P) (ts : List Task) → s.alive ≡ true → s.world.tasks ≡ ts → (ts ≡ []) ⊎ CanStep s
  tasks_move s [] a at = inl refl
  tasks_move s (task ∷ ts) a at = inr (silent, _, publish s [] ts task (pos 0) a at, a)

  requests_move :
      (s : System P) (qs : List P.Request)
      → s.alive ≡ true
      → s.requests ≡ qs
      → (qs ≡ []) ⊎ CanStep s
  requests_move s [] a at = inl refl
  requests_move s (request ∷ qs) a at = inr (silent, _, http_respond s [] qs request a at, a)

  -- Served connections, no goroutine left that publishes, and no request without a response.
  abbrev pub IsDone : System P → Type 0
  IsDone s = All IsServed s.conns × (s.world.tasks ≡ []) × (s.requests ≡ [])

  progress : (s : System P) → P.engine.ml ≡ dialled → s.alive ≡ true → IsDone s ⊎ CanStep s
  progress s ml a = elim (conns_move s [] s.conns ml a refl) [
    | inr can ↦ inr can
    | inl served ↦ elim (tasks_move s s.world.tasks a refl) [
      | inr can ↦ inr can
      | inl none_left ↦ elim (requests_move s s.requests a refl) [
        | inr can ↦ inr can
        | inl answered ↦ inl (served, none_left, answered)
      ]
    ]
  ]

  -- A process with a client of the sidecar whose two servers no longer listen, and any run of it: the
  -- run has no more steps than there is work, which is nine for each unread line, five for a call and
  -- one for each retry that it has left, one for each HTTP request and for each goroutine that publishes, and one for the end of the
  -- process; and at the end of the run the process is over, or every connection is served, every request
  -- answered and every goroutine done, or a further step is possible that the process survives.
  pub run_ends :
      {s : System P} {ls : List Label} {t : System P}
      → P.engine.ml ≡ dialled
      → IsShut P s
      → Run P s ls t
      → (length ls ≤ work P s) × ((t.alive ≡ false) ⊎ (IsDone t ⊎ CanStep t))
  run_ends {s} {ls} {t} ml shut r = (
    omega (arith, run_length P shut r),
    elim (Bool-cases t.alive) [ inl a ↦ inr (progress t ml a) | inr over ↦ inl over ],
  )
