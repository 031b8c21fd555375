-- ===== src/Serving/Passes.antt =====
-- How many requests of one address the server has let pass, or may yet let pass.
use rate_limiter.Base.{
  ℕ, ◌+◌, ◌≤◌, ◌≡◌, refl, Bool, List, [], ◌∷◌, ◌++◌, Bytes, bytes_eq, if◌then◌else◌, arith,
}
use rate_limiter.Base.Int.{ℤ}
use rate_limiter.Float.{Float}
use rate_limiter.Config.{Config}
use rate_limiter.Redis.{attempt}
use rate_limiter.Ml.{FeatureVector}
use rate_limiter.Engine.Interface.{Action, allow, throttle, block, Decision, World}
use rate_limiter.Engine.Evaluate.{bucket_exhausted}
use rate_limiter.Serving.System.{
  Program, decide, Activity, idle, called, counted, judged, Conn, System, new_conn,
}
use rate_limiter.Serving.Steps.{
  Label, silent, took, Move, read_bad, read_good, hang_up, retry, take, judge, announce, Step,
  accept, close_listener, move, publish, http_accept, http_respond, http_close, panic, exit,
}

abbrev pub passing : Action → ℕ
passing allow = 1
passing throttle = 1
passing block = 0

-- A count that is for one address alone.
abbrev pub for_ip : Bytes → FeatureVector → ℕ → ℕ
for_ip ip fv n = if bytes_eq fv.client_ip ip then n else 0

-- The decisions on an address that are no block.
abbrev pub passes : Bytes → List (FeatureVector × Decision) → ℕ
passes ip [] = 0
passes ip ((fv, d) ∷ ds) = for_ip ip fv (passing d.action) + passes ip ds

passes-append :
    (ip : Bytes) (ds : List (FeatureVector × Decision)) (fv : FeatureVector) (d : Decision)
    → passes ip (ds ++ (fv, d) ∷ []) ≡ passes ip ds + for_ip ip fv (passing d.action)
passes-append ip [] fv d = omega arith
passes-append ip ((gv, e) ∷ ds) fv d = omega (arith, passes-append ip ds fv d)

passing-decide :
    (invalid : ℤ) (cfg : Config) (score : Float) (exhausted : Bool)
    → passing (decide invalid cfg score exhausted).action ≤ (if exhausted then 0 else 1)
unfolding decide
passing-decide invalid cfg score exhausted = ground arith

module _ (P : Program) where
  -- What the call in flight can still add to the passes.
  abbrev pub in_flight : Bytes → Activity P → ℕ
  in_flight ip idle = 0
  in_flight ip (called fv left) = 0
  in_flight ip (counted fv r) = for_ip ip fv (if bucket_exhausted r then 0 else 1)
  in_flight ip (judged fv score d) = for_ip ip fv (passing d.action)

  abbrev pub claim : Bytes → Conn P → ℕ
  claim ip c = passes ip c.decided + in_flight ip c.activity

  abbrev pub claims : Bytes → List (Conn P) → ℕ
  claims ip [] = 0
  claims ip (c ∷ cs) = claim ip c + claims ip cs

  -- The passes of all connections.
  abbrev pub all_passes : Bytes → List (Conn P) → ℕ
  all_passes ip [] = 0
  all_passes ip (c ∷ cs) = passes ip c.decided + all_passes ip cs

  pub all_passes-le : (ip : Bytes) (cs : List (Conn P)) → all_passes ip cs ≤ claims ip cs
  all_passes-le ip [] = omega arith
  all_passes-le ip (c ∷ cs) = omega (arith, all_passes-le ip cs)

  claims-append :
      (ip : Bytes) (before after : List (Conn P))
      → claims ip (before ++ after) ≡ claims ip before + claims ip after
  claims-append ip [] after = omega arith
  claims-append ip (c ∷ before) after = omega (arith, claims-append ip before after)

  -- What a label says of the claims on an address, and of the Redis server.
  abbrev pub Effect : Bytes → ℕ → P.redis.State → Label → ℕ → P.redis.State → Type 0
  Effect ip n s silent n' s' = (n' ≤ n) × (s' ≡ s)
  Effect ip n s (took j second delivery) n' s' =
      (n'
        ≤ n
          + (if bytes_eq j ip
              then (if bucket_exhausted (attempt P.redis P.engine.redis second delivery j s).0
                  then 0
                  else 1)
              else 0))
      × (s' ≡ (attempt P.redis P.engine.redis second delivery j s).1)

  Move-Effect :
      (ip : Bytes) {c : Conn P} {w : World P.redis P.blocklist} {l : Label} {c' : Conn P}
      {w' : World P.redis P.blocklist}
      → Move P c w l c' w'
      → Effect ip (claim ip c) w.redis l (claim ip c') w'.redis
  Move-Effect ip (read_bad c w line rest in_time a u bad) = (omega arith, refl)
  Move-Effect ip (read_good c w line rest fv a u good) = (ground arith, refl)
  Move-Effect ip (hang_up c w line rest a u) = (omega arith, refl)
  Move-Effect ip (take c w fv second left delivery a) = (ground arith, refl)
  Move-Effect ip (retry c w fv second left delivery a lost) = (ground arith, refl)
  Move-Effect ip (judge c w fv r scored s a m) =
      (ground (arith, passing-decide P.invalid P.engine.cfg s.score (bucket_exhausted r)), refl)
  Move-Effect ip (announce c w fv score d timestamp in_time a) =
      (ground (arith, passes-append ip c.decided fv d), refl)

  Effect-among :
      (ip : Bytes) (l : Label) (n n' k m : ℕ) (s s' : P.redis.State)
      → Effect ip n s l n' s'
      → Effect ip (k + (n + m)) s l (k + (n' + m)) s'
  Effect-among ip silent n n' k m s s' (h, e) = (omega arith, e)
  Effect-among ip (took j second delivery) n n' k m s s' (h, e) = (omega arith, e)

  new_conn-claim : (ip : Bytes) (received : Bytes) → claim ip (new_conn P received) ≡ 0
  unfolding new_conn
  new_conn-claim ip received = refl

  pub Step-Effect :
      (ip : Bytes) {s : System P} {l : Label} {t : System P}
      → Step P s l t
      → Effect ip (claims ip s.conns) s.world.redis l (claims ip t.conns) t.world.redis
  Step-Effect ip (accept s received a o) = (
    omega (arith, claims-append ip s.conns (new_conn P received ∷ []), new_conn-claim ip received),
    refl,
  )
  Step-Effect ip (close_listener s a o) = (omega arith, refl)
  Step-Effect ip (move s before after c c' w l a at m) =
      rw (at, claims-append ip before (c ∷ after), claims-append ip before (c' ∷ after))
        (Effect-among ip l (claim ip c) (claim ip c') (claims ip before) (claims ip after)
          s.world.redis w.redis (Move-Effect ip m))
  Step-Effect ip (publish s before after task now a at) = (omega arith, refl)
  Step-Effect ip (http_accept s request a o) = (omega arith, refl)
  Step-Effect ip (http_respond s before after request a at) = (omega arith, refl)
  Step-Effect ip (http_close s a o) = (omega arith, refl)
  Step-Effect ip (panic s before after c fv r scored a at b m) = (omega arith, refl)
  Step-Effect ip (exit s a) = (omega arith, refl)
