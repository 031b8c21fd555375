-- ===== src/Lifecycle/Listed.antt =====
-- Whom the process puts on its block list: the engine and the HTTP server share it.
use rate_limiter.Base.{◌≡◌, ◌≢◌, none, List, Bytes, ok, All-append_inv}
use rate_limiter.Bpf.{IsLawful}
use rate_limiter.Blocklist.{ip_to_key}
use rate_limiter.Engine.Interface.{ebpf_blocklist, World}
use rate_limiter.Engine.Evaluate.{Engine, bucket_exhausted}
use rate_limiter.Serving.System.{Program, decide, Conn, System}
use rate_limiter.Serving.Steps.{
  Label, Move, read_bad, read_good, hang_up, retry, take, judge, announce, Step, accept,
  close_listener, move, publish, http_accept, http_respond, http_close, panic, exit, Run, stop,
  next,
}
use rate_limiter.Lifecycle.{Services, Outside, program}
use rate_limiter.Server.Spares.{asks, shown, Spares, serve_http_absent, listed_absent}
use rate_limiter.Serving.Named.{named_by_move, named_by, named}

module _ (S : Services) (O : Outside S) (L : IsLawful S.blocked_ips)
    (e : Engine S.invalid S.redis (ebpf_blocklist S.blocked_ips)) (j : Bytes) where
  abbrev P : Program
  P = program S O e

  Move_absent :
      {c : Conn P} {w : World P.redis P.blocklist} {l : Label} {c' : Conn P}
      {w' : World P.redis P.blocklist} (m : Move P c w l c' w')
      → Spares j (named_by_move P asks m)
      → shown S.blocked_ips w.blocklist j ≡ none
      → shown S.blocked_ips w'.blocklist j ≡ none
  Move_absent (judge c w fv r scored s a m) spared absent =
      listed_absent S.blocked_ips L j
        (decide P.invalid P.engine.cfg s.score (bucket_exhausted r)).action fv.client_ip w.blocklist
        spared absent
  Move_absent (read_bad c w line rest in_time a u bad) spared absent = absent
  Move_absent (read_good c w line rest fv a u good) spared absent = absent
  Move_absent (hang_up c w line rest a u) spared absent = absent
  Move_absent (retry c w fv second left delivery a lost) spared absent = absent
  Move_absent (take c w fv second left delivery a) spared absent = absent
  Move_absent (announce c w fv score d timestamp in_time a) spared absent = absent

  Step-absent :
      {s : System P} {l : Label} {t : System P} (st : Step P s l t)
      → Spares j (named_by P asks st)
      → shown S.blocked_ips s.world.blocklist j ≡ none
      → shown S.blocked_ips t.world.blocklist j ≡ none
  Step-absent (move s before after c c' w l a at m) spared absent = Move_absent m spared absent
  Step-absent (http_respond s before after request a at) spared absent =
      serve_http_absent S.blocked_ips L j S.router request s.world.blocklist spared absent
  Step-absent (accept s received a o) spared absent = absent
  Step-absent (close_listener s a o) spared absent = absent
  Step-absent (publish s before after task now a at) spared absent = absent
  Step-absent (http_accept s request a o) spared absent = absent
  Step-absent (http_close s a o) spared absent = absent
  Step-absent (panic s before after c fv r scored a at b m) spared absent = absent
  Step-absent (exit s a) spared absent = absent

  -- Any run of the process that `main` starts, with the engine and the HTTP server interleaved: if no
  -- address that a decision blocks, and none that a POST to the HTTP server binds, has the key `j`, and the
  -- map shows nothing under `j` at the start, it shows nothing under it at the end.
  pub listed_named :
      {s : System P} {ls : List Label} {t : System P} (r : Run P s ls t)
      → Spares j (named P asks r)
      → shown S.blocked_ips s.world.blocklist j ≡ none
      → shown S.blocked_ips t.world.blocklist j ≡ none
  listed_named (stop s) spared absent = absent
  listed_named (next st r) spared absent =
      let (first, rest) =
        All-append_inv (λ ip. ip_to_key ip ≢ ok j) (named_by P asks st) (named P asks r) spared in
      listed_named r rest (Step-absent st first absent)
