-- ===== src/Server/Laws.antt =====
-- What a connection gets back.
use rate_limiter.Base.{
  ℕ, suc, ◌≡◌, ◌⊎◌, ◌++◌, refl, ap, Option, none, some, List, [], ◌∷◌, Bytes, length, All, map,
  Option-cases, inl, inr, arith,
}
use rate_limiter.Base.Int.{ℤ}
use rate_limiter.Redis.Server.{RedisServer}
use rate_limiter.Ml.{FeatureVector, returns, panics, dialled, nil}
use rate_limiter.Engine.Interface.{Decision, Blocklist, World, Call}
use rate_limiter.Engine.Evaluate.{Engine, evaluate}
use rate_limiter.Engine.Events.{evaluate-Effects, evaluate_nil}
use rate_limiter.Server.Lines.{scan_lines}
use rate_limiter.Server.Respond.{write_response, IsLine, write_response-IsLine}
use rate_limiter.Server.Connection.{bad_json_decision, handle_line, handle_lines, handle_conn}

module _ (invalid : ℤ) (R : RedisServer) (B : Blocklist)
    (unmarshal : Bytes → Option FeatureVector) where
  -- What one line is decided to be: "allow" if it is no feature vector, with nothing changed, and
  -- otherwise what `Evaluate` decides.
  abbrev pub Decided :
      {E : Type 0} → Engine invalid R B → Call E → Bytes → World R B → Decision → World R B → Type 0
  Decided e call line w d w' =
      ((unmarshal line ≡ none) × ((d ≡ bad_json_decision) × (w' ≡ w)))
      ⊎ ((fv : FeatureVector) × ((unmarshal line ≡ some fv)
            × (evaluate invalid R B e fv call w ≡ returns (d, w'))))

  -- The response at each place is the line of text of the decision on the line at that place, which
  -- sees what the decisions before it have left.
  abbrev pub Responds :
      {E : Type 0}
      → Engine invalid R B
      → (ℕ → Call E)
      → ℕ
      → List Bytes
      → List Bytes
      → World R B
      → World R B
      → Type 0
  Responds e calls i [] [] w w' = w' ≡ w
  Responds e calls i [] (r ∷ rs) w w' = ⊥
  Responds e calls i (line ∷ lines) [] w w' = ⊥
  Responds e calls i (line ∷ lines) (r ∷ rs) w w' =
      (d : Decision) × ((v : World R B) × ((r ≡ write_response d)
          × (Decided e (calls i) line w d v × Responds e calls (suc i) lines rs v w')))

  -- What a run of the loop gives.
  record Served {E : Type 0} (e : Engine invalid R B) (calls : ℕ → Call E) (i : ℕ)
      (lines : List Bytes) (w : World R B) : Type 0 where
    responses : List Bytes
    world : World R B
    returned : handle_lines invalid R B unmarshal e calls i lines w ≡ returns (responses, world)
    responds : Responds e calls i lines responses w world
    counted : length responses ≡ length lines
    whole : All IsLine responses

  line_bad :
      {E : Type 0} (e : Engine invalid R B) (line : Bytes) (call : Call E) (w : World R B)
      → unmarshal line ≡ none
      → handle_line invalid R B unmarshal e line call w
        ≡ returns (write_response bad_json_decision, w)
  unfolding handle_line
  line_bad e line call w bad = ground arith

  pub line_good :
      {E : Type 0} (e : Engine invalid R B) (line : Bytes) (call : Call E) (w : World R B)
      {fv : FeatureVector} {d : Decision} {w' : World R B}
      → unmarshal line ≡ some fv
      → evaluate invalid R B e fv call w ≡ returns (d, w')
      → handle_line invalid R B unmarshal e line call w ≡ returns (write_response d, w')
  unfolding handle_line
  line_good e line call w good returned = ground arith

  answered :
      {E : Type 0} (e : Engine invalid R B) (line : Bytes) (call : Call E) (w : World R B)
      → e.ml ≡ dialled
      → (d : Decision) × ((w' : World R B) × ((handle_line invalid R B unmarshal e line call w
              ≡ returns (write_response d, w'))
            × Decided e call line w d w'))
  answered e line call w m = elim (Option-cases (unmarshal line)) [
    | inl bad ↦ (bad_json_decision, (w, (line_bad e line call w bad, inl (bad, (refl, refl)))))
    | inr (fv, good) ↦
        let (d, w', returned, _, _) = evaluate-Effects invalid R B e fv call w m in
        (d, (w', (line_good e line call w good returned, inr (fv, (good, returned)))))
  ]

  pub lines_step :
      {E : Type 0} (e : Engine invalid R B) (calls : ℕ → Call E) (i : ℕ) (line : Bytes)
      (lines : List Bytes) (w : World R B) {r : Bytes} {w' w'' : World R B} {rs : List Bytes}
      → handle_line invalid R B unmarshal e line (calls i) w ≡ returns (r, w')
      → handle_lines invalid R B unmarshal e calls (suc i) lines w' ≡ returns (rs, w'')
      → handle_lines invalid R B unmarshal e calls i (line ∷ lines) w ≡ returns (r ∷ rs, w'')
  unfolding handle_lines
  lines_step e calls i line lines w h k = ground arith

  serve_lines :
      {E : Type 0} (e : Engine invalid R B) (calls : ℕ → Call E) (lines : List Bytes) (i : ℕ)
      (w : World R B)
      → e.ml ≡ dialled
      → Served e calls i lines w
  serve_lines e calls [] i w m = record {
    responses = [];
    world = w;
    returned = unfold handle_lines in refl;
    responds = refl;
    counted = refl;
    whole = tt;
  }
  serve_lines e calls (line ∷ lines) i w m =
      let (d, (w', (first, decided))) = answered e line (calls i) w m in
      let rest = serve_lines e calls lines (suc i) w' m in
      record {
        responses = write_response d ∷ rest.responses;
        world = rest.world;
        returned = lines_step e calls i line lines w first rest.returned;
        responds = (d, (w', (refl, (decided, rest.responds))));
        counted = ap suc rest.counted;
        whole = (write_response-IsLine d, rest.whole);
      }

  -- With a client of the sidecar, the handler of a connection returns, whatever bytes arrive. It writes
  -- one response for each scanned line, in order: each is one line of text, and that of the decision
  -- on its line, "allow" for a line that is no feature vector, which changes nothing, and otherwise
  -- what `Evaluate` decides, with what the lines before it have left of the shared state.
  pub handle_conn_total :
      {E : Type 0} (e : Engine invalid R B) (calls : ℕ → Call E) (received : Bytes) (w : World R B)
      → e.ml ≡ dialled
      → (rs : List Bytes) × ((w' : World R B) × ((handle_conn invalid R B unmarshal e calls received
                w
              ≡ returns (rs, w'))
            × (Responds e calls 0 (scan_lines received) rs w w'
                × ((length rs ≡ length (scan_lines received)) × All IsLine rs))))
  unfolding handle_conn
  handle_conn_total e calls received w m =
      let S = serve_lines e calls (scan_lines received) 0 w m in
      (S.responses, (S.world, (S.returned, (S.responds, (S.counted, S.whole)))))

  -- The handler panics at the first line that is a feature vector, if every such call does.
  lines_panic :
      {E : Type 0} (e : Engine invalid R B) (calls : ℕ → Call E) (before after : List Bytes)
      (line : Bytes) (i : ℕ) (w : World R B) {fv : FeatureVector}
      → e.ml ≡ nil
      → unmarshal line ≡ some fv
      → handle_lines invalid R B unmarshal e calls i (before ++ (line ∷ after)) w ≡ panics
  unfolding handle_lines handle_line
  lines_panic e calls [] after line i w {fv} m good =
      rw (good, handle_lines, handle_line, evaluate_nil invalid R B e fv (calls i) w m) refl
  lines_panic e calls (first ∷ before) after line i w m good =
      elim (Option-cases (unmarshal first)) [
        | inl bad ↦
            rw
              (
                handle_lines,
                line_bad e first (calls i) w bad,
                lines_panic e calls before after line (suc i) w m good,
              )
              refl
        | inr (gv, fine) ↦
            rw (fine, handle_lines, handle_line, evaluate_nil invalid R B e gv (calls i) w m) refl
      ]

  pub handle_conn_panics :
      {E : Type 0} (e : Engine invalid R B) (calls : ℕ → Call E) (received : Bytes)
      (before after : List Bytes) (line : Bytes) (w : World R B) {fv : FeatureVector}
      → e.ml ≡ nil
      → scan_lines received ≡ before ++ (line ∷ after)
      → unmarshal line ≡ some fv
      → handle_conn invalid R B unmarshal e calls received w ≡ panics
  unfolding handle_conn
  handle_conn_panics e calls received before after line w m at good =
      rw at (lines_panic e calls before after line 0 w m good)

  bad_lines :
      {E : Type 0} (e : Engine invalid R B) (calls : ℕ → Call E) (lines : List Bytes) (i : ℕ)
      (w : World R B)
      → All (λ line. unmarshal line ≡ none) lines
      → handle_lines invalid R B unmarshal e calls i lines w
        ≡ returns (map (λ line. write_response bad_json_decision) lines, w)
  bad_lines e calls [] i w h = unfold handle_lines in refl
  bad_lines e calls (line ∷ lines) i w (bad, rest) =
      lines_step e calls i line lines w (line_bad e line (calls i) w bad)
        (bad_lines e calls lines (suc i) w rest)

  -- Lines that hold no feature vector are each answered by "allow" and change nothing: no token is
  -- taken, no address is blocked and nothing is published, with or without a client of the sidecar.
  pub bad_lines_harmless :
      {E : Type 0} (e : Engine invalid R B) (calls : ℕ → Call E) (received : Bytes) (w : World R B)
      → All (λ line. unmarshal line ≡ none) (scan_lines received)
      → handle_conn invalid R B unmarshal e calls received w
        ≡ returns (map (λ line. write_response bad_json_decision) (scan_lines received), w)
  unfolding handle_conn
  bad_lines_harmless e calls received w h = bad_lines e calls (scan_lines received) 0 w h
