-- ===== src/Lifecycle/Shutdown.antt =====
-- What `main` leaves open.
use mathlib.Core.List.{reverse, reverse-append}
use rate_limiter.Base.{
  ◌≡◌, ◌⊎◌, ◌↔◌, ◌∙◌, Option, ◌&&◌, ◌||◌, not, is_ok, inl, inr, refl, ap, sym, Bool, true, false,
  List, [], ◌∷◌, ◌++◌, append_assoc, append-nil, arith, map, Result, Result-cases, ok, err,
}
use rate_limiter.Config.{Config}
use rate_limiter.Redis
use rate_limiter.Lifecycle.{
  ServeError, socket_fatal, http_fatal, Services, Outside, Resource, redis_client, kafka_producer,
  ml_client, blocked_ips_map, signal_context, Event, opened, closed, socket_server, http_server,
  signalled, drained, Ending, returned, fatal, crashed, Progress, acquire, acquire_if, note, finish,
  set_up, run_main,
}

abbrev pub opens : List Event → List Resource
opens [] = []
opens (opened r ∷ es) = r ∷ opens es
opens (_ ∷ es) = opens es

abbrev pub closes : List Event → List Resource
closes [] = []
closes (closed r ∷ es) = r ∷ closes es
closes (_ ∷ es) = closes es

opens-append : (xs ys : List Event) → opens (xs ++ ys) ≡ opens xs ++ opens ys
opens-append [] ys = refl
opens-append (opened r ∷ xs) ys = ap (λ q. r ∷ q) (opens-append xs ys)
opens-append (closed r ∷ xs) ys = opens-append xs ys
opens-append (socket_server ∷ xs) ys = opens-append xs ys
opens-append (http_server ∷ xs) ys = opens-append xs ys
opens-append (signalled ∷ xs) ys = opens-append xs ys
opens-append (drained ∷ xs) ys = opens-append xs ys

closes-append : (xs ys : List Event) → closes (xs ++ ys) ≡ closes xs ++ closes ys
closes-append [] ys = refl
closes-append (opened r ∷ xs) ys = closes-append xs ys
closes-append (closed r ∷ xs) ys = ap (λ q. r ∷ q) (closes-append xs ys)
closes-append (socket_server ∷ xs) ys = closes-append xs ys
closes-append (http_server ∷ xs) ys = closes-append xs ys
closes-append (signalled ∷ xs) ys = closes-append xs ys
closes-append (drained ∷ xs) ys = closes-append xs ys

-- The deferred calls are those of what is open, the last first, and nothing is closed yet.
record Pending (p : Progress) : Type 0 where
  stacked : p.deferred ≡ reverse (opens p.trace)
  unclosed : closes p.trace ≡ []

acquire-Pending : (r : Resource) (p : Progress) → Pending p → Pending (acquire r p)
unfolding acquire
acquire-Pending r p h = record {
  stacked =
      ap (λ q. r ∷ q) h.stacked
      ∙ sym (reverse-append (opens p.trace) (r ∷ []))
      ∙ ap reverse (sym (opens-append p.trace (opened r ∷ [])));
  unclosed = rw (closes-append p.trace (opened r ∷ []), h.unclosed) refl;
}

acquire_if-Pending :
    {E A : Type 0} (o : Result E A) (r : Resource) (p : Progress)
    → Pending p
    → Pending (acquire_if o r p)
unfolding acquire_if
acquire_if-Pending (ok a) r p h = acquire-Pending r p h
acquire_if-Pending (err e) r p h = h

note-Pending :
    (es : List Event) (p : Progress)
    → opens es ≡ []
    → closes es ≡ []
    → Pending p
    → Pending (note es p)
note-Pending es p o c h = record {
  stacked =
      h.stacked
      ∙ ap reverse (
          sym (
            opens-append p.trace es ∙ ap (λ q. opens p.trace ++ q) o ∙ append-nil (opens p.trace)));
  unclosed = rw (closes-append p.trace es, h.unclosed, c) refl;
}

-- All is closed in the end, the last opened first, or nothing is.
abbrev pub Closing : List Event × Ending → Type 0
Closing (trace, ending) =
    (((ending ≡ fatal) ⊎ (ending ≡ crashed)) × (closes trace ≡ []))
    ⊎ ((ending ≡ returned)
        × ((before : List Event) × (trace
              ≡ before ++ (signalled ∷ drained ∷ map closed (reverse (opens before))))
            × (closes before ≡ [])))

finish-Closing :
    (dies panicked : Bool) (p : Progress) → Pending p → Closing (finish dies panicked p)
unfolding finish
finish-Closing true panicked p h = inl (inl refl, h.unclosed)
finish-Closing false true p h = inl (inr refl, h.unclosed)
finish-Closing false false p h = inr (
  refl,
  (
    p.trace,
    append_assoc p.trace (signalled ∷ drained ∷ []) (map closed p.deferred)
        ∙ ap (λ q. p.trace ++ (signalled ∷ drained ∷ map closed q)) h.stacked,
    h.unclosed,
  ),
)

finish_returned :
    (a b panicked : Bool) (p : Progress)
    → ((finish (a || b) panicked p).1 ≡ returned) ↔ ((not a && not b && not panicked) ≡ true)
unfolding finish
finish_returned true b panicked p = (λ h. ground arith, λ h. ground arith)
finish_returned false true panicked p = (λ h. ground arith, λ h. ground arith)
finish_returned false false true p = (λ h. ground arith, λ h. ground arith)
finish_returned false false false p = (λ h. refl, λ h. refl)

module _ (S : Services) (O : Outside S) where
  set_up-Pending : Pending (set_up S O)
  unfolding set_up
  set_up-Pending = note-Pending (socket_server ∷ http_server ∷ []) _ refl refl (
      acquire-Pending signal_context _ (
        acquire_if-Pending O.pinned_map blocked_ips_map _ (
          acquire_if-Pending O.dial ml_client _ (
            acquire-Pending kafka_producer _ (
              acquire-Pending redis_client (record { trace = []; deferred = [] })
                (record { stacked = refl; unclosed = refl }))))))

  -- A `main` that returns closes, behind the signal and the grace, all that it has opened, each once,
  -- the last opened first, and nothing before; a `main` that ends by `log.Fatal`, its own or a
  -- goroutine's, or by the panic of a goroutine closes nothing. Once the signal has come and the grace
  -- is over, it returns exactly if the ping is answered, the socket listens, the HTTP server has not
  -- ended by another error than that of its shutdown, and no goroutine has panicked.
  pub main_closes :
      {E : Type 0} (cfg : Config) (listened : Result E (Unit {0})) (served : Option ServeError)
      (panicked : Bool)
      → Closing (run_main S O cfg listened served panicked)
        × (((run_main S O cfg listened served panicked).1 ≡ returned) ↔ (
            (is_ok (O.ping (Redis.cluster_options cfg.redis_addrs))
              && (not (socket_fatal listened) && not (http_fatal served) && not panicked))
            ≡ true))
  unfolding run_main
  main_closes cfg listened served panicked =
      elim (Result-cases (O.ping (Redis.cluster_options cfg.redis_addrs))) [
        | inr (e, failed) ↦
            rw (failed, run_main) (inl (inl refl, refl), (λ h. ground arith, λ h. ground arith))
        | inl (u, pinged) ↦
            rw (pinged, run_main)
              (
                finish-Closing (socket_fatal listened || http_fatal served) panicked (set_up S O)
                    set_up-Pending,
                finish_returned (socket_fatal listened) (http_fatal served) panicked (set_up S O),
              )
      ]
