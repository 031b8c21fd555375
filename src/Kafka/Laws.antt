-- ===== src/Kafka/Laws.antt =====
-- What the producer sends, and what it does with errors.
use rate_limiter.Base.{
  ◌≡◌, ◌⊎◌, ◌↔◌, refl, ap, Bool, Bool-cases, true, false, none, Bytes, Result-cases, ok, inl, inr,
  is_ok, arith,
}
use rate_limiter.Base.Int.{ℤ}
use rate_limiter.Kafka.{
  Writer, Message, DecisionEvent, Producer, marshals, publish_decision, publish_blocked, close,
}

-- The two ends of one attempt: the writer took the message, or nothing has changed.
abbrev pub Sent :
    (W : Writer)
    → W.State
    → Message
    → (W.State → Producer W)
    → Producer W
    → Producer W
    → Bool
    → Type 0
Sent W writer m store p p' fit =
    ((fit ≡ true) × ((t : W.State) × (W.write writer m ≡ ok t) × (p' ≡ store t)))
    ⊎ (((fit ≡ false) ⊎ (is_ok (W.write writer m) ≡ false)) × (p' ≡ p))

module _ (W : Writer) where
  -- Publishing a decision hands one message, keyed by the address, to the writer of decisions if the
  -- event can be marshalled, and changes nothing if it cannot or if the writer refuses; it never
  -- touches the writer of blocked addresses. Publishing a blocked address hands one message to the
  -- other writer, or changes nothing if that refuses.
  pub publish_apart :
      (encode : DecisionEvent → Bytes) (encode_ip : Bytes → ℤ → Bytes) (e : DecisionEvent) (now : ℤ)
      (ip : Bytes) (p : Producer W)
      → Sent W p.decisions
          (record { key = e.ip; value = encode e })
          (λ t. record p { decisions = t })
          p
          (publish_decision W encode e p)
          (marshals e)
        × Sent W p.blocked
            (record { key = ip; value = encode_ip ip now })
            (λ t. record p { blocked = t })
            p
            (publish_blocked W encode_ip now ip p)
            true
  unfolding publish_decision publish_blocked
  publish_apart encode encode_ip e now ip p = (
    elim (Bool-cases (marshals e)) [
      | inr unfit ↦ inr (inl unfit, rw unfit refl)
      | inl fit ↦
          elim (Result-cases (W.write p.decisions (record { key = e.ip; value = encode e }))) [
            | inl (t, taken) ↦ inl (fit, (t, taken, rw (fit, taken) refl))
            | inr (x, refused) ↦ inr (inr (ap is_ok refused), rw (fit, refused) refl)
          ]
    ],
    elim (Result-cases (W.write p.blocked (record { key = ip; value = encode_ip ip now }))) [
      | inl (t, taken) ↦ inl (refl, (t, taken, ground arith))
      | inr (x, refused) ↦ inr (inr (ap is_ok refused), ground arith)
    ],
  )

  -- `Close` closes both writers whatever the first says, and returns an error exactly if one of the
  -- two does.
  pub close_both :
      (p : Producer W)
      → ((close W p).1.decisions ≡ (W.close p.decisions).1)
        × ((close W p).1.blocked ≡ (W.close p.blocked).1)
        × (((close W p).0 ≡ none)
            ↔ (((W.close p.decisions).0 ≡ none) × ((W.close p.blocked).0 ≡ none)))
  unfolding close
  close_both p = (refl, refl, (λ h. ground arith, λ h. ground arith))
