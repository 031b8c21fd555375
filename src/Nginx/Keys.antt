-- ===== src/Nginx/Keys.antt =====
-- The keys of the counters.
use mathlib.Core.List.{reverse, reverse-append}
use rate_limiter.Base.{
  ◌≡◌, ◌∙◌, refl, ap, sym, ◌++◌, Bytes, codes, append_cancel, length, length-append, arith,
}
use rate_limiter.Nginx.Counters.{
  CountWindow, one_second, ten_seconds, sixty_seconds, suffix, counter_key,
}

ends-append : (x y z t : Bytes) → x ++ z ≡ y ++ t → reverse z ++ reverse x ≡ reverse t ++ reverse y
ends-append x y z t h = sym (reverse-append x z) ∙ ap reverse h ∙ reverse-append y t

same_end : (ip jp z : Bytes) → ip ++ z ≡ jp ++ z → ip ≡ jp
same_end ip jp z h =
    append_cancel ip jp z h (omega (arith, ap length h, length-append ip z, length-append jp z))

without_prefix :
    (ip jp : Bytes) (w v : CountWindow)
    → counter_key ip w ≡ counter_key jp v
    → ip ++ (codes ":" ++ suffix w) ≡ jp ++ (codes ":" ++ suffix v)
unfolding counter_key
without_prefix ip jp w v h = ground arith

parts :
    (ip jp : Bytes) (w v : CountWindow)
    → ip ++ (codes ":" ++ suffix w) ≡ jp ++ (codes ":" ++ suffix v)
    → (ip ≡ jp) × (w ≡ v)
parts ip jp one_second one_second h = (same_end ip jp _ h, refl)
parts ip jp ten_seconds ten_seconds h = (same_end ip jp _ h, refl)
parts ip jp sixty_seconds sixty_seconds h = (same_end ip jp _ h, refl)
parts ip jp one_second ten_seconds h = absurd (ground (arith, ends-append ip jp _ _ h))
parts ip jp one_second sixty_seconds h = absurd (ground (arith, ends-append ip jp _ _ h))
parts ip jp ten_seconds one_second h = absurd (ground (arith, ends-append ip jp _ _ h))
parts ip jp ten_seconds sixty_seconds h = absurd (ground (arith, ends-append ip jp _ _ h))
parts ip jp sixty_seconds one_second h = absurd (ground (arith, ends-append ip jp _ _ h))
parts ip jp sixty_seconds ten_seconds h = absurd (ground (arith, ends-append ip jp _ _ h))

-- Two addresses, or two windows, have two keys.
pub counter_key-injective :
    (ip jp : Bytes) (w v : CountWindow) → counter_key ip w ≡ counter_key jp v → (ip ≡ jp) × (w ≡ v)
counter_key-injective ip jp w v h = parts ip jp w v (without_prefix ip jp w v h)
