-- ===== src/Blocker/Drops.antt =====
-- Which packets are dropped.
use rate_limiter.Base.{
  ℕ, ◌+◌, ◌≤◌, ◌/◌, ◌<◌, ◌≡◌, ◌↔◌, ◌⊎◌, inl, inr, none, some, Bytes, length, if◌then◌else◌,
  Option-cases, arith,
}
use rate_limiter.Net.{load_u64}
use rate_limiter.Bpf.{BpfMap}
use rate_limiter.Blocker.{
  act_ok, act_shot, eth_p_ip, eth_len, ip_len, h_proto, saddr, is_expired, tc_ingress_blocker,
}

-- A frame that the program looks up: IPv4, with a whole header.
pub record IsIpv4 (packet : Bytes) : Type 0 where
  pub proto : h_proto packet ≡ eth_p_ip
  pub whole : eth_len + ip_len ≤ length packet

module _ (M : BpfMap) (s : M.State) (ktime_ns : ℕ) (packet : Bytes) where
  pub tc_found :
      (value : Bytes)
      → IsIpv4 packet
      → M.lookup s (saddr packet) ≡ some value
      → tc_ingress_blocker M s ktime_ns packet
        ≡ (if is_expired ktime_ns (load_u64 M.host value) then act_ok else act_shot)
  unfolding tc_ingress_blocker
  tc_found value h found = ground arith

  pub tc_absent : M.lookup s (saddr packet) ≡ none → tc_ingress_blocker M s ktime_ns packet ≡ act_ok
  unfolding tc_ingress_blocker
  tc_absent h = ground arith

  -- A packet is dropped exactly if it is IPv4 with a whole header, its source address is in the map,
  -- and the entry's expiry is zero or above the seconds of the kernel's clock.
  pub tc_dropped_iff : (tc_ingress_blocker M s ktime_ns packet ≡ act_shot) ↔ (
      IsIpv4 packet
      × ((value : Bytes) × (M.lookup s (saddr packet) ≡ some value)
          × ((load_u64 M.host value ≡ 0) ⊎ (ktime_ns / 1000000000 < load_u64 M.host value))))
  unfolding tc_ingress_blocker
  tc_dropped_iff = (
    λ shot. elim (Option-cases (M.lookup s (saddr packet))) [
      | inl absent ↦ absurd (ground (arith, tc_absent absent))
      | inr (value, found) ↦
          (record { proto = ground arith; whole = ground arith }, (value, found, ground arith))
    ],
    λ (h, (value, found, live)). ground (arith, tc_found value h found),
  )

-- The verdict depends on the map only through the entry of the source address.
pub tc_same_lookup :
    (M : BpfMap) (s t : M.State) (ktime_ns : ℕ) (packet : Bytes)
    → M.lookup s (saddr packet) ≡ M.lookup t (saddr packet)
    → tc_ingress_blocker M s ktime_ns packet ≡ tc_ingress_blocker M t ktime_ns packet
unfolding tc_ingress_blocker
tc_same_lookup M s t ktime_ns packet h = ground arith
