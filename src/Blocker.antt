-- ===== src/Blocker.antt =====
-- ebpf/tc_blocker.c: the program that the kernel runs on every inbound packet. The packet is the
-- bytes between `data` and `data_end`; the value of `bpf_ktime_get_coarse_ns()` is an argument.
pub mod Drops
use rate_limiter.Base.{
  ℕ, ◌+◌, ◌*◌, ◌/◌, Bool, not, Option, none, some, [], ◌∷◌, Bytes, ltb, leb, ◌==◌, if◌then◌else◌,
  length, take, drop,
}
use rate_limiter.Net.{load_u64}
use rate_limiter.Bpf.{BpfMap}

-- `TC_ACT_OK` and `TC_ACT_SHOT`
pub data TcAction : Type 0 where
  act_ok act_shot : TcAction

abbrev pub eth_p_ip : ℕ
eth_p_ip = 0x0800

-- `sizeof(struct ethhdr)` and `sizeof(struct iphdr)`
abbrev pub eth_len : ℕ
eth_len = 14

abbrev pub ip_len : ℕ
ip_len = 20

-- `bpf_ntohs` of the two bytes of a field
abbrev pub ntohs : Bytes → ℕ
ntohs (a ∷ b ∷ _) = a * 256 + b
ntohs _ = 0

abbrev pub h_proto : Bytes → ℕ
h_proto packet = ntohs (drop 12 packet)

-- The four bytes of `iph->saddr`, at offset 12 of the IP header.
abbrev pub saddr : Bytes → Bytes
saddr packet = take 4 (drop 26 packet)

-- The test of step 4: has the block expired?
abbrev pub is_expired : ℕ → ℕ → Bool
is_expired ktime_ns expiry = if expiry == 0 then Bool.false else leb expiry (ktime_ns / 1000000000)

unfoldable pub tc_ingress_blocker : (M : BpfMap) → M.State → ℕ → Bytes → TcAction
tc_ingress_blocker M blocked_ips ktime_ns packet =
    if ltb (length packet) eth_len
    then act_ok
    else if not (h_proto packet == eth_p_ip)
    then act_ok
    else if ltb (length packet) (eth_len + ip_len)
    then act_ok
    else elim (M.lookup blocked_ips (saddr packet)) [
      | none ↦ act_ok
      | some value ↦ if is_expired ktime_ns (load_u64 M.host value) then act_ok else act_shot
    ]
