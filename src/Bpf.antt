-- ===== src/Bpf.antt =====
-- The BPF hash map that the kernel and the cilium/ebpf library provide: an interface, since neither
-- is part of the repository. A map holds raw bytes; a Go number is written in the machine's own byte
-- order. `iterate` gives the entries that `iter.Next` yields, and `iter.Err()` behind them.
use rate_limiter.Base.{
  ℕ, ◌<◌, ◌^◌, ◌≡◌, ◌≢◌, ◌⊎◌, false, Option, none, some, List, Bytes, Result, ok, is_ok, bytes_eq,
  if◌then◌else◌, length, All,
}
use rate_limiter.Net.{Endian, host_u32, host_u64}

pub record BpfMap : Type 1 where
  pub State : Type 0
  pub Error : Type 0
  pub host : Endian
  pub key_size : ℕ
  pub value_size : ℕ
  pub lookup : State → Bytes → Option Bytes
  pub put : State → Bytes → Bytes → Result Error State
  pub delete : State → Bytes → Result Error State
  pub iterate : State → List (Bytes × Bytes) × Option Error
  pub marshal_u32 : ℕ → Bytes
  pub marshal_u64 : ℕ → Bytes
  pub unmarshal_u32 : Bytes → ℕ
  pub unmarshal_u64 : Bytes → ℕ

-- What is documented of an LRU hash map and of the library. A write may evict other entries.
pub record IsLawful (M : BpfMap) : Type 0 where
  pub marshal_u32_host : (n : ℕ) → M.marshal_u32 n ≡ host_u32 M.host n
  pub marshal_u64_host : (n : ℕ) → M.marshal_u64 n ≡ host_u64 M.host n
  pub unmarshal_u32_host : (n : ℕ) → n < 2 ^ 32 → M.unmarshal_u32 (host_u32 M.host n) ≡ n
  pub unmarshal_u64_host : (n : ℕ) → n < 2 ^ 64 → M.unmarshal_u64 (host_u64 M.host n) ≡ n
  pub put_sizes :
      (s : M.State) (k v : Bytes) → length v ≢ M.value_size → is_ok (M.put s k v) ≡ false
  pub lookup-put_self : (s t : M.State) (k v : Bytes) → M.put s k v ≡ ok t → M.lookup t k ≡ some v
  pub lookup-put_other :
      (s t : M.State) (k v j : Bytes)
      → M.put s k v ≡ ok t
      → j ≢ k
      → (M.lookup t j ≡ M.lookup s j) ⊎ (M.lookup t j ≡ none)
  pub lookup-delete :
      (s t : M.State) (k j : Bytes)
      → M.delete s k ≡ ok t
      → M.lookup t j ≡ (if bytes_eq j k then none else M.lookup s j)
  pub delete_missing :
      (s : M.State) (k : Bytes) → M.lookup s k ≡ none → is_ok (M.delete s k) ≡ false
  pub lookup-iterate : (s : M.State) → All (λ e. M.lookup s e.0 ≡ some e.1) (M.iterate s).0
