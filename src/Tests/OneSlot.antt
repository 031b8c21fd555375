-- ===== src/Tests/OneSlot.antt =====
-- A BPF map with room for one entry: a write evicts what was there.
use rate_limiter.Base.{
  ℕ, ◌<◌, ◌^◌, ◌≡◌, ◌≢◌, ◌⊎◌, inr, refl, false, Option, none, some, List, [], ◌∷◌, Bytes, bytes_eq,
  bytes_eq_refl, bytes_eq_iff, Result, ok, err, is_ok, ◌==◌, if◌then◌else◌, length, All, arith,
}
use rate_limiter.Net.{Endian, little, big, host_u32, host_u64, load_u64, load_u64-host_u64, be_u32}
use rate_limiter.Bpf.{BpfMap, IsLawful}

abbrev pub Slot : Type 0
Slot = Option (Bytes × Bytes)

unfoldable pub slot_lookup : Slot → Bytes → Option Bytes
slot_lookup none j = none
slot_lookup (some (k, v)) j = if bytes_eq j k then some v else none

unfoldable pub slot_put : ℕ → Slot → Bytes → Bytes → Result (Unit {0}) Slot
slot_put size s k v = if length v == size then ok (some (k, v)) else err tt

unfoldable pub slot_delete : Slot → Bytes → Result (Unit {0}) Slot
slot_delete none k = err tt
slot_delete (some (j, v)) k = if bytes_eq k j then ok none else err tt

unfoldable pub slot_entries : Slot → List (Bytes × Bytes)
slot_entries none = []
slot_entries (some e) = e ∷ []

unfoldable pub load_u32 : Endian → Bytes → ℕ
load_u32 big b = be_u32 b
load_u32 little (a ∷ b ∷ c ∷ d ∷ r) = be_u32 (d ∷ c ∷ b ∷ a ∷ [])
load_u32 little _ = 0

load_u32-host_u32 : (e : Endian) (n : ℕ) → n < 2 ^ 32 → load_u32 e (host_u32 e n) ≡ n
unfolding load_u32 host_u32 be_u32
load_u32-host_u32 big n h = omega arith
load_u32-host_u32 little n h = omega arith

abbrev pub one_slot : Endian → ℕ → BpfMap
one_slot e size = record {
  State = Slot;
  Error = Unit {0};
  host = e;
  key_size = 4;
  value_size = size;
  lookup = slot_lookup;
  put = slot_put size;
  delete = slot_delete;
  iterate = λ s. (slot_entries s, none);
  marshal_u32 = host_u32 e;
  marshal_u64 = host_u64 e;
  unmarshal_u32 = load_u32 e;
  unmarshal_u64 = load_u64 e;
}

put_sizes :
    (size : ℕ) (s : Slot) (k v : Bytes) → length v ≢ size → is_ok (slot_put size s k v) ≡ false
unfolding slot_put
put_sizes size s k v h = ground arith

put_self :
    (size : ℕ) (s t : Slot) (k v : Bytes) → slot_put size s k v ≡ ok t → slot_lookup t k ≡ some v
unfolding slot_put slot_lookup
put_self size s t k v h = ground (arith, bytes_eq_refl k)

put_other :
    (size : ℕ) (s t : Slot) (k v j : Bytes)
    → slot_put size s k v ≡ ok t
    → j ≢ k
    → (slot_lookup t j ≡ slot_lookup s j) ⊎ (slot_lookup t j ≡ none)
unfolding slot_put slot_lookup
put_other size s t k v j h ne = inr (ground (arith, bytes_eq_iff j k))

delete_lookup :
    (s t : Slot) (k j : Bytes)
    → slot_delete s k ≡ ok t
    → slot_lookup t j ≡ (if bytes_eq j k then none else slot_lookup s j)
unfolding slot_delete slot_lookup
delete_lookup none t k j h = cc
delete_lookup (some (i, v)) t k j h =
    ground (arith, bytes_eq_iff k i, bytes_eq_iff j i, bytes_eq_iff j k)

delete_none : (s : Slot) (k : Bytes) → slot_lookup s k ≡ none → is_ok (slot_delete s k) ≡ false
unfolding slot_delete slot_lookup
delete_none none k h = refl
delete_none (some (i, v)) k h = ground arith

entries_lookup : (s : Slot) → All (λ e. slot_lookup s e.0 ≡ some e.1) (slot_entries s)
unfolding slot_entries slot_lookup
entries_lookup none = tt
entries_lookup (some (k, v)) = (rw (bytes_eq_refl k), tt)

pub one_slot-IsLawful : (e : Endian) (size : ℕ) → IsLawful (one_slot e size)
unfolding slot_put slot_lookup slot_delete slot_entries load_u32
one_slot-IsLawful e size = record {
  marshal_u32_host = λ n. refl;
  marshal_u64_host = λ n. refl;
  unmarshal_u32_host = load_u32-host_u32 e;
  unmarshal_u64_host = load_u64-host_u64 e;
  put_sizes = put_sizes size;
  lookup-put_self = put_self size;
  lookup-put_other = put_other size;
  lookup-delete = delete_lookup;
  delete_missing = delete_none;
  lookup-iterate = entries_lookup;
}
