-- ===== src/Loader/Listing.antt =====
-- What GET /block shows of an entry.
use rate_limiter.Base.{
  ℕ, ◌-◌, ◌/◌, ◌<◌, ◌^◌, ◌≡◌, ◌↔◌, true, ok, ap, ◌∙◌, Bytes, ◌==◌, if◌then◌else◌, arith,
}
use rate_limiter.Base.Int.{ℤ, pos, negsuc, i64_of, sub_i64}
use rate_limiter.Bpf.{BpfMap, IsLawful}
use rate_limiter.Blocker.{is_expired}
use rate_limiter.Loader.Address.{ip_to_uint32, uint32_to_ip}
use rate_limiter.Loader.RoundTrip.{ip_to_uint32-uint32_to_ip}
use rate_limiter.Loader.Handlers.{list_entry, list_one, handle_remove_block, respond, unblocked}

-- The remaining seconds, for a clock and an expiry below 2 ^ 63.
list_entry-ttl :
    (now key expiry : ℕ)
    → now < 2 ^ 63
    → expiry < 2 ^ 63
    → (list_entry (pos now) key expiry).ttl_remaining
      ≡ (if expiry == 0 then negsuc 0 else pos (expiry - now))
unfolding list_entry i64_of sub_i64
list_entry-ttl now key expiry h k = ground arith

-- An entry is listed with no seconds left exactly if the kernel program would let its packets pass,
-- were its clock at the Unix time of the request; -1 is listed exactly for a block without end.
pub list_entry_expired :
    (now key expiry ktime_ns : ℕ)
    → now < 2 ^ 63
    → expiry < 2 ^ 63
    → ktime_ns / 1000000000 ≡ now
    → (((list_entry (pos now) key expiry).ttl_remaining ≡ pos 0)
        ↔ (is_expired ktime_ns expiry ≡ true))
      × (((list_entry (pos now) key expiry).ttl_remaining ≡ negsuc 0) ↔ (expiry ≡ 0))
list_entry_expired now key expiry ktime_ns h k same =
    rw (list_entry-ttl now key expiry h k) (ground arith)

list_entry-ip : (now : ℤ) (key expiry : ℕ) → (list_entry now key expiry).ip ≡ uint32_to_ip key
unfolding list_entry
list_entry-ip now key expiry = ground arith

removed :
    (M : BpfMap) (ip : Bytes) (n : ℕ) (s t : M.State)
    → ip_to_uint32 ip ≡ ok n
    → M.delete s (M.marshal_u32 n) ≡ ok t
    → handle_remove_block M ip s ≡ (respond 200 (unblocked ip), t)
unfolding handle_remove_block
removed M ip n s t k d = ground arith

-- A DELETE with the text that the list shows for an entry removes that entry from the map, if the
-- map removes it.
pub listed_delete :
    (M : BpfMap)
    → IsLawful M
    → (now : ℤ) (n : ℕ) (value : Bytes) (s t : M.State) → n < 2 ^ 32
    → M.delete s (M.marshal_u32 n) ≡ ok t
    → let ip = (list_one M now (M.marshal_u32 n, value)).ip in
      handle_remove_block M ip s ≡ (respond 200 (unblocked ip), t)
listed_delete M L now n value s t h d =
    removed M _ n s t
      (ap ip_to_uint32 (
          list_entry-ip now _ _
          ∙ ap uint32_to_ip (ap M.unmarshal_u32 (L.marshal_u32_host n) ∙ L.unmarshal_u32_host n h))
        ∙ ip_to_uint32-uint32_to_ip n h)
      d
