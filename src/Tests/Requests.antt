-- ===== src/Tests/Requests.antt =====
-- The theorems on the loader's API and on the kernel program, at concrete requests and packets.
use rate_limiter.Base.{
  ◌+◌, ◌*◌, ◌/◌, ◌<◌, ◌≤◌, ◌≡◌, ◌≢◌, ◌↔◌, ◌⊎◌, inl, refl, Bytes, codes, ok, none, some, bytes_eq,
  All, arith,
}
use rate_limiter.Base.Int.{ℤ, pos}
use rate_limiter.Bpf.{BpfMap}
use rate_limiter.Net.{Endian, little, big, host_u32, host_u64, load_u64, print_ipv4, parse_ip}
use rate_limiter.Blocker.{tc_ingress_blocker, act_shot, act_ok, saddr}
use rate_limiter.Blocker.Drops.{IsIpv4, tc_dropped_iff}
use rate_limiter.Loader.Address.{ip_to_uint32, uint32_to_ip}
use rate_limiter.Loader.Handlers.{
  handle_add_block, handle_remove_block, serve, list_one, respond, unblocked,
}
use rate_limiter.Loader.WireOrder.{posted_stored, posted_little_misses}
use rate_limiter.Loader.Expiry.{posted_outlives}
use rate_limiter.Loader.Errors.{serve_unchanged}
use rate_limiter.Loader.Listing.{listed_delete}
use rate_limiter.Loader.RoundTrip.{ip_to_uint32-uint32_to_ip, uint32_to_ip-ip_to_uint32}
use rate_limiter.Tests.OneSlot.{one_slot, one_slot-IsLawful, Slot}
use rate_limiter.Tests.Packets.{
  packet_from, decode_to, posting, posting_key, posting_text, from_posting, answer_forever,
  answer_minute,
}

abbrev slots : BpfMap
slots = one_slot little 8

abbrev posted : ℤ → Slot
posted ttl = (handle_add_block slots (decode_to ttl) (pos 1000) posting none).1

abbrev reversed : Bytes
reversed = packet_from 5 113 0 203

reversed-IsIpv4 : IsIpv4 reversed
reversed-IsIpv4 = record { proto = refl; whole = omega arith }

-- On a little-endian machine the block of 203.0.113.5 drops what comes from 5.113.0.203 ...
posted_stored_example : tc_ingress_blocker slots (posted (pos 0)) 7 reversed ≡ act_shot
posted_stored_example =
    posted_stored slots (one_slot-IsLawful little 8) (decode_to (pos 0)) (pos 1000) posting none 203
      0 113 5 7 reversed (omega arith) (omega arith) (omega arith) (omega arith) refl posting_text
      refl answer_forever reversed-IsIpv4 refl

-- ... and lets pass what comes from 203.0.113.5.
posted_little_misses_example : tc_ingress_blocker slots (posted (pos 0)) 7 from_posting ≡ act_ok
unfolding rate_limiter.Tests.OneSlot.slot_lookup
posted_little_misses_example =
    posted_little_misses slots (one_slot-IsLawful little 8) (decode_to (pos 0)) (pos 1000) posting
      none 203 0 113 5 7 from_posting (omega arith) (omega arith) (omega arith) (omega arith) refl
      (inl (omega arith)) refl posting_text answer_forever refl refl

abbrev marshalled : Bytes
marshalled = host_u32 little 3405803781

reversed_source : saddr reversed ≡ host_u32 little 3405803781
unfolding host_u32
reversed_source = refl

-- Booted at second 900, 100 seconds before a request to block for 60 seconds.
posted_outlives_example :
    (tc_ingress_blocker slots (posted (pos 60)) ((100 + 500) * 1000000000 + 5) reversed ≡ act_shot)
    ↔ (500 < 60 + 900)
posted_outlives_example =
    posted_outlives slots (one_slot-IsLawful little 8) (decode_to (pos 60)) 900 100 500 60 5 posting
      none reversed refl posting_key refl (omega arith) (omega arith) (omega arith) answer_minute
      reversed-IsIpv4 reversed_source

abbrev held : Slot
held = some (host_u32 little 3405803781, host_u64 little 0)

removal : (handle_remove_block slots (codes "203.0.113.5") held).0.status ≡ 200
unfolding handle_remove_block ip_to_uint32 parse_ip rate_limiter.Net.parse_fields
    rate_limiter.Net.to4 rate_limiter.Tests.OneSlot.slot_delete host_u32 rate_limiter.Net.be_u32
removal = refl

not_served :
    400
    ≤ (serve slots
        (decode_to (pos 0))
        (pos 1000)
        (record posting { path = codes "/blocks" })
        held).0.status
unfolding serve bytes_eq
not_served = omega arith

serve_unchanged_example :
    (serve slots (decode_to (pos 0)) (pos 1000) (record posting { path = codes "/blocks" }) held).1
    ≡ held
serve_unchanged_example =
    serve_unchanged slots (decode_to (pos 0)) (pos 1000) (record posting { path = codes "/blocks" })
      held (inl not_served)

listed_delete_example :
    handle_remove_block slots
      (list_one slots (pos 1000) (host_u32 little 3405803781, host_u64 little 0)).ip
      held
    ≡ (
      respond 200 (
          unblocked (list_one slots (pos 1000) (host_u32 little 3405803781, host_u64 little 0)).ip),
      none,
    )
unfolding rate_limiter.Tests.OneSlot.slot_delete bytes_eq host_u32
listed_delete_example =
    listed_delete slots (one_slot-IsLawful little 8) (pos 1000) 3405803781 (host_u64 little 0) held
      none (omega arith) refl

tc_dropped_iff_example : (tc_ingress_blocker slots held 7 reversed ≡ act_shot) ↔ (
    IsIpv4 reversed
    × ((value : Bytes) × (slots.lookup held (saddr reversed) ≡ some value)
        × ((load_u64 little value ≡ 0) ⊎ (7 / 1000000000 < load_u64 little value))))
tc_dropped_iff_example = tc_dropped_iff slots held 7 reversed

round_trip_example : ip_to_uint32 (uint32_to_ip 3405803781) ≡ ok 3405803781
round_trip_example = ip_to_uint32-uint32_to_ip 3405803781 (omega arith)

no_colon : All (λ c. c ≢ b':') (codes "203.0.113.5")
no_colon = ground arith

printed_example : (uint32_to_ip 3405803781 ≡ codes "203.0.113.5") × (3405803781 < 4294967296)
printed_example = uint32_to_ip-ip_to_uint32 (codes "203.0.113.5") no_colon posting_key
