-- ===== src/Tests/Packets.antt =====
-- Packets, requests and maps for the witnesses.
use rate_limiter.Base.{ℕ, [], ◌∷◌, Bytes, codes, Result, ok, refl, ◌≡◌, arith, none}
use rate_limiter.Base.Int.{ℤ, pos}
use rate_limiter.Net.{Endian, little, big, print_ipv4}
use rate_limiter.Blocker.Drops.{IsIpv4}
use rate_limiter.Loader.Handlers.{BlockRequest, Request, post, handle_add_block}
use rate_limiter.Loader.Address.{ip_to_uint32}
use rate_limiter.Tests.OneSlot.{one_slot}

-- An Ethernet frame with the type IPv4, a header of twenty bytes, and the given source.
abbrev pub packet_from : ℕ → ℕ → ℕ → ℕ → Bytes
packet_from a b c d =
    0 ∷ 0 ∷ 0 ∷ 0 ∷ 0 ∷ 0 ∷ 0 ∷ 0 ∷ 0 ∷ 0 ∷ 0 ∷ 0 ∷ 8 ∷ 0 ∷ 69 ∷ 0 ∷ 0 ∷ 0 ∷ 0 ∷ 0 ∷ 0 ∷ 0 ∷ 0 ∷ 0
    ∷ 0 ∷ 0 ∷ a ∷ b ∷ c ∷ d ∷ 10 ∷ 0 ∷ 0 ∷ 1 ∷ []

-- A decoder that reads every body as the request to block 203.0.113.5.
abbrev pub decode_to : ℤ → Bytes → Result Bytes BlockRequest
decode_to ttl body = ok (record { ip = codes "203.0.113.5"; ttl_seconds = ttl })

abbrev pub posting : Request
posting = record { method = post; path = codes "/block"; body = codes "{}" }

pub posting_key : ip_to_uint32 (codes "203.0.113.5") ≡ ok 3405803781
unfolding ip_to_uint32 rate_limiter.Net.parse_ip rate_limiter.Net.parse_fields rate_limiter.Net.to4
    rate_limiter.Net.be_u32
posting_key = refl

pub posting_text : codes "203.0.113.5" ≡ print_ipv4 203 0 113 5
unfolding print_ipv4
posting_text = refl

abbrev pub from_posting : Bytes
from_posting = packet_from 203 0 113 5

pub from_posting-IsIpv4 : IsIpv4 from_posting
from_posting-IsIpv4 = record { proto = refl; whole = omega arith }

-- The answer to the request on a little-endian machine, at the Unix second 1000.
abbrev pub answer_to : ℤ → ℕ
answer_to ttl =
    (handle_add_block (one_slot little 8) (decode_to ttl) (pos 1000) posting none).0.status

pub answer_forever : answer_to (pos 0) ≡ 201
unfolding handle_add_block ip_to_uint32 rate_limiter.Net.parse_ip rate_limiter.Net.parse_fields
    rate_limiter.Net.to4 rate_limiter.Tests.OneSlot.slot_put rate_limiter.Net.host_u64
answer_forever = refl

pub answer_minute : answer_to (pos 60) ≡ 201
unfolding handle_add_block ip_to_uint32 rate_limiter.Net.parse_ip rate_limiter.Net.parse_fields
    rate_limiter.Net.to4 rate_limiter.Tests.OneSlot.slot_put rate_limiter.Net.host_u64
answer_minute = refl
