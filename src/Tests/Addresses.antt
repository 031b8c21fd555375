-- ===== src/Tests/Addresses.antt =====
-- The theorems on the block list of the decision engine, on the configuration and on the producer.
use rate_limiter.Base.{
  ◌≡◌, refl, List, [], ◌∷◌, Bytes, codes, Option, none, some, bytes_eq, if◌then◌else◌, arith,
}
use rate_limiter.Base.Int.{pos}
use rate_limiter.Bpf.{BpfMap}
use rate_limiter.Float.{Float}
use rate_limiter.Net.{Endian, little, big, host_u32, put_be_u32, print_ipv4}
use rate_limiter.Blocklist.{BlocklistError, ip_to_key, add, remove}
use rate_limiter.Blocklist.Laws.{add_value_size}
use rate_limiter.Config.{split_csv}
use rate_limiter.Config.Lists.{IsAddress}
use rate_limiter.Text.Decimal.{print_int}
use rate_limiter.Tests.OneSlot.{one_slot, one_slot-IsLawful, Slot}

-- A map as a corrected loader would share it, with values of four bytes.
abbrev words : BpfMap
words = one_slot little 4

abbrev blocked_text : Bytes
blocked_text = print_ipv4 203 0 113 5

abbrev no_entry : Slot
no_entry = none

abbrev five : Bytes
five = 203 ∷ 0 ∷ 113 ∷ 5 ∷ []

abbrev one_entry : Slot
one_entry = some (five, host_u32 little 1)

added : add words blocked_text (some no_entry) ≡ (none, some one_entry)
unfolding add ip_to_key rate_limiter.Net.parse_ip print_ipv4 rate_limiter.Net.parse_fields
    rate_limiter.Net.to4 rate_limiter.Tests.OneSlot.slot_put host_u32 rate_limiter.Net.be_u32
added = refl

taken_out : remove words blocked_text (some one_entry) ≡ (none, some no_entry)
unfolding remove ip_to_key rate_limiter.Net.parse_ip print_ipv4 rate_limiter.Net.parse_fields
    rate_limiter.Net.to4 rate_limiter.Tests.OneSlot.slot_delete put_be_u32 rate_limiter.Net.be_u32
taken_out = refl

-- The loader's map, with values of eight bytes.
abbrev shared : BpfMap
shared = one_slot little 8

add_value_size_example :
    (e : BlocklistError shared.Error) × (add shared (codes "203.0.113.5") (some no_entry)
      ≡ (some e, some no_entry))
add_value_size_example =
    add_value_size shared (one_slot-IsLawful little 8) (codes "203.0.113.5") no_entry (omega arith)

abbrev brokers : List Bytes
brokers = codes "kafka1:9092" ∷ codes "kafka2:9092" ∷ []

one-IsAddress : IsAddress (codes "kafka1:9092")
unfolding rate_limiter.Text.Split.trim_space
one-IsAddress = record {
  non_empty = λ h. absurd (ground arith);
  no_comma = ground arith;
  trimmed = refl;
}

two-IsAddress : IsAddress (codes "kafka2:9092")
unfolding rate_limiter.Text.Split.trim_space
two-IsAddress = record {
  non_empty = λ h. absurd (ground arith);
  no_comma = ground arith;
  trimmed = refl;
}

spaces_dropped : split_csv (codes " a:1 , ,b:2") ≡ codes "a:1" ∷ codes "b:2" ∷ []
unfolding split_csv rate_limiter.Text.Split.split rate_limiter.Text.Split.trim_space
spaces_dropped = refl

getenv : Bytes → Bytes
getenv key =
    if bytes_eq key (codes "BUCKET_SIZE")
    then codes "20"
    else if bytes_eq key (codes "BUCKET_TTL_SECONDS")
    then codes "30"
    else []

parse_float : Bytes → Option Float
parse_float s = none

size_set : getenv (codes "BUCKET_SIZE") ≡ print_int (pos 20)
unfolding getenv print_int bytes_eq
size_set = refl

ttl_set : getenv (codes "BUCKET_TTL_SECONDS") ≡ print_int (pos 30)
unfolding getenv print_int bytes_eq
ttl_set = refl
