-- ===== src/Mqtt3/Examples.antt =====
-- The theorems about the crate mqtt3 at the packets of its unit tests.
use rust_mq.Base.{
  ℕ, zero, suc, ◌<◌, ◌≤◌, ◌≡◌, ◌≢◌, ◌↔◌, refl, false, [], ◌∷◌, ◌++◌, All, some, length, arith,
}
use rust_mq.Base.Utf8.{is_utf8}
use rust_mq.Outcome.{done, failed, panicked, stuck}
use rust_mq.Mqtt3.Bytes.{Bytes, IsByte, max_payload_size}
use rust_mq.Mqtt3.Errors.{payload_too_long}
use rust_mq.Mqtt3.Qos.{at_least_once}
use rust_mq.Mqtt3.Packet.{publish, Publish}
use rust_mq.Mqtt3.Stream.{read_remaining_length}
use rust_mq.Mqtt3.Read.{read_packet}
use rust_mq.Mqtt3.Write.{write_packet, write_remaining_length}
use rust_mq.Mqtt3.Samples.{codes, sample_publish, publish_bytes, read_publish_test}
use rust_mq.Mqtt3.Codec.RoundTrip.{Fits, IsReadable, read_back, read_packet-write_packet}
use rust_mq.Mqtt3.Codec.Limits.{
  read_remaining_length-write_remaining_length, write_remaining_length-shortest, announced,
  first_byte, write_packet-too_long,
}
use rust_mq.Mqtt3.Accept.Packets.{HasBadHeader}
use rust_mq.Mqtt3.Accept.Safety.{
  read_packet-panics, read_packet-total, read_packet_sound, write_packet-read_packet,
}

sample_publish-Fits : Fits (publish sample_publish)
unfolding is_utf8
sample_publish-Fits = record {
  topic_name = (refl, omega arith);
  pid = omega arith;
  size = omega arith;
}

read_packet-write_packet_example :
    (bytes : Bytes) × (write_packet (publish sample_publish) [] ≡ done tt ([] ++ bytes))
    × (read_packet (bytes ++ 7 ∷ []) ≡ read_back (publish sample_publish) (7 ∷ []))
read_packet-write_packet_example =
    read_packet-write_packet (publish sample_publish) [] (7 ∷ []) sample_publish-Fits

publish_bytes-All : All IsByte publish_bytes
publish_bytes-All = omega arith

write_packet-read_packet_example :
    (bytes : Bytes) × (write_packet (publish sample_publish) [] ≡ done tt ([] ++ bytes))
    × (read_packet (bytes ++ 7 ∷ []) ≡ done (publish sample_publish) (7 ∷ []))
write_packet-read_packet_example =
    write_packet-read_packet publish_bytes [] [] (7 ∷ []) (publish sample_publish) publish_bytes-All
      read_publish_test

read_packet_sound_example :
    Fits (publish sample_publish)
    × IsReadable (publish sample_publish)
    × ((front : Bytes) × (publish_bytes ≡ front ++ []))
read_packet_sound_example =
    read_packet_sound publish_bytes [] (publish sample_publish) publish_bytes-All read_publish_test

-- A PUBLISH with both QoS bits set.
abbrev bad_publish : Bytes
bad_publish = 0x36 ∷ 2 ∷ 0 ∷ 0 ∷ []

bad_publish-All : All IsByte bad_publish
bad_publish-All = omega arith

read_packet-panics_example : (read_packet bad_publish ≡ panicked) ↔ HasBadHeader bad_publish
read_packet-panics_example = read_packet-panics bad_publish bad_publish-All

read_packet-total_example : read_packet publish_bytes ≢ stuck
read_packet-total_example = read_packet-total publish_bytes publish_bytes-All

length_round_trip_example :
    (bytes : Bytes) × (write_remaining_length 321 [] ≡ done tt ([] ++ bytes))
    × (read_remaining_length (bytes ++ 9 ∷ []) ≡ done 321 (9 ∷ []))
    × All IsByte bytes
    × (0 < length bytes)
    × (length bytes ≤ 4)
length_round_trip_example =
    read_remaining_length-write_remaining_length 321 [] (9 ∷ []) (omega arith)

-- A longer form of 321.
abbrev padded : Bytes
padded = 0xc1 ∷ 0x82 ∷ 0x00 ∷ []

padded_reads : read_remaining_length padded ≡ done 321 []
unfolding read_remaining_length
padded_reads = refl

padded-All : All IsByte padded
padded-All = omega arith

write_remaining_length-shortest_example :
    (own : Bytes) × (write_remaining_length 321 [] ≡ done tt ([] ++ own))
    × (length own ≤ length padded)
write_remaining_length-shortest_example =
    write_remaining_length-shortest padded [] [] 321 padded-All padded_reads

zeros : ℕ → Bytes
zeros zero = []
zeros (suc n) = 0 ∷ zeros n

length-zeros : (n : ℕ) → length (zeros n) ≡ n
unfolding zeros
length-zeros zero = refl
length-zeros (suc n) = omega (arith, length-zeros n)

abbrev big_publish : Publish
big_publish = record {
  dup = false;
  qos = at_least_once;
  retain = false;
  topic_name = codes "a/b";
  pid = some 10;
  payload = zeros max_payload_size;
}

big_publish-announced : max_payload_size < announced (publish big_publish)
big_publish-announced = omega (arith, length-zeros max_payload_size)

write_packet-too_long_example :
    write_packet (publish big_publish) []
    ≡ failed payload_too_long ([] ++ first_byte (publish big_publish) ∷ [])
write_packet-too_long_example = write_packet-too_long (publish big_publish) [] big_publish-announced
