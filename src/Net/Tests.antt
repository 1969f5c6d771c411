-- ===== src/Net/Tests.antt =====
-- Runs of the layers below kernel/net/tcp.
use grace_os.Net.Checksum.{ipv4_checksum}
use grace_os.Net.Checksum.Verify.{total, Verifies, ipv4_checksum_lem}
use grace_os.Net.Ethernet.{Mac, NetDevice}
use grace_os.Net.Arp.{ArpCache, arp_init, arp_request, arp_receive, arp_cache_insert}
use grace_os.Net.Arp.Cache.{Enters, Chooses, arp_cache_insert-Enters}
use grace_os.Net.Arp.Distinct.{initial, received, AreDistinct, Reached-AreDistinct}
use grace_os.Net.Arp.Exchange.{Answers, arp_exchange}
use grace_os.Net.Http.{
  read_size, read_data, chunk_done, ChunkDecoder, more, returned, ended, parse_hex,
  http_buffer_sink, decode, decode_chunked_bytes,
}
use grace_os.Net.Http.Stream.{decode_chunked_bytes-append}
use grace_os.Net.Http.Sink.{http_buffer_sink-IsSink}
use grace_os.Prelude.{ℕ, ◌≡◌, refl, none, some, List, [], ◌∷◌, ◌++◌, arith}

abbrev guest_mac : Mac
guest_mac = record { m0 = 0x52; m1 = 0x54; m2 = 0; m3 = 0x12; m4 = 0x34; m5 = 0x56 }

abbrev host_mac : Mac
host_mac = record { m0 = 0x52; m1 = 0x55; m2 = 10; m3 = 0; m4 = 2; m5 = 2 }

abbrev guest : NetDevice
guest = record { mac = guest_mac; ip = 0x0A00020F; netmask = 0xFFFFFF00; gateway = 0x0A000202 }

abbrev host : NetDevice
host = record { mac = host_mac; ip = 0x0A000202; netmask = 0xFFFFFF00; gateway = 0x0A000202 }

ipv4_checksum_lem_example :
    (c : ℕ) × (ipv4_checksum (0x45 ∷ 0 ∷ 200 ∷ []) ≡ some c)
    × Verifies (total (0x45 ∷ 0 ∷ 200 ∷ [])) c
ipv4_checksum_lem_example =
    ipv4_checksum_lem (0x45 ∷ 0 ∷ 200 ∷ [])
      ((omega arith, (omega arith, (omega arith, tt))), omega arith)

arp_exchange_example :
    (reply : List ℕ) × (here' : ArpCache) × (there' : ArpCache) × (arp_receive host 100
        (arp_request guest host.ip)
        arp_init
      ≡ (there', some (guest.mac, reply)))
    × (arp_receive guest 103 reply arp_init ≡ (here', none))
    × Answers guest 5000 host.ip host.mac here'
    × Answers host 5000 guest.ip guest.mac there'
arp_exchange_example =
    arp_exchange guest host 100 103 5000 arp_init arp_init (omega arith) (omega arith) (omega arith)
      (omega arith) (omega arith) (omega arith)

arp_cache_insert-Enters_example :
    (k : ℕ) × Enters 100 host.ip host_mac arp_init
      (arp_cache_insert 100 host.ip host_mac arp_init)
      k
    × Chooses arp_init host.ip k
arp_cache_insert-Enters_example = arp_cache_insert-Enters 100 host.ip host_mac arp_init

Reached-AreDistinct_example :
    AreDistinct (arp_receive host 100 (arp_request guest host.ip) arp_init).0
Reached-AreDistinct_example =
    Reached-AreDistinct host _ (received 100 (arp_request guest host.ip) initial)

-- The body abc in one chunk of 3 bytes, cut behind b.
abbrev fresh_decoder : ChunkDecoder
fresh_decoder = record { state = read_size; chunk_size = 0; chunk_read = 0; size_line = [] }

abbrev front_bytes : List ℕ
front_bytes = 51 ∷ 13 ∷ 10 ∷ 97 ∷ 98 ∷ []

abbrev back_bytes : List ℕ
back_bytes = 99 ∷ 13 ∷ 10 ∷ 48 ∷ 13 ∷ 10 ∷ []

abbrev in_chunk : ChunkDecoder
in_chunk = record { state = read_data; chunk_size = 3; chunk_read = 2; size_line = [] }

abbrev at_end : ChunkDecoder
at_end = record { state = chunk_done; chunk_size = 0; chunk_read = 0; size_line = [] }

front_decoded :
    decode_chunked_bytes (http_buffer_sink 8) fresh_decoder [] front_bytes
    ≡ some (more, in_chunk, 97 ∷ 98 ∷ [])
unfolding decode_chunked_bytes decode parse_hex http_buffer_sink
front_decoded = refl

back_decoded :
    decode_chunked_bytes (http_buffer_sink 8) in_chunk (97 ∷ 98 ∷ []) back_bytes
    ≡ some (returned ended, at_end, 97 ∷ 98 ∷ 99 ∷ [])
unfolding decode_chunked_bytes decode parse_hex http_buffer_sink
back_decoded = refl

decode_chunked_bytes-append_example :
    (d : ChunkDecoder) × (decode_chunked_bytes
        (http_buffer_sink 8)
        fresh_decoder
        []
        (front_bytes ++ back_bytes)
      ≡ some (returned ended, d, 97 ∷ 98 ∷ 99 ∷ []))
    × (returned ended ≡ more → d ≡ at_end)
decode_chunked_bytes-append_example =
    decode_chunked_bytes-append (http_buffer_sink 8) fresh_decoder [] front_bytes back_bytes
      in_chunk (97 ∷ 98 ∷ []) (returned ended) at_end (97 ∷ 98 ∷ 99 ∷ [])
      (http_buffer_sink-IsSink 8) (omega arith, omega arith) front_decoded back_decoded
