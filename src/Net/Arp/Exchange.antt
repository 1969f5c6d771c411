-- ===== src/Net/Arp/Exchange.antt =====
-- kernel/net/arp/arp.c: a request and the reply to it.
use grace_os.Net.Ethernet.{Mac, NetDevice}
use grace_os.Net.Arp.{
  ArpCache, arp_entry_ttl_ms, arp_packet, arp_request, arp_receive, arp_cache_insert, arp_cached,
  arp_lookup, after_polling, no_mac,
}
use grace_os.Net.Arp.Cache.{arp_cached-insert}
use grace_os.Prelude.{
  ℕ, ◌+◌, ◌*◌, ◌/◌, ◌%◌, ◌^◌, ◌≤◌, ◌<◌, ◌≡◌, refl, ap, true, none, some, List, arith, ◌==◌, ==_self,
}

word_bytes :
    (v : ℕ)
    → v < 2 ^ 32
    → (v / 65536 / 256 % 256 * 256 + v / 65536 % 256) * 65536 + (v / 256 % 256 * 256 + v % 256) ≡ v
word_bytes v lt = omega (arith, lt)

receive_request :
    (dev : NetDevice) (now : ℕ) (mac : Mac) (ip : ℕ) (target_mac : Mac) (cache : ArpCache)
    → ip < 2 ^ 32
    → dev.ip < 2 ^ 32
    → arp_receive dev now (arp_packet 1 mac ip target_mac dev.ip) cache
      ≡ (arp_cache_insert now ip mac cache, some (mac, arp_packet 2 dev.mac dev.ip mac ip))
unfolding arp_receive
receive_request dev now mac ip target_mac cache word own =
    let same : (dev.ip == dev.ip) ≡ true = ==_self dev.ip in
    rw (word_bytes ip word, word_bytes dev.ip own, same) refl

receive_reply :
    (dev : NetDevice) (now : ℕ) (mac : Mac) (ip : ℕ) (target_mac : Mac) (target_ip : ℕ)
    (cache : ArpCache)
    → ip < 2 ^ 32
    → arp_receive dev now (arp_packet 2 mac ip target_mac target_ip) cache
      ≡ (arp_cache_insert now ip mac cache, none)
unfolding arp_receive
receive_reply dev now mac ip target_mac target_ip cache word = rw (word_bytes ip word) refl

-- The lookup that is answered from the cache.
abbrev pub Answers : NetDevice → ℕ → ℕ → Mac → ArpCache → Type 0
Answers dev later ip mac cache =
    (packets : List (List ℕ)) → arp_lookup dev later ip packets cache ≡ (some mac, cache)

cached-Answers :
    (dev : NetDevice) (later ip : ℕ) (mac : Mac) (cache : ArpCache)
    → arp_cached later ip cache ≡ (some mac, cache)
    → Answers dev later ip mac cache
unfolding arp_lookup
cached-Answers dev later ip mac cache e packets = ap (after_polling dev later ip packets) e

-- The request of a device for another's address, received there, is answered by one reply to the asker, which
-- makes no further reply when it is received. For a minute after that, each finds the other's hardware address in
-- its cache, whatever the caches held before.
pub arp_exchange :
    (asker target : NetDevice) (asked answered later : ℕ) (here there : ArpCache)
    → asker.ip < 2 ^ 32
    → target.ip < 2 ^ 32
    → asked ≤ answered
    → answered ≤ later
    → later ≤ asked + arp_entry_ttl_ms
    → later < 2 ^ 64
    → (reply : List ℕ) × (here' : ArpCache) × (there' : ArpCache) × (arp_receive target asked
          (arp_request asker target.ip)
          there
        ≡ (there', some (asker.mac, reply)))
      × (arp_receive asker answered reply here ≡ (here', none))
      × Answers asker later target.ip target.mac here'
      × Answers target later asker.ip asker.mac there'
unfolding arp_request
arp_exchange asker target asked answered later here there ip ip' first second young word = (
  arp_packet 2 target.mac target.ip asker.mac asker.ip,
  arp_cache_insert answered target.ip target.mac here,
  arp_cache_insert asked asker.ip asker.mac there,
  receive_request target asked asker.mac asker.ip no_mac there ip ip',
  receive_reply asker answered target.mac target.ip asker.mac asker.ip here ip',
  cached-Answers asker later target.ip target.mac _ (
      arp_cached-insert answered later target.ip target.mac here second
        (omega (arith, young, first)) word),
  cached-Answers target later asker.ip asker.mac _ (
      arp_cached-insert asked later asker.ip asker.mac there (omega (arith, first, second)) young
        word),
)
