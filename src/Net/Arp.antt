-- ===== src/Net/Arp.antt =====
-- kernel/net/arp/arp.c: the cache of 32 entries, and the packets as lists of their 28 bytes. One time stands for
-- what `timer_get_ms` answers during a call.
pub mod Search
pub mod Cache
pub mod Exchange
pub mod Distinct
use grace_os.Net.Ethernet.{Mac, NetDevice, put16, put32, put_mac, get16, get32, get_mac}
use grace_os.Prelude.{
  ℕ, zero, suc, ◌+◌, ◌-◌, ◌%◌, ◌^◌, Bool, true, false, ◌&&◌, ◌||◌, not, Option, none, some, List,
  [], ◌∷◌, ltb, ◌==◌, if◌then◌else◌, length, put,
}

pub record ArpEntry : Type 0 where
  pub ip : ℕ
  pub mac : Mac
  pub timestamp : ℕ
  pub valid : Bool

abbrev pub ArpCache : Type 0
ArpCache = ℕ → ArpEntry

abbrev pub arp_cache_size : ℕ
arp_cache_size = 32

abbrev pub arp_entry_ttl_ms : ℕ
arp_entry_ttl_ms = 60000

abbrev pub no_mac : Mac
no_mac = record { m0 = 0; m1 = 0; m2 = 0; m3 = 0; m4 = 0; m5 = 0 }

abbrev pub arp_init : ArpCache
arp_init i = record { ip = 0; mac = no_mac; timestamp = 0; valid = false }

abbrev pub is_for : ArpCache → ℕ → ℕ → Bool
is_for cache ip i = (cache i).valid && (cache i).ip == ip

-- The loops over the cache that stop at an entry for `ip`: `n` slots from slot `i` on.
unfoldable pub find_entry : ArpCache → ℕ → ℕ → ℕ → Option ℕ
find_entry cache ip zero i = none
find_entry cache ip (suc n) i =
    let later = find_entry cache ip n (i + 1) in if is_for cache ip i then some i else later

-- The loop for an empty slot or the oldest entry.
unfoldable pub find_oldest : ArpCache → ℕ → ℕ → ℕ → ℕ
find_oldest cache oldest zero i = oldest
find_oldest cache oldest (suc n) i =
    let older = if ltb (cache i).timestamp (cache oldest).timestamp then i else oldest in
    let rest = find_oldest cache older n (i + 1) in if not (cache i).valid then i else rest

-- What is entered for the slot found.
abbrev pub enter : ℕ → ℕ → Mac → ArpCache → Option ℕ → ArpCache
enter now ip mac cache (some i) = put cache i (record (cache i) { mac = mac; timestamp = now })
enter now ip mac cache none =
    put cache (find_oldest cache 0 31 1)
      (record { ip = ip; mac = mac; timestamp = now; valid = true })

unfoldable pub arp_cache_insert : ℕ → ℕ → Mac → ArpCache → ArpCache
arp_cache_insert now ip mac cache = enter now ip mac cache (find_entry cache ip arp_cache_size 0)

-- `struct arp_packet`
abbrev pub arp_packet : ℕ → Mac → ℕ → Mac → ℕ → List ℕ
arp_packet operation sender_mac sender_ip target_mac target_ip = put16 1 (
    put16 0x0800 (
      6
      ∷ 4
      ∷ put16 operation
          (put_mac sender_mac (put32 sender_ip (put_mac target_mac (put32 target_ip []))))))

-- The packet of `arp_send_request`, which goes to all.
unfoldable pub arp_request : NetDevice → ℕ → List ℕ
arp_request dev target_ip = arp_packet 1 dev.mac dev.ip no_mac target_ip

-- The cache after a packet and the reply, to whom it goes and its bytes.
unfoldable pub arp_receive : NetDevice → ℕ → List ℕ → ArpCache → ArpCache × Option (Mac × List ℕ)
arp_receive dev now bytes cache =
    let sender_mac = get_mac bytes 8 in
    let sender_ip = get32 bytes 14 in
    let cached = arp_cache_insert now sender_ip sender_mac cache in
    if ltb (length bytes) 28
    then (cache, none)
    else if not (get16 bytes 0 == 1) || not (get16 bytes 2 == 0x0800)
    then (cache, none)
    else if get16 bytes 6 == 1 && get32 bytes 24 == dev.ip
    then (cached, some (sender_mac, arp_packet 2 dev.mac dev.ip sender_mac sender_ip))
    else (cached, none)

-- The entry found, if it is not too old; one that is is given up.
abbrev pub fresh : ℕ → ArpCache → Option ℕ → Option Mac × ArpCache
fresh now cache none = (none, cache)
fresh now cache (some i) =
    if ltb arp_entry_ttl_ms ((now + 2 ^ 64 - (cache i).timestamp) % 2 ^ 64)
    then (none, put cache i (record (cache i) { valid = false }))
    else (some (cache i).mac, cache)

unfoldable pub arp_cached : ℕ → ℕ → ArpCache → Option Mac × ArpCache
arp_cached now ip cache = fresh now cache (find_entry cache ip arp_cache_size 0)

-- The packets that arrive while the device is polled; of the replies nothing is kept here.
unfoldable pub receive_packets : NetDevice → ℕ → List (List ℕ) → ArpCache → ArpCache
receive_packets dev now [] cache = cache
receive_packets dev now (p ∷ ps) cache = receive_packets dev now ps (arp_receive dev now p cache).0

abbrev pub slirp_gateway_ip : ℕ
slirp_gateway_ip = 0x0A000202

abbrev pub slirp_gateway_mac : Mac
slirp_gateway_mac = record { m0 = 0x52; m1 = 0x55; m2 = 0x0A; m3 = 0; m4 = 0x02; m5 = 0x02 }

-- What follows the polling, with the slot found.
abbrev pub fallback : NetDevice → ℕ → ℕ → ArpCache → Option ℕ → Option Mac × ArpCache
fallback dev now ip cache (some i) = (some (cache i).mac, cache)
fallback dev now ip cache none =
    if ip == dev.gateway && ip == slirp_gateway_ip
    then (some slirp_gateway_mac, arp_cache_insert now ip slirp_gateway_mac cache)
    else (none, cache)

abbrev pub second_look : NetDevice → ℕ → ℕ → ArpCache → Option Mac × ArpCache
second_look dev now ip cache = fallback dev now ip cache (find_entry cache ip arp_cache_size 0)

abbrev pub after_polling :
    NetDevice → ℕ → ℕ → List (List ℕ) → Option Mac × ArpCache → Option Mac × ArpCache
after_polling dev now ip packets (some mac, cache) = (some mac, cache)
after_polling dev now ip packets (none, cache) =
    second_look dev now ip (receive_packets dev now packets cache)

-- With the packets that arrive while it polls. A request is sent exactly if the entry is not at hand.
unfoldable pub arp_lookup : NetDevice → ℕ → ℕ → List (List ℕ) → ArpCache → Option Mac × ArpCache
arp_lookup dev now ip packets cache = after_polling dev now ip packets (arp_cached now ip cache)
