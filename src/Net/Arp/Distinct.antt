-- ===== src/Net/Arp/Distinct.antt =====
-- kernel/net/arp/arp.c: no two entries are for one address.
use grace_os.Net.Ethernet.{Mac, NetDevice, get16, get32, get_mac}
use grace_os.Net.Arp.{
  ArpCache, arp_cache_size, arp_init, fresh, fallback, find_entry, arp_cache_insert, arp_cached,
  arp_receive, receive_packets, arp_lookup, after_polling, arp_entry_ttl_ms, slirp_gateway_ip,
  slirp_gateway_mac,
}
use grace_os.Net.Arp.Cache.{Enters, Chooses, arp_cache_insert-Enters}
use grace_os.Prelude.{
  ℕ, ◌+◌, ◌-◌, ◌%◌, ◌^◌, ◌<◌, ◌≡◌, sym, ap, ◌∙◌, inl, inr, true, false, ◌&&◌, ◌||◌, not, Option,
  none, some, List, [], ◌∷◌, arith, ℕ_discrete, ltb, ◌==◌, Bool-cases, length, put, put_self,
  put_ne,
}

-- Entries in use have different addresses.
abbrev pub AreDistinct : ArpCache → Type 0
AreDistinct cache =
    (i j : ℕ)
    → i < arp_cache_size
    → j < arp_cache_size
    → (cache i).valid ≡ true
    → (cache j).valid ≡ true
    → (cache i).ip ≡ (cache j).ip
    → i ≡ j

-- Another slot than that of the entry is not for its address.
alone :
    (cache : ArpCache) (ip k j : ℕ)
    → AreDistinct cache
    → k < arp_cache_size
    → Chooses cache ip k
    → j < arp_cache_size
    → (cache j).valid ≡ true
    → (cache j).ip ≡ ip
    → k ≡ j
alone cache ip k j distinct lt chooses lt' valid same = elim chooses [
  | inl (le, hit, before) ↦
      distinct k j lt lt' (ground (arith, hit)) valid (ground (arith, hit, same))
  | inr (never, room) ↦ absurd (ground (arith, never j (omega arith) lt', valid, same))
]

Enters-AreDistinct :
    (now ip : ℕ) (mac : Mac) (cache cache' : ArpCache) (k : ℕ)
    → Enters now ip mac cache cache' k
    → Chooses cache ip k
    → AreDistinct cache
    → AreDistinct cache'
Enters-AreDistinct now ip mac cache cache' k (lt, ip_e, mac_e, time, valid, others) chooses distinct
      i j lt_i lt_j valid_i valid_j same =
    let own : (j' : ℕ)
        → j' < arp_cache_size
        → (cache' j').valid ≡ true
        → (cache' j').ip ≡ ip
        → k ≡ j' =
      λ j' lt' v e. elim (ℕ_discrete k j') [
        | yes here ↦ here
        | no ne ↦
            let old = others j' ne in
            alone cache ip k j' distinct lt chooses lt' (ap (λ c. c.valid) (sym old) ∙ v)
              (ap (λ c. c.ip) (sym old) ∙ e)
      ] in
    elim (ℕ_discrete k i) [
      | yes e ↦ sym e ∙ own j lt_j valid_j (sym same ∙ (ap (λ s. (cache' s).ip) (sym e) ∙ ip_e))
      | no ne ↦ elim (ℕ_discrete k j) [
        | yes e ↦ sym (own i lt_i valid_i (same ∙ (ap (λ s. (cache' s).ip) (sym e) ∙ ip_e))) ∙ e
        | no ne' ↦
            let old_i = others i ne in
            let old_j = others j ne' in
            distinct i j lt_i lt_j (ap (λ c. c.valid) (sym old_i) ∙ valid_i)
              (ap (λ c. c.valid) (sym old_j) ∙ valid_j)
              (ap (λ c. c.ip) (sym old_i) ∙ (same ∙ ap (λ c. c.ip) old_j))
      ]
    ]

insert-AreDistinct :
    (now ip : ℕ) (mac : Mac) (cache : ArpCache)
    → AreDistinct cache
    → AreDistinct (arp_cache_insert now ip mac cache)
insert-AreDistinct now ip mac cache distinct =
    let (k, enters, chooses) = arp_cache_insert-Enters now ip mac cache in
    Enters-AreDistinct now ip mac cache _ k enters chooses distinct

dropped-AreDistinct :
    (cache : ArpCache) (k : ℕ)
    → AreDistinct cache
    → AreDistinct (put cache k (record (cache k) { valid = false }))
dropped-AreDistinct cache k distinct i j lt_i lt_j valid_i valid_j same =
    let entry = record (cache k) { valid = false } in
    let gone = ap (λ c. c.valid) (put_self cache k entry) in
    let kept : (j' : ℕ) → (put cache k entry j').valid ≡ true → put cache k entry j' ≡ cache j' =
      λ j' v. elim (ℕ_discrete k j') [
        | yes here ↦
            let off = ap (λ s. (put cache k entry s).valid) (sym here) ∙ gone in
            absurd (ground (arith, v, off))
        | no ne ↦ put_ne cache k j' entry ne
      ] in
    let old_i = kept i valid_i in
    let old_j = kept j valid_j in
    distinct i j lt_i lt_j (ap (λ c. c.valid) (sym old_i) ∙ valid_i)
      (ap (λ c. c.valid) (sym old_j) ∙ valid_j)
      (ap (λ c. c.ip) (sym old_i) ∙ (same ∙ ap (λ c. c.ip) old_j))

fresh-AreDistinct :
    (now : ℕ) (cache : ArpCache) (r : Option ℕ)
    → AreDistinct cache
    → AreDistinct (fresh now cache r).1
fresh-AreDistinct now cache none distinct = distinct
fresh-AreDistinct now cache (some i) distinct =
    elim (Bool-cases (ltb arp_entry_ttl_ms ((now + 2 ^ 64 - (cache i).timestamp) % 2 ^ 64))) [
      | inl old ↦ rw old (dropped-AreDistinct cache i distinct)
      | inr young ↦ rw young distinct
    ]

receive-AreDistinct :
    (dev : NetDevice) (now : ℕ) (bytes : List ℕ) (cache : ArpCache)
    → AreDistinct cache
    → AreDistinct (arp_receive dev now bytes cache).0
unfolding arp_receive
receive-AreDistinct dev now bytes cache distinct =
    let cached = insert-AreDistinct now (get32 bytes 14) (get_mac bytes 8) cache distinct in
    elim (Bool-cases (ltb (length bytes) 28)) [
      | inl short ↦ rw short distinct
      | inr long ↦ elim (Bool-cases (not (get16 bytes 0 == 1) || not (get16 bytes 2 == 0x0800))) [
        | inl other ↦ rw (long, other) distinct
        | inr arp ↦ elim (Bool-cases (get16 bytes 6 == 1 && get32 bytes 24 == dev.ip)) [
          | inl asked ↦ rw (long, arp, asked) cached
          | inr not_asked ↦ rw (long, arp, not_asked) cached
        ]
      ]
    ]

packets-AreDistinct :
    (dev : NetDevice) (now : ℕ) (packets : List (List ℕ)) (cache : ArpCache)
    → AreDistinct cache
    → AreDistinct (receive_packets dev now packets cache)
unfolding receive_packets
packets-AreDistinct dev now [] cache distinct = distinct
packets-AreDistinct dev now (p ∷ ps) cache distinct =
    packets-AreDistinct dev now ps (arp_receive dev now p cache).0
      (receive-AreDistinct dev now p cache distinct)

fallback-AreDistinct :
    (dev : NetDevice) (now ip : ℕ) (cache : ArpCache) (r : Option ℕ)
    → AreDistinct cache
    → AreDistinct (fallback dev now ip cache r).1
fallback-AreDistinct dev now ip cache (some i) distinct = distinct
fallback-AreDistinct dev now ip cache none distinct =
    elim (Bool-cases (ip == dev.gateway && ip == slirp_gateway_ip)) [
      | inl known ↦ rw known (insert-AreDistinct now ip slirp_gateway_mac cache distinct)
      | inr unknown ↦ rw unknown distinct
    ]

polled-AreDistinct :
    (dev : NetDevice) (now ip : ℕ) (packets : List (List ℕ)) (r : Option Mac × ArpCache)
    → AreDistinct r.1
    → AreDistinct (after_polling dev now ip packets r).1
polled-AreDistinct dev now ip packets (some mac, cache) distinct = distinct
polled-AreDistinct dev now ip packets (none, cache) distinct =
    let polled = receive_packets dev now packets cache in
    fallback-AreDistinct dev now ip polled (find_entry polled ip arp_cache_size 0)
      (packets-AreDistinct dev now packets cache distinct)

lookup-AreDistinct :
    (dev : NetDevice) (now ip : ℕ) (packets : List (List ℕ)) (cache : ArpCache)
    → AreDistinct cache
    → AreDistinct (arp_lookup dev now ip packets cache).1
unfolding arp_lookup arp_cached
lookup-AreDistinct dev now ip packets cache distinct =
    polled-AreDistinct dev now ip packets (arp_cached now ip cache)
      (fresh-AreDistinct now cache (find_entry cache ip arp_cache_size 0) distinct)

-- The caches that packets and lookups lead to.
pub data Reached (dev : NetDevice) : ArpCache → Type 0 where
  initial : Reached dev arp_init
  received :
      (now : ℕ) (bytes : List ℕ) {cache : ArpCache}
      → Reached dev cache
      → Reached dev (arp_receive dev now bytes cache).0
  looked_up :
      (now ip : ℕ) (packets : List (List ℕ)) {cache : ArpCache}
      → Reached dev cache
      → Reached dev (arp_lookup dev now ip packets cache).1

-- Whatever packets were received and whatever lookups were made, no address has two entries.
pub Reached-AreDistinct :
    (dev : NetDevice) (cache : ArpCache) → Reached dev cache → AreDistinct cache
Reached-AreDistinct dev _ initial =
    λ i j lt_i lt_j valid_i valid_j same. absurd (ground (arith, valid_i))
Reached-AreDistinct dev _ (received now bytes r) =
    receive-AreDistinct dev now bytes _ (Reached-AreDistinct dev _ r)
Reached-AreDistinct dev _ (looked_up now ip packets r) =
    lookup-AreDistinct dev now ip packets _ (Reached-AreDistinct dev _ r)
