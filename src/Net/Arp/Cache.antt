-- ===== src/Net/Arp/Cache.antt =====
-- kernel/net/arp/arp.c: what the cache answers after an insertion.
use grace_os.Net.Ethernet.{Mac}
use grace_os.Net.Arp.{
  ArpEntry, ArpCache, arp_cache_size, arp_entry_ttl_ms, is_for, find_oldest, enter, fresh,
  arp_cache_insert, arp_cached,
}
use grace_os.Net.Arp.Search.{
  NoneIn, IsFirst, find_entry-Outcome, find_entry-first, IsChosen, find_oldest-IsChosen,
}
use grace_os.Prelude.{
  ℕ, ◌+◌, ◌-◌, ◌%◌, ◌^◌, ◌≤◌, ◌<◌, ◌≡◌, refl, sym, ap, ◌∙◌, subst, ◌≢◌, ◌⊎◌, inl, inr, true, false,
  ◌&&◌, some, arith, ℕ_discrete, ltb, ◌==◌, put, put_self, put_ne,
}

-- Slot `k` has the entry, and the others are as they were.
abbrev pub Enters : ℕ → ℕ → Mac → ArpCache → ArpCache → ℕ → Type 0
Enters now ip mac cache cache' k =
    (k < arp_cache_size)
    × ((cache' k).ip ≡ ip)
    × ((cache' k).mac ≡ mac)
    × ((cache' k).timestamp ≡ now)
    × ((cache' k).valid ≡ true)
    × ((j : ℕ) → k ≢ j → cache' j ≡ cache j)

-- A free slot, or the oldest entry where all slots but the first are in use.
abbrev pub MakesRoom : ArpCache → ℕ → Type 0
MakesRoom cache k =
    ((cache k).valid ≡ false)
    ⊎ ((j : ℕ) → j < arp_cache_size → (cache k).timestamp ≤ (cache j).timestamp)

-- The slot is that of the entry for `ip`, or there is none and a slot is made free.
abbrev pub Chooses : ArpCache → ℕ → ℕ → Type 0
Chooses cache ip k = IsFirst cache ip 0 k ⊎ (NoneIn cache ip 0 arp_cache_size × MakesRoom cache k)

-- The address and use of the entry that a search finds.
hit_parts :
    (cache : ArpCache) (ip k : ℕ)
    → is_for cache ip k ≡ true
    → ((cache k).ip ≡ ip) × ((cache k).valid ≡ true)
hit_parts cache ip k hit = (ground (arith, hit), ground (arith, hit))

put-Enters :
    (now ip : ℕ) (mac : Mac) (cache : ArpCache) (k : ℕ) (e : ArpEntry)
    → k < arp_cache_size
    → e.ip ≡ ip
    → e.mac ≡ mac
    → e.timestamp ≡ now
    → e.valid ≡ true
    → Enters now ip mac cache (put cache k e) k
put-Enters now ip mac cache k e lt ip_e mac_e time valid =
    let here : put cache k e k ≡ e = put_self cache k e in
    (
      lt,
      ap ArpEntry.ip here ∙ ip_e,
      ap ArpEntry.mac here ∙ mac_e,
      ap ArpEntry.timestamp here ∙ time,
      ap ArpEntry.valid here ∙ valid,
      λ j ne. put_ne cache k j e ne,
    )

chosen_room :
    (cache : ArpCache) (r : ℕ) → IsChosen cache 0 31 1 r → (r < arp_cache_size) × MakesRoom cache r
chosen_room cache r (at, chosen) =
    let lt : r < arp_cache_size = elim at [ inl e ↦ omega (arith, e) | inr lt ↦ lt ] in
    elim chosen [
      | inl free ↦ (lt, inl free)
      | inr (all, le) ↦ (
        lt,
        inr (λ j hi. elim (ℕ_discrete j 0) [
          | yes e ↦ subst (λ j'. (cache r).timestamp ≤ (cache j').timestamp) (sym e) le
          | no ne ↦ (all j (omega (arith, ne)) hi).1
        ]),
      )
    ]

-- The entry that is inserted takes the slot of the entry for its address, and without one a free slot or that of
-- the oldest entry; no other slot changes.
pub arp_cache_insert-Enters :
    (now ip : ℕ) (mac : Mac) (cache : ArpCache)
    → (k : ℕ) × Enters now ip mac cache (arp_cache_insert now ip mac cache) k × Chooses cache ip k
unfolding arp_cache_insert
arp_cache_insert-Enters now ip mac cache = elim (find_entry-Outcome cache ip arp_cache_size 0) [
  | inl (k, lt, first, e) ↦
      let (same_ip, valid) = hit_parts cache ip k first.1 in
      (
        k,
        subst (λ r. Enters now ip mac cache (enter now ip mac cache r) k) (sym e)
            (put-Enters now ip mac cache k (record (cache k) { mac = mac; timestamp = now }) lt
              same_ip refl refl valid),
        inl first,
      )
  | inr (never, e) ↦
      let k = find_oldest cache 0 31 1 in
      let (lt, room) = chosen_room cache k (find_oldest-IsChosen cache 0 31 1) in
      (
        k,
        subst (λ r. Enters now ip mac cache (enter now ip mac cache r) k) (sym e)
            (put-Enters now ip mac cache k
              (record { ip = ip; mac = mac; timestamp = now; valid = true }) lt refl refl refl
              refl),
        inr (never, room),
      )
]

-- The entry inserted is the first for its address.
pub Enters-IsFirst :
    (now ip : ℕ) (mac : Mac) (cache cache' : ArpCache) (k : ℕ)
    → Enters now ip mac cache cache' k
    → Chooses cache ip k
    → IsFirst cache' ip 0 k
Enters-IsFirst now ip mac cache cache' k (lt, ip_e, mac_e, time, valid, others) chooses =
    let before : NoneIn cache ip 0 k = elim chooses [
      | inl first ↦ first.2
      | inr (never, room) ↦ λ j lo hi. never j lo (omega (arith, hi, lt))
    ] in
    (
      omega arith,
      ground (arith, ip_e, valid),
      λ j lo hi. ap (λ e. e.valid && e.ip == ip) (others j (omega (arith, hi))) ∙ before j lo hi,
    )

-- The cached answer.
pub arp_cached-first :
    (now ip : ℕ) (cache : ArpCache) (k : ℕ)
    → k < arp_cache_size
    → IsFirst cache ip 0 k
    → (cache k).timestamp ≤ now
    → now ≤ (cache k).timestamp + arp_entry_ttl_ms
    → now < 2 ^ 64
    → arp_cached now ip cache ≡ (some (cache k).mac, cache)
unfolding arp_cached
arp_cached-first now ip cache k lt first past young word =
    let found = find_entry-first cache ip k lt first in
    let in_time : ltb arp_entry_ttl_ms ((now + 2 ^ 64 - (cache k).timestamp) % 2 ^ 64) ≡ false =
      ground (arith, past, young, word) in
    ap (fresh now cache) found ∙ (rw in_time refl)

pub arp_cached-insert :
    (now later ip : ℕ) (mac : Mac) (cache : ArpCache)
    → now ≤ later
    → later ≤ now + arp_entry_ttl_ms
    → later < 2 ^ 64
    → arp_cached later ip (arp_cache_insert now ip mac cache)
      ≡ (some mac, arp_cache_insert now ip mac cache)
arp_cached-insert now later ip mac cache past young word =
    let cache' = arp_cache_insert now ip mac cache in
    let (k, enters, chooses) = arp_cache_insert-Enters now ip mac cache in
    let (lt, ip_e, mac_e, time, valid, others) = enters in
    arp_cached-first later ip cache' k lt (Enters-IsFirst now ip mac cache cache' k enters chooses)
      (omega (arith, time, past)) (omega (arith, time, young)) word
    ∙ ap (λ m. (some m, cache')) mac_e
