-- ===== src/Mm/Handle/Total.antt =====
-- kernel/mm/sasy/handle.c: the operations keep the counter true.
use grace_os.Mm.Pmm.Count.{count, count_none, count_agree, count_flip, count-le, count_all}
use grace_os.Mm.Handle.{
  Handle, Handles, max_handles, invalid_handle, no_handle, free_slot, enter_handle, handle_alloc,
  handle_free, handle_init, handle_dup, handle_addref, handle_release, handle_get_segment,
  handle_get_free,
}
use grace_os.Mm.Handle.Slots.{IsCounted, in_use, free_slot-some, all_in_use}
use grace_os.Prelude.{
  ℕ, ◌+◌, ◌-◌, ◌<◌, ◌≡◌, refl, sym, ap, ◌∙◌, subst, ◌≢◌, ◌⊎◌, inl, inr, true, false, ◌&&◌, ◌||◌,
  not, none, some, arith, ℕ_discrete, ltb, ◌==◌, if◌then◌else◌, Bool-cases, Option-cases, put,
  put_ne,
}

enter_handle-IsCounted :
    (h seg owner : ℕ) (s : Handles)
    → h < max_handles
    → in_use s h ≡ false
    → IsCounted s
    → IsCounted (enter_handle h seg owner s)
      × ((enter_handle h seg owner s).handle_count ≡ s.handle_count + 1)
enter_handle-IsCounted h seg owner s lt free v =
    let s' = enter_handle h seg owner s in
    let more =
      count_flip max_handles h (in_use s) (in_use s') lt free (ground arith)
        (λ g ne. ap (λ (r : Handle). r.valid) (put_ne s.handles h g _ ne)) in
    let most = count-le max_handles (in_use s') in
    let same : s'.handle_count ≡ s.handle_count + 1 = omega (arith, v.counted, more, most) in
    (record { counted = same ∙ omega (arith, v.counted, more); start = omega arith }, same)

-- A handle that was not in use, the others as they were; or none, all being in use.
abbrev pub AllocOutcome : ℕ → ℕ → Handles → ℕ × Handles → Type 0
AllocOutcome seg owner s (h, s') =
    ((h < max_handles)
      × (in_use s h ≡ false)
      × (handle_get_segment h s' ≡ seg)
      × ((s'.handles h).owner_pid ≡ owner)
      × ((s'.handles h).refs ≡ 1)
      × (s'.handle_count ≡ s.handle_count + 1)
      × ((x : ℕ) → h ≢ x → s'.handles x ≡ s.handles x)
      × IsCounted s')
    ⊎ ((h ≡ invalid_handle) × (s' ≡ s) × (handle_get_free s ≡ 0))

handle_alloc-free :
    (seg owner : ℕ) (s : Handles) (h : ℕ)
    → seg ≢ 0
    → free_slot max_handles s.next_handle s ≡ some h
    → handle_alloc seg owner s ≡ (h, enter_handle h seg owner s)
unfolding handle_alloc
handle_alloc-free seg owner s h nn e = ground (arith, nn, e)

handle_alloc-full :
    (seg owner : ℕ) (s : Handles)
    → seg ≢ 0
    → free_slot max_handles s.next_handle s ≡ none
    → handle_alloc seg owner s ≡ (invalid_handle, s)
unfolding handle_alloc
handle_alloc-full seg owner s nn e = ground (arith, nn, e)

full_count :
    (s : Handles)
    → IsCounted s
    → free_slot max_handles s.next_handle s ≡ none
    → s.handle_count ≡ max_handles
full_count s v e = v.counted ∙ count_all max_handles (in_use s) (all_in_use s v.start e)

-- With a true counter, `handle_alloc` for a segment finds a handle that is not in use, which leads to
-- the segment, has one reference and the owner, leaves every other handle as it is, and counts it; it
-- fails, changing nothing, only when `handle_get_free` is 0.
pub handle_alloc_lem :
    (seg owner : ℕ) (s : Handles)
    → seg ≢ 0
    → IsCounted s
    → AllocOutcome seg owner s (handle_alloc seg owner s)
unfolding handle_get_segment handle_get_free
handle_alloc_lem seg owner s nn v = elim (Option-cases (free_slot max_handles s.next_handle s)) [
  | inl e ↦
      subst (AllocOutcome seg owner s) (sym (handle_alloc-full seg owner s nn e))
        (inr (refl, refl, omega (arith, full_count s v e)))
  | inr (h, e) ↦
      let (lt, free) = free_slot-some max_handles s.next_handle s h v.start e in
      let (v', more) = enter_handle-IsCounted h seg owner s lt free v in
      subst (AllocOutcome seg owner s) (sym (handle_alloc-free seg owner s h nn e)) (
        inl (
          lt,
          free,
          ground (arith, lt),
          ground arith,
          ground arith,
          more,
          λ x ne. put_ne s.handles h x _ ne,
          v',
        ))
]

-- A change that leaves what is in use as it is keeps the counter true.
same_use :
    (s s' : Handles)
    → ((h : ℕ) → in_use s' h ≡ in_use s h)
    → s'.handle_count ≡ s.handle_count
    → s'.next_handle ≡ s.next_handle
    → IsCounted s
    → IsCounted s'
same_use s s' usage total next v = record {
  counted =
      total ∙ v.counted ∙ sym (count_agree max_handles (in_use s) (in_use s') (λ h lt. usage h));
  start = omega (arith, next, v.start);
}

abbrev cleared : ℕ → Handles → Handles
cleared h s = record s {
  handles = put s.handles h no_handle;
  handle_count = if ltb 0 s.handle_count then s.handle_count - 1 else s.handle_count;
}

cleared-IsCounted :
    (h : ℕ) (s : Handles)
    → h < max_handles
    → in_use s h ≡ true
    → IsCounted s
    → IsCounted (cleared h s) × ((cleared h s).handle_count + 1 ≡ s.handle_count)
cleared-IsCounted h s lt used v =
    let s' = cleared h s in
    let less =
      count_flip max_handles h (in_use s') (in_use s) lt (ground arith) used
        (λ g ne. ap (λ (r : Handle). r.valid) (sym (put_ne s.handles h g _ ne))) in
    let some_used : 0 < s.handle_count = omega (arith, v.counted, less) in
    let down : s'.handle_count + 1 ≡ s.handle_count = ground (arith, some_used) in
    (record { counted = omega (arith, down, v.counted, less); start = v.start }, down)

handle_free-cleared :
    (h : ℕ) (s : Handles) → h < max_handles → in_use s h ≡ true → handle_free h s ≡ cleared h s
unfolding handle_free
handle_free-cleared h s lt used = ground (arith, lt, used)

handle_free-IsCounted : (h : ℕ) (s : Handles) → IsCounted s → IsCounted (handle_free h s)
unfolding handle_free
handle_free-IsCounted h s v = elim (Bool-cases (ltb h max_handles && in_use s h)) [
  | inl ok ↦
      subst IsCounted (sym (handle_free-cleared h s (ground (arith, ok)) (ground (arith, ok))))
        (cleared-IsCounted h s (ground (arith, ok)) (ground (arith, ok)) v).0
  | inr bad ↦ rw bad v
]

handle_addref-IsCounted : (h : ℕ) (s : Handles) → IsCounted s → IsCounted (handle_addref h s)
unfolding handle_addref
handle_addref-IsCounted h s v =
    same_use s (handle_addref h s) (λ x. ground arith) (ground arith) (ground arith) v

handle_release-IsCounted : (h : ℕ) (s : Handles) → IsCounted s → IsCounted (handle_release h s)
unfolding handle_release
handle_release-IsCounted h s v =
    same_use s (handle_release h s) (λ x. ground arith) (ground arith) (ground arith) v

handle_alloc-null :
    (seg owner : ℕ) (s : Handles) → seg ≡ 0 → handle_alloc seg owner s ≡ (invalid_handle, s)
unfolding handle_alloc
handle_alloc-null seg owner s e = ground (arith, e)

handle_alloc-IsCounted :
    (seg owner : ℕ) (s : Handles) → IsCounted s → IsCounted (handle_alloc seg owner s).1
handle_alloc-IsCounted seg owner s v = elim (ℕ_discrete seg 0) [
  | yes e ↦ subst (λ r. IsCounted r.1) (sym (handle_alloc-null seg owner s e)) v
  | no nn ↦ elim (handle_alloc_lem seg owner s nn v) [
    | inl r ↦ r.7
    | inr r ↦ subst IsCounted (sym r.1) v
  ]
]

handle_dup-IsCounted :
    (h owner : ℕ) (refcnts : ℕ → ℕ) (s : Handles)
    → IsCounted s
    → IsCounted (handle_dup h owner refcnts s).2
unfolding handle_dup
handle_dup-IsCounted h owner refcnts s v =
    let v' = handle_alloc-IsCounted (s.handles h).seg owner s v in
    elim (Bool-cases (not (ltb h max_handles && (s.handles h).valid))) [
      | inl out ↦ rw out v
      | inr inside ↦
          elim (Bool-cases (
            (handle_alloc (s.handles h).seg owner s).0 == invalid_handle
            || (s.handles h).seg == 0)) [
              | inl failed ↦ rw (inside, failed) v'
              | inr made ↦ rw (inside, made) v'
            ]
    ]

-- The tables that the operations lead to from `handle_init`.
pub data Reached : Handles → Type 0 where
  begin : Reached handle_init
  allocated : (seg owner : ℕ) {s0 : Handles} → Reached s0 → Reached (handle_alloc seg owner s0).1
  freed : (h : ℕ) {s0 : Handles} → Reached s0 → Reached (handle_free h s0)
  referred : (h : ℕ) {s0 : Handles} → Reached s0 → Reached (handle_addref h s0)
  released : (h : ℕ) {s0 : Handles} → Reached s0 → Reached (handle_release h s0)
  duplicated :
      (h owner : ℕ) (refcnts : ℕ → ℕ) {s0 : Handles}
      → Reached s0
      → Reached (handle_dup h owner refcnts s0).2

handle_init-IsCounted : IsCounted handle_init
unfolding handle_init
handle_init-IsCounted = record {
  counted = sym (count_none max_handles (in_use handle_init) (λ h lt. refl));
  start = omega arith;
}

Reached-stays : (s : Handles) → Reached s → IsCounted s
Reached-stays s begin = handle_init-IsCounted
Reached-stays s (allocated seg owner {s0} r) =
    handle_alloc-IsCounted seg owner s0 (Reached-stays s0 r)
Reached-stays s (freed h {s0} r) = handle_free-IsCounted h s0 (Reached-stays s0 r)
Reached-stays s (referred h {s0} r) = handle_addref-IsCounted h s0 (Reached-stays s0 r)
Reached-stays s (released h {s0} r) = handle_release-IsCounted h s0 (Reached-stays s0 r)
Reached-stays s (duplicated h owner refcnts {s0} r) =
    handle_dup-IsCounted h owner refcnts s0 (Reached-stays s0 r)

-- Whatever operations were made, the counter is the number of handles in use, and what
-- `handle_get_free` answers is the number of the others.
pub Reached-IsCounted :
    (s : Handles)
    → Reached s
    → IsCounted s × (handle_get_free s + count max_handles (in_use s) ≡ max_handles)
unfolding handle_get_free
Reached-IsCounted s r =
    let v = Reached-stays s r in (v, omega (arith, v.counted, count-le max_handles (in_use s)))
