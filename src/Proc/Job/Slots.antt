-- ===== src/Proc/Job/Slots.antt =====
-- kernel/proc/job.c: job numbers, and the slots that they lead to.
use grace_os.Prelude.{
  ℕ, zero, suc, ◌+◌, ◌≤◌, ◌<◌, ◌≡◌, refl, sym, ap, ◌∙◌, subst, ◌≢◌, ◌⊎◌, inl, inr, Bool, true,
  false, ◌&&◌, not, Option, none, some, arith, ℕ_discrete, ◌==◌, if◌then◌else◌, Bool-cases,
  Option-cases, put, put_ne,
}
use grace_os.Text.{Text}
use grace_os.Proc.Job.{
  Job, Jobs, max_jobs, no_job, first_slot, put_job, job_create, job_find_by_csid, job_find_by_num,
  job_remove,
}

-- The first slot that passes is found, and only if none does, none is.
first_slot-some :
    (test : Job → Bool) (n i : ℕ) (js : Jobs) (s : ℕ)
    → first_slot test n i js ≡ some s
    → (i ≤ s) × (s < i + n) × (test (js.jobs s) ≡ true)
unfolding first_slot
first_slot-some test zero i js s h = absurd (ground arith)
first_slot-some test (suc n) i js s h = elim (Bool-cases (test (js.jobs i))) [
  | inl ok ↦
      let is : i ≡ s = ground (arith, h, ok) in
      (omega arith, omega arith, subst (λ x. test (js.jobs x) ≡ true) is ok)
  | inr bad ↦
      let (lo, hi, ok) = first_slot-some test n (i + 1) js s (ground (arith, h, bad)) in
      (omega arith, omega arith, ok)
]

-- A slot that is the only one to pass is found.
first_slot-only :
    (test : Job → Bool) (n i : ℕ) (js : Jobs) (s : ℕ)
    → i ≤ s
    → s < i + n
    → test (js.jobs s) ≡ true
    → ((x : ℕ) → x ≢ s → i ≤ x → x < i + n → test (js.jobs x) ≡ false)
    → first_slot test n i js ≡ some s
unfolding first_slot
first_slot-only test zero i js s lo hi ok others = absurd (omega arith)
first_slot-only test (suc n) i js s lo hi ok others = elim (ℕ_discrete i s) [
  | yes e ↦
      ap (λ t. if t then some i else first_slot test n (i + 1) js)
        (ap (λ x. test (js.jobs x)) e ∙ ok)
      ∙ ap some e
  | no ne ↦
      ap (λ t. if t then some i else first_slot test n (i + 1) js)
        (others i ne (omega arith) (omega arith))
      ∙ first_slot-only test n (i + 1) js s (omega arith) (omega arith) ok
          (λ x ne' lo' hi'. others x ne' (omega arith) (omega arith))
]

-- The numbers of the jobs in use differ, and the next one is greater.
pub record IsNumbered (js : Jobs) : Type 0 where
  pub below : (i : ℕ) → i < max_jobs → (js.jobs i).csid ≢ 0 → (js.jobs i).job_num < js.next_job_num
  pub apart :
      (i j : ℕ)
      → i < max_jobs
      → j < max_jobs
      → (js.jobs i).csid ≢ 0
      → (js.jobs j).csid ≢ 0
      → (js.jobs i).job_num ≡ (js.jobs j).job_num
      → i ≡ j

put_job-IsNumbered :
    (js : Jobs) (slot csid leader : ℕ) (cmd : Option Text)
    → slot < max_jobs
    → IsNumbered js
    → IsNumbered (put_job js slot csid leader cmd)
put_job-IsNumbered js slot csid leader cmd lt v = record {
  below = λ i hi used. elim (ℕ_discrete slot i) [
    | yes e ↦ ground (arith, e)
    | no ne ↦
        let old = put_ne js.jobs slot i ((put_job js slot csid leader cmd).jobs slot) ne in
        ground (arith, v.below i hi, ne, used)
  ];
  apart = λ i j hi hj ui uj e. elim (ℕ_discrete slot i) [
    | yes ei ↦ elim (ℕ_discrete slot j) [
      | yes ej ↦ omega arith
      | no nj ↦ absurd (ground (arith, v.below j hj, ei, nj, uj, e))
    ]
    | no ni ↦ elim (ℕ_discrete slot j) [
      | yes ej ↦ absurd (ground (arith, v.below i hi, ej, ni, ui, e))
      | no nj ↦
          v.apart i j hi hj (ground (arith, ni, ui)) (ground (arith, nj, uj))
            (ground (arith, ni, nj, e))
    ]
  ];
}

first_slot-none :
    (test : Job → Bool) (n i : ℕ) (js : Jobs) (x : ℕ)
    → first_slot test n i js ≡ none
    → i ≤ x
    → x < i + n
    → test (js.jobs x) ≡ false
unfolding first_slot
first_slot-none test zero i js x h lo hi = absurd (omega arith)
first_slot-none test (suc n) i js x h lo hi = elim (Bool-cases (test (js.jobs i))) [
  | inl ok ↦ absurd (ground (arith, h, ok))
  | inr bad ↦ elim (ℕ_discrete i x) [
    | yes e ↦ subst (λ y. test (js.jobs y) ≡ false) e bad
    | no ne ↦
        first_slot-none test n (i + 1) js x (ground (arith, h, bad)) (omega arith) (omega arith)
  ]
]

put_job-other :
    (js : Jobs) (slot csid leader : ℕ) (cmd : Option Text) (x : ℕ)
    → x ≢ slot
    → (put_job js slot csid leader cmd).jobs x ≡ js.jobs x
put_job-other js slot csid leader cmd x ne = ground arith

-- The new job is found by its number, and by no other slot.
put_job-found :
    (js : Jobs) (slot csid leader : ℕ) (cmd : Option Text)
    → slot < max_jobs
    → csid ≢ 0
    → IsNumbered js
    → job_find_by_num (put_job js slot csid leader cmd) js.next_job_num ≡ some slot
unfolding job_find_by_num
put_job-found js slot csid leader cmd lt nn v =
    let js' = put_job js slot csid leader cmd in
    first_slot-only (λ j. j.job_num == js.next_job_num && not (j.csid == 0)) max_jobs 0 js' slot
      (omega arith) lt (ground (arith, nn))
      (λ x ne lo hi.
        ap (λ (j : Job). j.job_num == js.next_job_num && not (j.csid == 0))
          (put_job-other js slot csid leader cmd x ne)
        ∙ ground (arith, v.below x hi))

-- A full table, and no change; or a free slot in use for the job, the others as they were.
abbrev pub CreateOutcome : Jobs → ℕ → Option ℕ × Jobs → Type 0
CreateOutcome js csid (r, js') =
    ((r ≡ none) × (js' ≡ js) × ((i : ℕ) → i < max_jobs → (js.jobs i).csid ≢ 0))
    ⊎ ((slot : ℕ) × (slot < max_jobs)
        × ((js.jobs slot).csid ≡ 0)
        × (r ≡ some js.next_job_num)
        × (job_find_by_num js' js.next_job_num ≡ some slot)
        × ((js'.jobs slot).csid ≡ csid)
        × ((i : ℕ) → i ≢ slot → js'.jobs i ≡ js.jobs i)
        × IsNumbered js')

job_create-put :
    (js : Jobs) (csid leader : ℕ) (cmd : Option Text) (slot : ℕ)
    → first_slot (λ j. j.csid == 0) max_jobs 0 js ≡ some slot
    → job_create js csid leader cmd ≡ (some js.next_job_num, put_job js slot csid leader cmd)
unfolding job_create
job_create-put js csid leader cmd slot e = ground (arith, e)

job_create-full :
    (js : Jobs) (csid leader : ℕ) (cmd : Option Text)
    → first_slot (λ j. j.csid == 0) max_jobs 0 js ≡ none
    → job_create js csid leader cmd ≡ (none, js)
unfolding job_create
job_create-full js csid leader cmd e = ground (arith, e)

-- With job numbers that differ, `job_create` takes a free slot, in which the job is found by the
-- number returned, changes no other slot, and the numbers still differ; it fails, changing nothing,
-- only when all 64 slots are in use.
pub job_create_lem :
    (js : Jobs) (csid leader : ℕ) (cmd : Option Text)
    → csid ≢ 0
    → IsNumbered js
    → CreateOutcome js csid (job_create js csid leader cmd)
job_create_lem js csid leader cmd nn v =
    elim (Option-cases (first_slot (λ j. j.csid == 0) max_jobs 0 js)) [
      | inl e ↦ subst (CreateOutcome js csid) (sym (job_create-full js csid leader cmd e)) (
          inl (
            refl,
            refl,
            λ i hi. ground (
              arith,
              first_slot-none (λ j. j.csid == 0) max_jobs 0 js i e (omega arith) (omega arith),
            ),
          ))
      | inr (slot, e) ↦
          let (lo, lt, free) = first_slot-some (λ j. j.csid == 0) max_jobs 0 js slot e in
          let at_slot : slot < max_jobs = omega arith in
          subst (CreateOutcome js csid) (sym (job_create-put js csid leader cmd slot e)) (
            inr (
              slot,
              at_slot,
              ground (arith, free),
              refl,
              put_job-found js slot csid leader cmd at_slot nn v,
              ground arith,
              λ i ne. put_ne js.jobs slot i _ (λ same. ne (sym same)),
              put_job-IsNumbered js slot csid leader cmd at_slot v,
            ))
    ]

-- Removing a job keeps the numbers apart.
pub job_remove-IsNumbered : (js : Jobs) (csid : ℕ) → IsNumbered js → IsNumbered (job_remove js csid)
unfolding job_remove
job_remove-IsNumbered js csid v = go (job_find_by_csid js csid)
  where
    cleared : (slot : ℕ) → IsNumbered (record js { jobs = put js.jobs slot no_job })
    cleared slot = record {
      below = λ i hi used. elim (ℕ_discrete slot i) [
        | yes e ↦ absurd (ground (arith, e, used))
        | no ne ↦ ground (arith, v.below i hi, ne, used)
      ];
      apart = λ i j hi hj ui uj e. elim (ℕ_discrete slot i) [
        | yes ei ↦ absurd (ground (arith, ei, ui))
        | no ni ↦ elim (ℕ_discrete slot j) [
          | yes ej ↦ absurd (ground (arith, ej, uj))
          | no nj ↦
              v.apart i j hi hj (ground (arith, ni, ui)) (ground (arith, nj, uj))
                (ground (arith, ni, nj, e))
        ]
      ];
    }

    go :
        (o : Option ℕ)
        → IsNumbered
            (elim o [ none ↦ js | some slot ↦ record js { jobs = put js.jobs slot no_job } ])
    go none = v
    go (some slot) = cleared slot
