-- ===== src/Proc/Table/Pids.antt =====
-- kernel/proc/table.c: `proc_alloc_pid` finds a free identifier whenever there is one.
use grace_os.Prelude.{
  ℕ, zero, suc, ◌+◌, ◌-◌, ◌≤◌, ◌<◌, ◌≡◌, refl, ◌≢◌, ◌⊎◌, inl, inr, arith, dec_lt, ℕ_discrete, ◌==◌,
  if◌then◌else◌, ==_iff, ==_ne, le→leb, lt→leb,
}
use grace_os.Proc.Kernel.{Kernel, null, max_proc, pid_invalid}
use grace_os.Proc.Table.{
  after_pid, took_pid, next_free, proc_alloc_pid, proc_table_add, proc_table_remove, proc_find,
}

-- The search stays in range, stops at a free number or at the limit, and passes over taken ones.
record Searched (n pid : ℕ) (table : ℕ → ℕ) (r : ℕ) : Type 0 where
  lower : pid ≤ r
  upper : r ≤ pid + n
  free : r < pid + n → table r ≡ null
  passed : (j : ℕ) → pid ≤ j → j < r → table j ≢ null

next_free-Searched : (n pid : ℕ) (table : ℕ → ℕ) → Searched n pid table (next_free n pid table)
unfolding next_free
next_free-Searched zero pid table = record {
  lower = omega arith;
  upper = omega arith;
  free = λ h. absurd (omega arith);
  passed = λ j a b. absurd (omega arith);
}
next_free-Searched (suc n) pid table = elim (ℕ_discrete (table pid) null) [
  | yes e ↦ rw ((==_iff (table pid) null).1 e) (record {
    lower = omega arith;
    upper = omega arith;
    free = λ h. e;
    passed = λ j a b. absurd (omega arith);
  })
  | no ne ↦
      let ih = next_free-Searched n (pid + 1) table in
      rw (==_ne (table pid) null ne) (record {
        lower = omega (arith, ih.lower);
        upper = omega (arith, ih.upper);
        free = λ h. ih.free (omega arith);
        passed = λ j a b. elim (ℕ_discrete j pid) [
          | yes e ↦ rw e ne
          | no ne' ↦ ih.passed j (omega arith) b
        ];
      })
]

-- The numbers handed out lie between 1 and 8191.
abbrev pub IsPid : ℕ → Type 0
IsPid pid = (0 < pid) × (pid < max_proc)

-- Either an identifier in range that was free, with the counter moved on in range; or none, nothing
-- changed, and every identifier taken.
abbrev pub PidOutcome : Kernel → ℕ × Kernel → Type 0
PidOutcome k (pid, k') =
    ((n : ℕ) × IsPid pid × (k.proc_table pid ≡ null) × IsPid n × (k' ≡ record k { next_pid = n }))
    ⊎ ((pid ≡ pid_invalid) × (k' ≡ k) × ((j : ℕ) → IsPid j → k.proc_table j ≢ null))

took_pid-PidOutcome :
    (k : Kernel) (pid : ℕ) → IsPid pid → k.proc_table pid ≡ null → PidOutcome k (took_pid k pid)
took_pid-PidOutcome k pid h free = inl (after_pid pid, h, free, ground arith, refl)

-- `proc_alloc_pid` hands out an identifier that is in range and free, and keeps its counter in
-- range; it fails, changing nothing, only when every identifier is taken.
pub proc_alloc_pid_lem : (k : Kernel) → IsPid k.next_pid → PidOutcome k (proc_alloc_pid k)
unfolding proc_alloc_pid
proc_alloc_pid_lem k v =
    let up = next_free-Searched (max_proc - k.next_pid) k.next_pid k.proc_table in
    let down = next_free-Searched (k.next_pid - 1) 1 k.proc_table in
    let pid = next_free (max_proc - k.next_pid) k.next_pid k.proc_table in
    let again = next_free (k.next_pid - 1) 1 k.proc_table in
    elim (dec_lt pid max_proc) [
      | yes h ↦
          rw (lt→leb max_proc pid h)
            (took_pid-PidOutcome k pid (omega (arith, up.lower), h) (up.free (omega arith)))
      | no h ↦ elim (dec_lt again k.next_pid) [
        | yes h' ↦
            rw (le→leb max_proc pid (omega arith), lt→leb k.next_pid again h')
              (took_pid-PidOutcome k again (omega (arith, down.lower), omega arith)
                (down.free (omega arith)))
        | no h' ↦
            rw (le→leb max_proc pid (omega arith), le→leb k.next_pid again (omega arith))
              (inr (
                refl,
                refl,
                λ j r. elim (dec_lt j k.next_pid) [
                  | yes lt ↦ down.passed j (omega arith) (omega arith)
                  | no ge ↦ up.passed j (omega arith) (omega arith)
                ],
              ))
      ]
    ]

-- A process that is entered is found under its identifier until it is removed, and the others are
-- not touched.
pub proc_find-add-remove :
    (k : Kernel) (p pid : ℕ)
    → p ≢ null
    → IsPid (k.mem p).pid
    → (proc_find (proc_table_add k p) pid ≡ (if (k.mem p).pid == pid then p else proc_find k pid))
      × (proc_find (proc_table_remove (proc_table_add k p) (k.mem p).pid) pid
          ≡ (if (k.mem p).pid == pid then null else proc_find k pid))
unfolding proc_find proc_table_add proc_table_remove
proc_find-add-remove k p pid nn v = ground arith
