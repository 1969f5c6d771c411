-- ===== src/Proc/Security.antt =====
-- kernel/proc/security.c: validation, capabilities and doas. The rules in use are a list; a rule's
-- command that begins with `*` is any command. A result of 0 is `true`, and -1 is `false`.
pub mod Privileges
mod Tests
use grace_os.Prelude.{
  ℕ, ◌-◌, ◌^◌, bit_and, bit_or, Bool, true, false, ◌&&◌, ◌||◌, not, Option, none, some, List, [],
  ◌∷◌, ◌++◌, leb, ◌==◌, if◌then◌else◌, length, get_or,
}
use grace_os.Text.{Text, same_text, copied}
use grace_os.Proc.Kernel.{new, blocked, Process, Kernel, null, with_process, is_state}
use grace_os.Proc.Queue.{sched_remove}
use grace_os.Proc.Life.{invalid_handle, cap_all}

-- `doas_rule_t`
pub record DoasRule : Type 0 where
  pub uid : ℕ
  pub target_uid : ℕ
  pub allowed_caps : ℕ
  pub nopass : ℕ
  pub cmd : Text

-- `(uid_t)-1`
abbrev pub any_uid : ℕ
any_uid = 0xffff

abbrev pub star : ℕ
star = 42

abbrev pub max_doas_rules : ℕ
max_doas_rules = 64

abbrev pub cap_setuid : ℕ
cap_setuid = 2

abbrev pub cap_admin : ℕ
cap_admin = 0x20

-- The bits of `mask` cleared in 32 bits.
abbrev pub cleared : ℕ → ℕ → ℕ
cleared x mask = bit_and x (2 ^ 32 - 1 - mask)

unfoldable pub has_segment : List ℕ → Bool
has_segment [] = false
has_segment (s ∷ ss) = not (s == invalid_handle) || has_segment ss

unfoldable pub proc_validate : Kernel → ℕ → Bool
proc_validate k p =
    let r = k.mem p in
    not (p == null)
    && (not (bit_and r.flags 1 == 0)
        || (not (r.pml4 == 0) && (has_segment r.segments || is_state r.state new)))

unfoldable pub proc_invalidate : Kernel → ℕ → Kernel
proc_invalidate k p =
    if p == null
    then k
    else sched_remove (with_process k p (λ r. record r { valid = false; state = blocked })) p

unfoldable pub proc_has_cap : Kernel → ℕ → ℕ → Bool
proc_has_cap k p cap =
    not (p == null) && ((k.mem p).euid == 0 || not (bit_and (k.mem p).caps cap == 0))

unfoldable pub proc_grant_cap : Kernel → ℕ → ℕ → Bool × Kernel
proc_grant_cap k p cap =
    if proc_has_cap k k.current cap_admin
    then (true, with_process k p (λ r. record r { caps = bit_or r.caps cap }))
    else (false, k)

unfoldable pub proc_revoke_cap : Kernel → ℕ → ℕ → Bool × Kernel
proc_revoke_cap k p cap =
    if proc_has_cap k k.current cap_admin
    then (true, with_process k p (λ r. record r { caps = cleared r.caps cap }))
    else (false, k)

-- The tests on one rule.
abbrev pub rule_matches : ℕ → ℕ → Text → DoasRule → Bool
rule_matches uid target cmd rule =
    (rule.uid == uid || rule.uid == any_uid)
    && (rule.target_uid == target || rule.target_uid == any_uid)
    && (get_or rule.cmd 0 0 == star || same_text rule.cmd cmd)

-- Whether the answer is `AUTH_OK`.
unfoldable pub doas_check_rules : List DoasRule → ℕ → ℕ → Text → Bool
doas_check_rules [] uid target cmd = false
doas_check_rules (rule ∷ rules) uid target cmd =
    let rest = doas_check_rules rules uid target cmd in
    if rule_matches uid target cmd rule then true else rest

abbrev pub flag_elevated : ℕ
flag_elevated = 4

-- The writes of a doas that is allowed.
abbrev pub elevated : ℕ → Process → Process
elevated target_uid r = record r {
  euid = target_uid;
  egid = 0;
  caps = if target_uid == 0 then cap_all else r.caps;
  flags = bit_or r.flags flag_elevated;
}

unfoldable pub doas_execute : List DoasRule → Kernel → ℕ → ℕ → Text → Bool × Kernel
doas_execute rules k p target_uid cmd =
    if p == null
    then (false, k)
    else if doas_check_rules rules (k.mem p).uid target_uid cmd
    then (true, with_process k p (elevated target_uid))
    else (false, proc_invalidate k p)

unfoldable pub proc_drop_privileges : Kernel → ℕ → Bool × Kernel
proc_drop_privileges k p = if p == null then (false, k) else (
  true,
  with_process k p (λ r. record r {
    euid = r.uid;
    egid = r.gid;
    flags = cleared r.flags flag_elevated;
    caps = 0;
  }),
)

unfoldable pub proc_setuid : Kernel → ℕ → ℕ → Bool × Kernel
proc_setuid k p uid =
    if not (p == null) && proc_has_cap k p cap_setuid
    then (true, with_process k p (λ r. record r { uid = uid; euid = uid }))
    else (false, k)

unfoldable pub proc_setgid : Kernel → ℕ → ℕ → Bool × Kernel
proc_setgid k p gid =
    if not (p == null) && proc_has_cap k p cap_setuid
    then (true, with_process k p (λ r. record r { gid = gid; egid = gid }))
    else (false, k)

unfoldable pub doas_add_rule : List DoasRule → ℕ → ℕ → Option Text → ℕ → Bool × List DoasRule
doas_add_rule rules uid target cmd nopass =
    let text : Text = elim cmd [ none ↦ star ∷ [] | some c ↦ copied 63 c ] in
    let rule : DoasRule = record {
      uid = uid;
      target_uid = target;
      allowed_caps = cap_all;
      nopass = nopass;
      cmd = text;
    } in
    if leb max_doas_rules (length rules) then (false, rules) else (true, rules ++ (rule ∷ []))

unfoldable pub security_init : List DoasRule
security_init = (doas_add_rule [] 0 any_uid none 1).1
