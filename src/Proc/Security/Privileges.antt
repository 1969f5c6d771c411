-- ===== src/Proc/Security/Privileges.antt =====
-- kernel/proc/security.c: who gains privileges, and how they are lost.
use grace_os.Prelude.{
  ℕ, zero, suc, bit_and, ◌≡◌, refl, sym, ◌∙◌, subst, ◌≢◌, ◌↔◌, ◌⊎◌, inl, inr, Bool, true, false,
  ◌||◌, some, List, [], ◌∷◌, ◌++◌, arith, ◌==◌, ==_ne, Bool-cases, get_elem?, get_or,
}
use grace_os.Text.{Text, same_text, same_text_eq, same_text_self}
use grace_os.Proc.Kernel.{blocked, Process, Kernel, null, with_process}
use grace_os.Proc.Queue.Refine.{IsQueue, IsQueue-agree}
use grace_os.Proc.Queue.Remove.{sched_remove-IsQueue, sched_remove-links_only, queued-ne-null}
use grace_os.Proc.Security.{
  DoasRule, any_uid, star, cap_admin, cap_setuid, proc_invalidate, proc_has_cap, proc_grant_cap,
  proc_revoke_cap, rule_matches, doas_check_rules, doas_execute, proc_drop_privileges, proc_setuid,
  proc_setgid, doas_add_rule, security_init,
}

-- The rule lets the user run the command as the target.
pub record Permits (uid target : ℕ) (cmd : Text) (rule : DoasRule) : Type 0 where
  pub user : (rule.uid ≡ uid) ⊎ (rule.uid ≡ any_uid)
  pub as_target : (rule.target_uid ≡ target) ⊎ (rule.target_uid ≡ any_uid)
  pub command : (get_or rule.cmd 0 0 ≡ star) ⊎ (rule.cmd ≡ cmd)

rule_matches-Permits :
    (uid target : ℕ) (cmd : Text) (rule : DoasRule)
    → rule_matches uid target cmd rule ≡ true
    → Permits uid target cmd rule
rule_matches-Permits uid target cmd rule h = record {
  user = ground arith;
  as_target = ground arith;
  command = ground (arith, same_text_eq rule.cmd cmd);
}

Permits-rule_matches :
    (uid target : ℕ) (cmd : Text) (rule : DoasRule)
    → Permits uid target cmd rule
    → rule_matches uid target cmd rule ≡ true
Permits-rule_matches uid target cmd rule p =
    let same : rule.cmd ≡ cmd → same_text rule.cmd cmd ≡ true =
      λ e. subst (λ c. same_text rule.cmd c ≡ true) e (same_text_self rule.cmd) in
    let command : (get_or rule.cmd 0 0 == star || same_text rule.cmd cmd) ≡ true = elim p.command [
      | inl e ↦ ground (arith, e)
      | inr e ↦ ground (arith, same e)
    ] in
    ground (arith, p.user, p.as_target, command)

-- Some rule permits it.
abbrev pub SomePermits : List DoasRule → ℕ → ℕ → Text → Type 0
SomePermits rules uid target cmd =
    (i : ℕ) × (rule : DoasRule) × (get_elem? rules i ≡ some rule) × Permits uid target cmd rule

doas_check_rules-SomePermits :
    (rules : List DoasRule) (uid target : ℕ) (cmd : Text)
    → doas_check_rules rules uid target cmd ≡ true
    → SomePermits rules uid target cmd
unfolding doas_check_rules
doas_check_rules-SomePermits [] uid target cmd h = cc
doas_check_rules-SomePermits (r ∷ rules) uid target cmd h =
    elim (Bool-cases (rule_matches uid target cmd r)) [
      | inl m ↦ (0, r, refl, rule_matches-Permits uid target cmd r m)
      | inr m ↦
          let (i, rule, e, p) =
            doas_check_rules-SomePermits rules uid target cmd (ground (arith, m, h)) in
          (suc i, rule, e, p)
    ]

SomePermits-doas_check_rules :
    (rules : List DoasRule) (uid target : ℕ) (cmd : Text) (i : ℕ) (rule : DoasRule)
    → get_elem? rules i ≡ some rule
    → Permits uid target cmd rule
    → doas_check_rules rules uid target cmd ≡ true
unfolding doas_check_rules
SomePermits-doas_check_rules [] uid target cmd i rule e p = cc
SomePermits-doas_check_rules (r ∷ rules) uid target cmd zero rule e p =
    let same : r ≡ rule = cc in
    let m = Permits-rule_matches uid target cmd r (subst (Permits uid target cmd) (sym same) p) in
    rw m refl
SomePermits-doas_check_rules (r ∷ rules) uid target cmd (suc i) rule e p =
    let ih = SomePermits-doas_check_rules rules uid target cmd i rule e p in ground (arith, ih)

-- `doas_check_rules` answers `AUTH_OK` exactly if some rule permits the command to the user.
pub doas_check_rules_lem :
    (rules : List DoasRule) (uid target : ℕ) (cmd : Text)
    → (doas_check_rules rules uid target cmd ≡ true) ↔ SomePermits rules uid target cmd
doas_check_rules_lem rules uid target cmd = (
  doas_check_rules-SomePermits rules uid target cmd,
  λ (i, rule, e, p). SomePermits-doas_check_rules rules uid target cmd i rule e p,
)

-- With the rules that `security_init` sets up, doas is allowed to user 0 and to no one else.
pub security_init_lem :
    (uid target : ℕ) (cmd : Text) → doas_check_rules security_init uid target cmd ≡ (uid == 0)
unfolding doas_check_rules security_init doas_add_rule
security_init_lem uid target cmd = ground arith

-- The credentials by which access is decided.
abbrev pub SameRights : Process → Process → Type 0
SameRights r r' =
    (r'.uid ≡ r.uid)
    × (r'.euid ≡ r.euid)
    × (r'.gid ≡ r.gid)
    × (r'.egid ≡ r.egid)
    × (r'.caps ≡ r.caps)

-- The state in which a denied process leaves the queue.
abbrev refused : Kernel → ℕ → Kernel
refused k p = with_process k p (λ r. record r { valid = false; state = blocked })

-- A doas that no rule permits fails: the process, which is queued, leaves the run queue blocked and
-- invalid, and no process gains or loses rights.
pub doas_execute-denied :
    (rules : List DoasRule) (k : Kernel) (xs ys : List ℕ) (p target : ℕ) (cmd : Text)
    → IsQueue k (xs ++ (p ∷ ys))
    → doas_check_rules rules (k.mem p).uid target cmd ≡ false
    → let r = doas_execute rules k p target cmd in
      (r.0 ≡ false)
      × IsQueue r.1 (xs ++ ys)
      × ((r.1.mem p).state ≡ blocked)
      × ((r.1.mem p).valid ≡ false)
      × ((y : ℕ) → SameRights (k.mem y) (r.1.mem y))
unfolding doas_execute proc_invalidate
doas_execute-denied rules k xs ys p target cmd q denied =
    let nn = queued-ne-null k xs ys p q in
    let q' : IsQueue (refused k p) (xs ++ (p ∷ ys)) =
      IsQueue-agree k (refused k p) _ refl refl (λ y. ground arith) q in
    let links = sched_remove-links_only (refused k p) p in
    rw (==_ne p null nn, denied)
      (
        refl,
        sched_remove-IsQueue (refused k p) xs ys p q',
        ground (arith, links p),
        ground (arith, links p),
        λ y. ground (arith, links y),
      )

-- A doas that is permitted gives the process the target's identity, and `proc_drop_privileges` then
-- gives its own back, without any capability; other processes are not touched.
pub drop-doas_execute :
    (rules : List DoasRule) (k : Kernel) (p target y : ℕ) (cmd : Text)
    → p ≢ null
    → doas_check_rules rules (k.mem p).uid target cmd ≡ true
    → let during = (doas_execute rules k p target cmd).1 in
      let after = (proc_drop_privileges during p).1 in
      ((during.mem p).euid ≡ target)
      × ((during.mem p).uid ≡ (k.mem p).uid)
      × ((after.mem p).euid ≡ (k.mem p).uid)
      × ((after.mem p).egid ≡ (k.mem p).gid)
      × ((after.mem p).caps ≡ 0)
      × (y ≢ p → after.mem y ≡ k.mem y)
unfolding doas_execute proc_drop_privileges
drop-doas_execute rules k p target y cmd nn allowed = ground (arith, allowed)

-- The calls by which rights are changed without doas, each for any process.
pub data Call : Type 0 where
  grant : ℕ → ℕ → Call
  revoke : ℕ → ℕ → Call
  set_uid : ℕ → ℕ → Call
  set_gid : ℕ → ℕ → Call

unfoldable pub request : Kernel → Call → Bool × Kernel
request k (grant p cap) = proc_grant_cap k p cap
request k (revoke p cap) = proc_revoke_cap k p cap
request k (set_uid p uid) = proc_setuid k p uid
request k (set_gid p gid) = proc_setgid k p gid

-- The calls that processes make in turn, each with the process that is current when it is made.
unfoldable pub requests : Kernel → List (ℕ × Call) → Kernel
requests k [] = k
requests k ((caller, c) ∷ cs) = requests (request (record k { current = caller }) c).1 cs

-- Not root, and without the capabilities that the calls ask for.
abbrev pub IsUnprivileged : Process → Type 0
IsUnprivileged r = (r.euid ≢ 0) × (bit_and r.caps cap_admin ≡ 0) × (bit_and r.caps cap_setuid ≡ 0)

abbrev pub AllUnprivileged : Kernel → List (ℕ × Call) → Type 0
AllUnprivileged k [] = Unit
AllUnprivileged k ((caller, c) ∷ cs) = IsUnprivileged (k.mem caller) × AllUnprivileged k cs

-- A call of an unprivileged process leaves every unprivileged process as it was.
request-unprivileged :
    (k : Kernel) (c : Call) (y : ℕ)
    → IsUnprivileged (k.mem k.current)
    → IsUnprivileged (k.mem y)
    → (request k c).1.mem y ≡ k.mem y
unfolding request proc_grant_cap proc_revoke_cap proc_setuid proc_setgid proc_has_cap
request-unprivileged k (grant p cap) y by of = ground (arith, by.0, by.1)
request-unprivileged k (revoke p cap) y by of = ground (arith, by.0, by.1)
request-unprivileged k (set_uid p uid) y by of = ground (arith, of.0, of.2)
request-unprivileged k (set_gid p gid) y by of = ground (arith, of.0, of.2)

AllUnprivileged-agree :
    (k k' : Kernel) (cs : List (ℕ × Call))
    → ((y : ℕ) → IsUnprivileged (k.mem y) → k'.mem y ≡ k.mem y)
    → AllUnprivileged k cs
    → AllUnprivileged k' cs
AllUnprivileged-agree k k' [] same all = all
AllUnprivileged-agree k k' ((caller, c) ∷ cs) same (by, all) =
    (subst IsUnprivileged (sym (same caller by)) by, AllUnprivileged-agree k k' cs same all)

-- Processes that are not root and hold neither `CAP_ADMIN` nor `CAP_SETUID` can make any calls that grant
-- or revoke capabilities or set identities, for any processes and in any order: every process that is
-- not privileged either, the callers included, is as it was.
pub requests-unprivileged :
    (k : Kernel) (cs : List (ℕ × Call)) (y : ℕ)
    → AllUnprivileged k cs
    → IsUnprivileged (k.mem y)
    → (requests k cs).mem y ≡ k.mem y
unfolding requests
requests-unprivileged k [] y all of = refl
requests-unprivileged k ((caller, c) ∷ cs) y (by, all) of =
    let k' = (request (record k { current = caller }) c).1 in
    let same = request-unprivileged (record k { current = caller }) c in
    requests-unprivileged k' cs y (AllUnprivileged-agree k k' cs (λ z u. same z by u) all)
      (subst IsUnprivileged (sym (same y by of)) of)
    ∙ same y by of
