-- ===== src/Proc/Security/Tests.antt =====
-- Runs of kernel/proc/security.c: process 3 of the small kernel, with the default rule, or with one
-- that lets user 9 become user 5.
use grace_os.Prelude.{ℕ, ◌≡◌, refl, true, false, List, [], ◌∷◌, arith}
use grace_os.Text.{Text}
use grace_os.Proc.Kernel.{blocked, Kernel, with_process}
use grace_os.Proc.Small.{three_queued, three_queued-IsQueue}
use grace_os.Proc.Queue.Refine.{IsQueue, IsQueue-agree}
use grace_os.Proc.Security.{DoasRule, star, security_init, doas_check_rules, doas_execute}
use grace_os.Proc.Security.Privileges.{
  SameRights, Call, grant, set_uid, requests, IsUnprivileged, security_init_lem,
  doas_execute-denied, requests-unprivileged,
}

abbrev ls : Text
ls = 108 ∷ 115 ∷ []

-- Processes 2 and 3 belong to user 9.
abbrev user_nine : Kernel
user_nine =
    with_process (with_process three_queued 3 (λ r. record r { uid = 9; euid = 9 })) 2
      (λ r. record r { uid = 9; euid = 9 })

user_nine-IsQueue : IsQueue user_nine (2 ∷ 3 ∷ 4 ∷ [])
user_nine-IsQueue =
    IsQueue-agree three_queued user_nine _ refl refl (λ y. ground arith) three_queued-IsQueue

abbrev nine_to_five : List DoasRule
nine_to_five =
    record { uid = 9; target_uid = 5; allowed_caps = 0; nopass = 0; cmd = star ∷ [] } ∷ []

not_allowed : doas_check_rules security_init 9 0 ls ≡ false
not_allowed = security_init_lem 9 0 ls

allowed : doas_check_rules nine_to_five 9 5 ls ≡ true
unfolding doas_check_rules
allowed = refl

doas_execute-denied_example :
    let r = doas_execute security_init user_nine 3 0 ls in
    (r.0 ≡ false)
    × IsQueue r.1 (2 ∷ 4 ∷ [])
    × ((r.1.mem 3).state ≡ blocked)
    × ((r.1.mem 3).valid ≡ false)
    × ((y : ℕ) → SameRights (user_nine.mem y) (r.1.mem y))
doas_execute-denied_example =
    doas_execute-denied security_init user_nine (2 ∷ []) (4 ∷ []) 3 0 ls user_nine-IsQueue
      not_allowed

-- Each of the two asks for the other's rights, and for root's identity.
abbrev asked : List (ℕ × Call)
asked = (2, grant 3 1) ∷ (3, set_uid 2 0) ∷ (2, set_uid 4 9) ∷ []

without_rights : IsUnprivileged (user_nine.mem 2) × IsUnprivileged (user_nine.mem 3)
without_rights = ((omega arith, refl, refl), (omega arith, refl, refl))

requests-unprivileged_example : (requests user_nine asked).mem 3 ≡ user_nine.mem 3
requests-unprivileged_example =
    requests-unprivileged user_nine asked 3
      (without_rights.0, (without_rights.1, (without_rights.0, tt))) without_rights.1
