-- ===== src/Spm/Tests.antt =====
-- Runs of kernel/spm/spm.c from the state that `spm_init` leaves.
use grace_os.Prelude.{
  ℕ, ◌≡◌, refl, ◌≢◌, ◌↔◌, ◌⊎◌, true, false, none, some, [], ◌∷◌, arith, get_elem?, replicate,
}
use grace_os.Text.{Text, same_text, same_start}
use grace_os.Spm.{
  User, Capability, Spm, star, target_matches, find_user, spm_init, spm_add_user, spm_grant_cap,
  spm_revoke_cap, spm_check, any_grants, is_directory, name_taken,
}
use grace_os.Spm.Check.{Grants, spm_check_lem, spm_revoke_cap-shadowed}
use grace_os.Spm.Users.{Unique}

-- "/d", "/d/*" and "/d/e"
abbrev device : Text
device = 47 ∷ 100 ∷ []

abbrev devices : Text
devices = 47 ∷ 100 ∷ 47 ∷ 42 ∷ []

abbrev disk : Text
disk = 47 ∷ 100 ∷ 47 ∷ 101 ∷ []

abbrev root_user : User
root_user = record { uid = 0; name = 114 ∷ 111 ∷ 111 ∷ 116 ∷ []; password = []; active = true }

abbrev booted : Spm
booted = record {
  users = root_user ∷ [];
  caps = record { uid = 0; perm = 0xff; target = star ∷ []; active = true } ∷ [];
}

spm_init-booted : spm_init ≡ booted
unfolding spm_init spm_add_user spm_grant_cap find_user name_taken
spm_init-booted = refl

-- User 7 may read below /d, and write and read /d/e.
abbrev reading : Capability
reading = record { uid = 7; perm = 1; target = devices; active = true }

abbrev writing : Capability
writing = record { uid = 7; perm = 3; target = disk; active = true }

abbrev two_grants : Spm
two_grants = record { users = root_user ∷ []; caps = reading ∷ writing ∷ [] }

spm_check_lem_example : (spm_check two_grants 7 2 (some disk) ≡ true) ↔ (
    (◌≡◌ {A = ℕ} 7 0)
    ⊎ ((i : ℕ) × (c : Capability) × (get_elem? (two_grants.caps) i ≡ some c) × Grants 7 2 disk c))
spm_check_lem_example = spm_check_lem two_grants 7 2 disk

shadow : any_grants 7 1 (some disk) (writing ∷ []) ≡ true
unfolding any_grants target_matches is_directory same_text same_start
shadow = refl

covering : target_matches devices (some disk) ≡ true
unfolding target_matches is_directory same_text same_start
covering = refl

spm_revoke_cap-shadowed_example :
    ((spm_revoke_cap two_grants 7 1 (some disk)).0 ≡ true)
    × (spm_check (spm_revoke_cap two_grants 7 1 (some disk)).1 7 1 (some disk) ≡ true)
spm_revoke_cap-shadowed_example =
    spm_revoke_cap-shadowed two_grants reading (writing ∷ []) 7 1 (some disk) refl refl refl
      covering shadow

booted-Unique : Unique booted.users
unfolding find_user name_taken
booted-Unique = (refl, refl, refl, tt)

abbrev long_name : Text
long_name = replicate 64 65

unknown : (uid : ℕ) → uid ≢ 0 → find_user uid booted.users ≡ none
unfolding find_user
unknown uid ne = ground arith

untaken : name_taken long_name booted.users ≡ false
unfolding name_taken same_text
untaken = refl
