-- ===== src/Spm.antt =====
-- kernel/spm/spm.c: the security policy manager. Each table is the list of its entries in use, so
-- that `user_count` and `cap_count` are lengths; no call removes an entry. A `const char*` that may
-- be null is an Option. A result of 0 is `true`, and -1 is `false`.
pub mod Match
pub mod Check
pub mod Users
mod Tests
use grace_os.Prelude.{
  ℕ, ◌-◌, ◌^◌, bit_and, Bool, true, false, ◌&&◌, ◌||◌, not, Option, none, some, List, [], ◌∷◌, ◌++◌,
  leb, ◌==◌, if◌then◌else◌, length, get_or,
}
use grace_os.Text.{Text, same_text, same_start, copied}

pub record User : Type 0 where
  pub uid : ℕ
  pub name : Text
  pub password : Text
  pub active : Bool

pub record Capability : Type 0 where
  pub uid : ℕ
  pub perm : ℕ
  pub target : Text
  pub active : Bool

pub record Spm : Type 0 where
  pub users : List User
  pub caps : List Capability

abbrev pub max_users : ℕ
max_users = 64

abbrev pub max_caps : ℕ
max_caps = 256

abbrev pub perm_all : ℕ
perm_all = 0xff

-- `*` and `/`
abbrev pub star : ℕ
star = 42

abbrev pub slash : ℕ
slash = 47

-- The pattern ends in `/*`.
unfoldable pub is_directory : Text → Bool
is_directory p =
    leb 2 (length p) && get_or p (length p - 1) 0 == star && get_or p (length p - 2) 0 == slash

unfoldable pub target_matches : Text → Option Text → Bool
target_matches pattern none = false
target_matches pattern (some target) =
    let prefix_len = length pattern - 1 in
    if same_text pattern (star ∷ [])
    then true
    else if is_directory pattern
    then leb prefix_len (length target) && same_start prefix_len pattern target
    else same_text pattern target

-- `spm_find_user`: the first active entry of the user.
unfoldable pub find_user : ℕ → List User → Option User
find_user uid [] = none
find_user uid (u ∷ us) =
    let rest = find_user uid us in if u.active && u.uid == uid then some u else rest

unfoldable pub name_taken : Text → List User → Bool
name_taken name [] = false
name_taken name (u ∷ us) = u.active && same_text u.name name || name_taken name us

unfoldable pub spm_add_user : Spm → ℕ → Option Text → Bool × Spm
spm_add_user s uid none = (false, s)
spm_add_user s uid (some name) =
    let u : User = record { uid = uid; name = copied 63 name; password = []; active = true } in
    if length name == 0 || leb max_users (length s.users)
    then (false, s)
    else elim (find_user uid s.users) [
      | some v ↦ (false, s)
      | none ↦
          if name_taken name s.users
          then (false, s)
          else (true, record s { users = s.users ++ (u ∷ []) })
    ]

-- A write through the pointer that `spm_find_user` returns.
unfoldable pub change_user : ℕ → (User → User) → List User → List User
change_user uid f [] = []
change_user uid f (u ∷ us) =
    let rest = change_user uid f us in if u.active && u.uid == uid then f u ∷ us else u ∷ rest

unfoldable pub spm_set_password : Spm → ℕ → Option Text → Bool × Spm
spm_set_password s uid none = (false, s)
spm_set_password s uid (some password) = elim (find_user uid s.users) [
  | none ↦ (false, s)
  | some u ↦ (
    true,
    record s { users = change_user uid (λ u. record u { password = copied 63 password }) s.users },
  )
]

unfoldable pub spm_auth_user : Spm → ℕ → Option Text → Bool
spm_auth_user s uid none = false
spm_auth_user s uid (some password) = elim (find_user uid s.users) [
  | none ↦ false
  | some u ↦ same_text u.password password
]

unfoldable pub spm_grant_cap : Spm → ℕ → ℕ → Option Text → Bool × Spm
spm_grant_cap s uid perm none = (false, s)
spm_grant_cap s uid perm (some target) =
    let c : Capability = record {
      uid = uid;
      perm = perm;
      target = copied 255 target;
      active = true;
    } in
    if leb max_caps (length s.caps)
    then (false, s)
    else (true, record s { caps = s.caps ++ (c ∷ []) })

-- The bits `perm` cleared; an entry without bits is no longer active.
abbrev pub without : ℕ → Capability → Capability
without perm c =
    let left = bit_and c.perm (2 ^ 32 - 1 - perm) in
    record c { perm = left; active = c.active && not (left == 0) }

unfoldable pub revoke_first : ℕ → ℕ → Option Text → List Capability → Bool × List Capability
revoke_first uid perm target [] = (false, [])
revoke_first uid perm target (c ∷ cs) =
    let rest = revoke_first uid perm target cs in
    if c.active && c.uid == uid && target_matches c.target target
    then (true, without perm c ∷ cs)
    else (rest.0, c ∷ rest.1)

unfoldable pub spm_revoke_cap : Spm → ℕ → ℕ → Option Text → Bool × Spm
spm_revoke_cap s uid perm target =
    let r = revoke_first uid perm target s.caps in (r.0, record s { caps = r.1 })

-- The entry grants every bit of `perm` on the target.
abbrev pub grants : ℕ → ℕ → Option Text → Capability → Bool
grants uid perm target c =
    c.active && c.uid == uid && bit_and c.perm perm == perm && target_matches c.target target

unfoldable pub any_grants : ℕ → ℕ → Option Text → List Capability → Bool
any_grants uid perm target [] = false
any_grants uid perm target (c ∷ cs) =
    let rest = any_grants uid perm target cs in if grants uid perm target c then true else rest

unfoldable pub spm_check : Spm → ℕ → ℕ → Option Text → Bool
spm_check s uid perm target = uid == 0 || any_grants uid perm target s.caps

-- `root` is the text of the name "root".
abbrev pub root : Text
root = 114 ∷ 111 ∷ 111 ∷ 116 ∷ []

unfoldable pub spm_init : Spm
spm_init =
    let s = (spm_add_user (record { users = []; caps = [] }) 0 (some root)).1 in
    (spm_grant_cap s 0 perm_all (some (star ∷ []))).1
