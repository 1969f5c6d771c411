-- ===== src/Spm/Users.antt =====
-- kernel/spm/spm.c: the table of users.
use grace_os.Prelude.{
  ℕ, zero, suc, ◌+◌, ◌≤◌, ◌<◌, ◌≡◌, refl, sym, ap, ◌∙◌, subst, ◌≢◌, inl, inr, true, false, ◌&&◌,
  ◌||◌, none, some, List, [], ◌∷◌, ◌++◌, arith, leb, ◌==◌, ==_ne, Bool-cases, Option-cases, length,
  get_elem?, length-append, take, length-take, lt→leb,
}
use mathlib.Core.Option
use grace_os.Text.{Text, same_text, same_text_self, same_text_eq, copied}
use grace_os.Spm.{
  User, Spm, max_users, find_user, name_taken, change_user, spm_add_user, spm_set_password,
  spm_auth_user,
}

-- No two active users share an identifier or a name.
abbrev pub Unique : List User → Type 0
Unique [] = Unit {0}
Unique (u ∷ us) =
    (u.active ≡ true) × (find_user u.uid us ≡ none) × (name_taken u.name us ≡ false) × Unique us

find_user-snoc :
    (uid : ℕ) (us : List User) (u : User)
    → find_user uid us ≡ none
    → u.uid ≢ uid
    → find_user uid (us ++ (u ∷ [])) ≡ none
unfolding find_user
find_user-snoc uid [] u h ne = ground arith
find_user-snoc uid (x ∷ us) u h ne = ground (arith, find_user-snoc uid us u)

name_taken-snoc :
    (name : Text) (us : List User) (u : User)
    → name_taken name us ≡ false
    → same_text u.name name ≡ false
    → name_taken name (us ++ (u ∷ [])) ≡ false
unfolding name_taken
name_taken-snoc name [] u h ne = ground (arith, ne)
name_taken-snoc name (x ∷ us) u h ne = ground (arith, name_taken-snoc name us u, h, ne)

same_text_sym : (a b : Text) → same_text a b ≡ false → same_text b a ≡ false
same_text_sym a b h = elim (Bool-cases (same_text b a)) [
  | inr e ↦ e
  | inl e ↦
      let eq = same_text_eq b a e in
      absurd (cc (subst (λ z. same_text a z ≡ true) (sym eq) (same_text_self a), h))
]

Unique-snoc :
    (us : List User) (u : User)
    → Unique us
    → u.active ≡ true
    → find_user u.uid us ≡ none
    → name_taken u.name us ≡ false
    → Unique (us ++ (u ∷ []))
unfolding find_user name_taken
Unique-snoc [] u v on no_uid no_name = (on, refl, refl, tt)
Unique-snoc (x ∷ us) u v on no_uid no_name =
    let ne : u.uid ≢ x.uid = λ e. ground (arith, v.0, no_uid, e) in
    let fresh : find_user u.uid us ≡ none = ground (arith, v.0, no_uid) in
    let other : same_text x.name u.name ≡ false = ground (arith, v.0, no_name) in
    let free : name_taken u.name us ≡ false = ground (arith, v.0, no_name) in
    (
      v.0,
      find_user-snoc x.uid us u v.1 ne,
      name_taken-snoc x.name us u v.2 (same_text_sym x.name u.name other),
      Unique-snoc us u v.3 on fresh free,
    )

take-short : (n : ℕ) (xs : Text) → length xs ≤ n → take n xs ≡ xs
take-short zero [] h = refl
take-short zero (x ∷ xs) h = absurd (omega arith)
take-short (suc n) [] h = refl
take-short (suc n) (x ∷ xs) h = ap (◌∷◌ x) (take-short n xs (omega arith))

-- Adding a user keeps identifiers and names unique, on success and on every failure, for a name of
-- at most 63 bytes, which is stored whole.
pub spm_add_user-Unique :
    (s : Spm) (uid : ℕ) (name : Text)
    → length name ≤ 63
    → Unique s.users
    → Unique (spm_add_user s uid (some name)).1.users
unfolding spm_add_user
spm_add_user-Unique s uid name fits v =
    elim (Bool-cases (length name == 0 || leb max_users (length s.users))) [
      | inl e ↦ rw e v
      | inr e ↦ elim (Option-cases (find_user uid s.users)) [
        | inr (u, found) ↦ rw (e, found) v
        | inl fresh ↦ elim (Bool-cases (name_taken name s.users)) [
          | inl taken ↦ rw (e, fresh, taken) v
          | inr free ↦
              rw (e, fresh, free)
                (Unique-snoc s.users _ v refl fresh
                  (subst (λ n. name_taken n s.users ≡ false) (sym (take-short 63 name fits)) free))
        ]
      ]
    ]

-- The new entry, and the table with it.
abbrev entry : ℕ → Text → User
entry uid name = record { uid = uid; name = copied 63 name; password = []; active = true }

abbrev added : Spm → ℕ → Text → Spm
added s uid name = record s { users = s.users ++ (entry uid name ∷ []) }

at_end :
    (us : List User) (u v : User)
    → (get_elem? ((us ++ (u ∷ [])) ++ (v ∷ [])) (length us) ≡ some u)
      × (get_elem? ((us ++ (u ∷ [])) ++ (v ∷ [])) (suc (length us)) ≡ some v)
at_end [] u v = (refl, refl)
at_end (x ∷ us) u v = at_end us u v

spm_add_user-added :
    (s : Spm) (uid : ℕ) (name : Text)
    → 0 < length name
    → length s.users < max_users
    → find_user uid s.users ≡ none
    → name_taken name s.users ≡ false
    → spm_add_user s uid (some name) ≡ (true, added s uid name)
unfolding spm_add_user
spm_add_user-added s uid name some_bytes room fresh free =
    rw (==_ne (length name) 0 (omega arith), lt→leb max_users (length s.users) room, fresh, free)
      refl

long_ne : (name : Text) → 63 < length name → same_text (copied 63 name) name ≡ false
long_ne name long = elim (Bool-cases (same_text (copied 63 name) name)) [
  | inr e ↦ e
  | inl e ↦
      let eq = ap length (same_text_eq (copied 63 name) name e) in
      absurd (omega (arith, eq, length-take 63 name))
]

-- A name of more than 63 bytes that one user could take is taken by a second user as well: it is
-- compared whole with names that were cut, so both entries hold the same name.
pub spm_add_user-twice :
    (s : Spm) (uid uid' : ℕ) (name : Text)
    → 63 < length name
    → length s.users + 1 < max_users
    → uid ≢ uid'
    → find_user uid s.users ≡ none
    → find_user uid' s.users ≡ none
    → name_taken name s.users ≡ false
    → let first = spm_add_user s uid (some name) in
      let second = spm_add_user first.1 uid' (some name) in
      (first.0 ≡ true)
      × (second.0 ≡ true)
      × (Option.map (λ (u : User). u.name) (get_elem? second.1.users (length s.users))
          ≡ some (copied 63 name))
      × (Option.map (λ (u : User). u.name) (get_elem? second.1.users (suc (length s.users)))
          ≡ some (copied 63 name))
spm_add_user-twice s uid uid' name long room ne fresh fresh' free =
    let one = spm_add_user-added s uid name (omega arith) (omega arith) fresh free in
    let two =
      spm_add_user-added (added s uid name) uid' name (omega arith)
        (rw (length-append s.users (entry uid name ∷ [])) room)
        (find_user-snoc uid' s.users (entry uid name) fresh' ne)
        (name_taken-snoc name s.users (entry uid name) free (long_ne name long)) in
    rw (one, two)
      (
        refl,
        refl,
        ap (Option.map (λ (u : User). u.name))
            (at_end s.users (entry uid name) (entry uid' name)).0,
        ap (Option.map (λ (u : User). u.name))
            (at_end s.users (entry uid name) (entry uid' name)).1,
      )

find_user-change_user :
    (uid : ℕ) (f : User → User) (us : List User)
    → ((u : User) → ((f u).active ≡ u.active) × ((f u).uid ≡ u.uid))
    → find_user uid (change_user uid f us) ≡ Option.map f (find_user uid us)
unfolding find_user change_user
find_user-change_user uid f [] same = refl
find_user-change_user uid f (u ∷ us) same =
    ground (arith, same u, find_user-change_user uid f us same)

set_password-known :
    (s : Spm) (uid : ℕ) (password : Text) (u : User)
    → find_user uid s.users ≡ some u
    → spm_set_password s uid (some password) ≡ (
      true,
      record s {
        users = change_user uid (λ u. record u { password = copied 63 password }) s.users;
      },
    )
unfolding spm_set_password
set_password-known s uid password u found = ground (arith, found)

set_password-unknown :
    (s : Spm) (uid : ℕ) (password : Text)
    → find_user uid s.users ≡ none
    → spm_set_password s uid (some password) ≡ (false, s)
unfolding spm_set_password
set_password-unknown s uid password unknown = ground (arith, unknown)

auth-unknown :
    (s : Spm) (uid : ℕ) (answer : Text)
    → find_user uid s.users ≡ none
    → spm_auth_user s uid (some answer) ≡ false
unfolding spm_auth_user
auth-unknown s uid answer unknown = ground (arith, unknown)

auth-known :
    (s : Spm) (uid : ℕ) (answer : Text) (u : User)
    → find_user uid s.users ≡ some u
    → spm_auth_user s uid (some answer) ≡ same_text u.password answer
unfolding spm_auth_user
auth-known s uid answer u found = ground (arith, found)

-- After a password is set for a known user, exactly its first 63 bytes authenticate the user; for an
-- unknown user setting fails and nothing authenticates.
pub spm_auth_user-set_password :
    (s : Spm) (uid : ℕ) (password answer : Text)
    → let r = spm_set_password s uid (some password) in
      spm_auth_user r.1 uid (some answer) ≡ (r.0 && same_text (copied 63 password) answer)
spm_auth_user-set_password s uid password answer = elim (Option-cases (find_user uid s.users)) [
  | inl unknown ↦
      rw (set_password-unknown s uid password unknown) (auth-unknown s uid answer unknown)
  | inr (u, found) ↦
      let changed =
        find_user-change_user uid (λ u. record u { password = copied 63 password }) s.users
          (λ u. (refl, refl)) in
      rw (set_password-known s uid password u found) (
        auth-known _ uid answer (record u { password = copied 63 password })
          (changed ∙ ap (Option.map _) found))
]
