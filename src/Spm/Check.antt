-- ===== src/Spm/Check.antt =====
-- kernel/spm/spm.c: what `spm_check` allows, before and after a grant or a revocation.
use grace_os.Prelude.{
  ℕ, zero, suc, ◌<◌, bit_and, ◌≡◌, refl, sym, subst, ◌↔◌, ◌⊎◌, inl, inr, true, ◌&&◌, ◌||◌, Option,
  some, List, [], ◌∷◌, ◌++◌, arith, ℕ_discrete, ◌==◌, ==_self, Bool-cases, length, get_elem?,
  lt→leb,
}
use grace_os.Text.{Text, copied}
use grace_os.Spm.{
  Capability, Spm, max_caps, target_matches, revoke_first, grants, any_grants, spm_grant_cap,
  spm_revoke_cap, spm_check,
}
use grace_os.Spm.Match.{Covers, target_matches_lem}

-- The entry grants every bit of `perm` to the user on the target.
pub record Grants (uid perm : ℕ) (t : Text) (c : Capability) : Type 0 where
  pub active : c.active ≡ true
  pub user : c.uid ≡ uid
  pub bits : bit_and c.perm perm ≡ perm
  pub covers : Covers c.target t

grants-Grants :
    (uid perm : ℕ) (t : Text) (c : Capability)
    → (grants uid perm (some t) c ≡ true) ↔ Grants uid perm t c
grants-Grants uid perm t c = (
  λ h. record {
    active = ground arith;
    user = ground arith;
    bits = ground arith;
    covers = (target_matches_lem c.target t).0 (ground arith);
  },
  λ g. ground (arith, g.active, g.user, g.bits, (target_matches_lem c.target t).1 g.covers),
)

any_grants-entry :
    (uid perm : ℕ) (t : Text) (cs : List Capability)
    → any_grants uid perm (some t) cs ≡ true
    → (i : ℕ) × (c : Capability) × (get_elem? cs i ≡ some c) × Grants uid perm t c
unfolding any_grants
any_grants-entry uid perm t [] h = cc
any_grants-entry uid perm t (c ∷ cs) h = elim (Bool-cases (grants uid perm (some t) c)) [
  | inl g ↦ (0, c, refl, (grants-Grants uid perm t c).0 g)
  | inr g ↦
      let (i, c', at_i, g') = any_grants-entry uid perm t cs (ground (arith, g, h)) in
      (suc i, c', at_i, g')
]

entry-any_grants :
    (uid perm : ℕ) (t : Text) (cs : List Capability) (i : ℕ) (c : Capability)
    → get_elem? cs i ≡ some c
    → Grants uid perm t c
    → any_grants uid perm (some t) cs ≡ true
unfolding any_grants
entry-any_grants uid perm t [] i c h g = cc
entry-any_grants uid perm t (x ∷ cs) zero c h g =
    let e : x ≡ c = cc in
    let h' = (grants-Grants uid perm t x).1 (subst (Grants uid perm t) (sym e) g) in rw h' refl
entry-any_grants uid perm t (x ∷ cs) (suc i) c h g =
    let ih = entry-any_grants uid perm t cs i c h g in ground (arith, ih)

-- `spm_check` allows a request exactly if the user is root, or if one entry of the user that is
-- active grants all of the bits on a pattern that covers the target. `*` covers every target, a
-- pattern that ends in `/*` what begins with the part before the star, and any other only itself, one
-- that ends in a slash too.
pub spm_check_lem :
    (s : Spm) (uid perm : ℕ) (t : Text)
    → (spm_check s uid perm (some t) ≡ true) ↔ (
        (uid ≡ 0)
        ⊎ ((i : ℕ) × (c : Capability) × (get_elem? s.caps i ≡ some c) × Grants uid perm t c))
unfolding spm_check
spm_check_lem s uid perm t = (
  λ h. elim (ℕ_discrete uid 0) [
    | yes e ↦ inl e
    | no ne ↦ inr (any_grants-entry uid perm t s.caps (ground (arith, ne, h)))
  ],
  λ h. elim h [
    | inl e ↦ rw e refl
    | inr (i, c, at_i, g) ↦
        let a = entry-any_grants uid perm t s.caps i c at_i g in ground (arith, a)
  ],
)

any_grants-append :
    (uid perm : ℕ) (t : Option Text) (cs ds : List Capability)
    → any_grants uid perm t (cs ++ ds) ≡ (any_grants uid perm t cs || any_grants uid perm t ds)
unfolding any_grants
any_grants-append uid perm t [] ds = refl
any_grants-append uid perm t (c ∷ cs) ds = ground (arith, any_grants-append uid perm t cs ds)

-- A grant with room in the table succeeds, and adds exactly the requests of that user for granted
-- bits on covered targets to what `spm_check` allows; the pattern is cut at 255 bytes.
pub spm_grant_cap_lem :
    (s : Spm) (uid perm : ℕ) (pattern : Text) (u p : ℕ) (t : Option Text)
    → length s.caps < max_caps
    → let r = spm_grant_cap s uid perm (some pattern) in
      (r.0 ≡ true)
      × (spm_check r.1 u p t ≡ (
          spm_check s u p t
          || (uid == u && bit_and perm p == p && target_matches (copied 255 pattern) t)))
unfolding spm_grant_cap spm_check any_grants
spm_grant_cap_lem s uid perm pattern u p t room =
    rw (lt→leb max_caps (length s.caps) room)
      (refl, rw (any_grants-append u p t s.caps _) (ground arith))

-- When the first entry of the table is active, of the user, and covers the target, a revocation
-- stops there: it reports success, and when a later entry grants the permission too, `spm_check`
-- goes on allowing it.
pub spm_revoke_cap-shadowed :
    (s : Spm) (c : Capability) (cs : List Capability) (uid perm : ℕ) (t : Option Text)
    → s.caps ≡ c ∷ cs
    → c.active ≡ true
    → c.uid ≡ uid
    → target_matches c.target t ≡ true
    → any_grants uid perm t cs ≡ true
    → let r = spm_revoke_cap s uid perm t in (r.0 ≡ true) × (spm_check r.1 uid perm t ≡ true)
unfolding spm_revoke_cap revoke_first spm_check any_grants
spm_revoke_cap-shadowed s c cs uid perm t e active user covers later =
    rw (e, active, user, ==_self uid, covers, later) (refl, ground arith)
