-- ===== src/Spm/Match.antt =====
-- kernel/spm/spm.c: which targets a pattern covers.
use grace_os.Prelude.{
  ◌-◌, ◌≡◌, refl, sym, ap, ◌∙◌, subst, ◌↔◌, ◌⊎◌, inl, inr, Bool, true, ◌&&◌, some, [], ◌∷◌, ◌++◌,
  append_assoc, arith, leb, Bool-cases, length, length-append,
}
use grace_os.Text.{
  Text, same_text, same_start, same_text_eq, same_text_self, Prefix, same_start-Prefix,
  Prefix-same_start,
}
use grace_os.Spm.{star, slash, is_directory, target_matches}

-- A pattern covers everything if it is `*`, itself, and, if it is `dir/*`, what begins with `dir/`.
abbrev pub Covers : Text → Text → Type 0
Covers p t =
    (p ≡ star ∷ [])
    ⊎ (p ≡ t)
    ⊎ ((dir : Text) × (p ≡ dir ++ (slash ∷ star ∷ [])) × Prefix (dir ++ (slash ∷ [])) t)

is_directory-split :
    (p : Text) → is_directory p ≡ true → (dir : Text) × (p ≡ dir ++ (slash ∷ star ∷ []))
unfolding is_directory
is_directory-split [] h = absurd (ground arith)
is_directory-split (x ∷ []) h = absurd (ground arith)
is_directory-split (x ∷ y ∷ []) h = ([], ground arith)
is_directory-split (x ∷ y ∷ z ∷ zs) h =
    let (dir, e) = is_directory-split (y ∷ z ∷ zs) (ground arith) in (x ∷ dir, ap (◌∷◌ x) e)

append-is_directory : (dir : Text) → is_directory (dir ++ (slash ∷ star ∷ [])) ≡ true
unfolding is_directory
append-is_directory [] = refl
append-is_directory (x ∷ []) = refl
append-is_directory (x ∷ y ∷ dir) = ground (arith, append-is_directory (y ∷ dir))

-- The pattern `dir/*`, cut before its star.
directory_eq : (dir : Text) → dir ++ (slash ∷ star ∷ []) ≡ (dir ++ (slash ∷ [])) ++ (star ∷ [])
directory_eq dir = sym (append_assoc dir (slash ∷ []) (star ∷ []))

length-directory :
    (dir : Text) → length (dir ++ (slash ∷ star ∷ [])) - 1 ≡ length (dir ++ (slash ∷ []))
length-directory dir =
    omega (arith, length-append dir (slash ∷ star ∷ []), length-append dir (slash ∷ []))

-- The test on a directory pattern.
abbrev in_directory : Text → Text → Bool
in_directory p t = leb (length p - 1) (length t) && same_start (length p - 1) p t

in_directory-Prefix :
    (dir t : Text)
    → in_directory (dir ++ (slash ∷ star ∷ [])) t ≡ true
    → Prefix (dir ++ (slash ∷ [])) t
in_directory-Prefix dir t h = same_start-Prefix (dir ++ (slash ∷ [])) (star ∷ []) t (
    subst
      (λ p.
        (leb (length (dir ++ (slash ∷ []))) (length t)
          && same_start (length (dir ++ (slash ∷ []))) p t)
        ≡ true)
      (directory_eq dir)
      (subst (λ n. (leb n (length t) && same_start n (dir ++ (slash ∷ star ∷ [])) t) ≡ true)
        (length-directory dir) h))

Prefix-in_directory :
    (dir t : Text)
    → Prefix (dir ++ (slash ∷ [])) t
    → in_directory (dir ++ (slash ∷ star ∷ [])) t ≡ true
Prefix-in_directory dir t (rest, e) =
    subst (λ n. (leb n (length t) && same_start n (dir ++ (slash ∷ star ∷ [])) t) ≡ true)
      (sym (length-directory dir))
      (subst
        (λ p.
          (leb (length (dir ++ (slash ∷ []))) (length t)
            && same_start (length (dir ++ (slash ∷ []))) p t)
          ≡ true)
        (sym (directory_eq dir))
        (subst
          (λ t.
            (leb (length (dir ++ (slash ∷ []))) (length t)
              && same_start (length (dir ++ (slash ∷ []))) ((dir ++ (slash ∷ [])) ++ (star ∷ [])) t)
            ≡ true)
          (sym e) (Prefix-same_start (dir ++ (slash ∷ [])) (star ∷ []) rest)))

target_matches-Covers : (p t : Text) → target_matches p (some t) ≡ true → Covers p t
unfolding target_matches
target_matches-Covers p t h = elim (Bool-cases (same_text p (star ∷ []))) [
  | inl e ↦ inl (same_text_eq p (star ∷ []) e)
  | inr e ↦ elim (Bool-cases (is_directory p)) [
    | inl d ↦
        let (dir, eq) = is_directory-split p d in
        let test : in_directory p t ≡ true = ground (arith, e, d, h) in
        inr
          (inr (dir, eq, in_directory-Prefix dir t (subst (λ p. in_directory p t ≡ true) eq test)))
    | inr d ↦ inr (inl (same_text_eq p t (ground (arith, e, d, h))))
  ]
]

Covers-target_matches : (p t : Text) → Covers p t → target_matches p (some t) ≡ true
unfolding target_matches
Covers-target_matches p t (inl e) = let s = same_text_self (star ∷ []) in rw (e, s) refl
Covers-target_matches p t (inr (inl e)) = elim (Bool-cases (is_directory p)) [
  | inr d ↦ ground (arith, d, subst (λ z. same_text p z ≡ true) e (same_text_self p))
  | inl d ↦
      let (dir, eq) = is_directory-split p d in
      let here : Prefix (dir ++ (slash ∷ [])) p = (star ∷ [], eq ∙ directory_eq dir) in
      let test : in_directory p t ≡ true =
        subst (λ z. in_directory p z ≡ true) e
          (subst (λ z. in_directory z p ≡ true) (sym eq) (Prefix-in_directory dir p here)) in
      ground (arith, d, test)
]
Covers-target_matches p t (inr (inr (dir, eq, pre))) =
    let d : is_directory p ≡ true =
      subst (λ z. is_directory z ≡ true) (sym eq) (append-is_directory dir) in
    let test : in_directory p t ≡ true =
      subst (λ z. in_directory z t ≡ true) (sym eq) (Prefix-in_directory dir t pre) in
    ground (arith, d, test)

-- `target_matches` accepts exactly the targets that the pattern covers: everything for `*`, what
-- begins with `dir/` for `dir/*`, and the pattern itself.
pub target_matches_lem : (p t : Text) → (target_matches p (some t) ≡ true) ↔ Covers p t
target_matches_lem p t = (target_matches-Covers p t, Covers-target_matches p t)
