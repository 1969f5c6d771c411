-- ===== src/Text.antt =====
-- lib/libc/string.c: C strings as the lists of their bytes, without the terminator, and the calls of
-- the string functions in the forms in which the kernel makes them.
use grace_os.Prelude.{
  ℕ, zero, suc, ◌≡◌, refl, ap₂, Bool, true, false, ◌&&◌, List, [], ◌∷◌, ◌++◌, arith, leb, ◌==◌,
  length, take,
}

abbrev pub Text : Type 0
Text = List ℕ

-- `strcmp(a, b) == 0`
unfoldable pub same_text : Text → Text → Bool
same_text [] [] = true
same_text [] (b ∷ bs) = false
same_text (a ∷ xs) [] = false
same_text (a ∷ xs) (b ∷ bs) = a == b && same_text xs bs

-- `strncmp(a, b, n) == 0`
unfoldable pub same_start : ℕ → Text → Text → Bool
same_start zero a b = true
same_start (suc n) [] [] = true
same_start (suc n) [] (b ∷ bs) = false
same_start (suc n) (a ∷ xs) [] = false
same_start (suc n) (a ∷ xs) (b ∷ bs) = a == b && same_start n xs bs

-- `strncpy(dest, src, n); dest[n] = '\0';`
abbrev pub copied : ℕ → Text → Text
copied n src = take n src

pub same_text_eq : (a b : Text) → same_text a b ≡ true → a ≡ b
unfolding same_text
same_text_eq [] [] h = refl
same_text_eq [] (b ∷ bs) h = cc
same_text_eq (a ∷ xs) [] h = cc
same_text_eq (a ∷ xs) (b ∷ bs) h = ground (arith, same_text_eq xs bs)

pub same_text_self : (a : Text) → same_text a a ≡ true
unfolding same_text
same_text_self [] = refl
same_text_self (a ∷ xs) = ground (arith, same_text_self xs)

abbrev pub Prefix : Text → Text → Type 0
Prefix xs t = (rest : Text) × (t ≡ xs ++ rest)

pub same_start-Prefix :
    (xs ys t : Text)
    → (leb (length xs) (length t) && same_start (length xs) (xs ++ ys) t) ≡ true
    → Prefix xs t
unfolding same_start
same_start-Prefix [] ys t h = (t, refl)
same_start-Prefix (x ∷ xs) ys [] h = absurd (ground arith)
same_start-Prefix (x ∷ xs) ys (b ∷ t) h =
    let (rest, e) = same_start-Prefix xs ys t (ground arith) in
    let same : b ≡ x = ground arith in (rest, ap₂ ◌∷◌ same e)

pub Prefix-same_start :
    (xs ys rest : Text)
    → (leb (length xs) (length (xs ++ rest)) && same_start (length xs) (xs ++ ys) (xs ++ rest))
      ≡ true
unfolding same_start
Prefix-same_start [] ys rest = ground arith
Prefix-same_start (x ∷ xs) ys rest = ground (arith, Prefix-same_start xs ys rest)
