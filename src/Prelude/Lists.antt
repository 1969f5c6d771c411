-- ===== src/Prelude/Lists.antt =====
-- Lists measured and indexed by native numbers, under the library's names.
use Prim.Native.Nat.{ℕ, zero, suc, ◌+◌, ◌-◌, ◌<◌, min, ◌≤◌}
use mathlib.Core.Path.{ap₂, ◌≡◌, refl, sym, ap, ◌∙◌}
use mathlib.Core.Logic.{◌≢◌}
use mathlib.Core.List.{List, [], ◌∷◌, ◌++◌, map}
use mathlib.Core.Option.{Option, none, some}
use native.Mathlib.Omega.{arith}

module _ {ℓ} {A : Type ℓ} where
  abbrev pub length : List A → ℕ
  length [] = 0
  length (x ∷ xs) = suc (length xs)

  abbrev pub get_elem? : List A → ℕ → Option A
  get_elem? [] i = none
  get_elem? (x ∷ xs) zero = some x
  get_elem? (x ∷ xs) (suc i) = get_elem? xs i

  -- A write out of bounds changes nothing.
  abbrev pub set : List A → ℕ → A → List A
  set [] i v = []
  set (x ∷ xs) zero v = v ∷ xs
  set (x ∷ xs) (suc i) v = x ∷ set xs i v

  pub length-append : (xs ys : List A) → length (xs ++ ys) ≡ length xs + length ys
  length-append [] ys = omega arith
  length-append (x ∷ xs) ys = omega (arith, length-append xs ys)

module _ {ℓ} {A : Type ℓ} where
  pub length-set : (xs : List A) (i : ℕ) (v : A) → length (set xs i v) ≡ length xs
  length-set [] i v = refl
  length-set (x ∷ xs) zero v = refl
  length-set (x ∷ xs) (suc i) v = ap suc (length-set xs i v)

  pub get_elem?-set_self :
      (xs : List A) (i : ℕ) (v : A) → i < length xs → get_elem? (set xs i v) i ≡ some v
  get_elem?-set_self [] i v h = elim h [ ]
  get_elem?-set_self (x ∷ xs) zero v h = refl
  get_elem?-set_self (x ∷ xs) (suc i) v h = get_elem?-set_self xs i v (omega arith)

  pub get_elem?-set_ne :
      (xs : List A) {i j : ℕ} (v : A) → i ≢ j → get_elem? (set xs i v) j ≡ get_elem? xs j
  get_elem?-set_ne [] v h = refl
  get_elem?-set_ne (x ∷ xs) {i = zero} {j = zero} v h = absurd (h refl)
  get_elem?-set_ne (x ∷ xs) {i = zero} {j = suc j} v h = refl
  get_elem?-set_ne (x ∷ xs) {i = suc i} {j = zero} v h = refl
  get_elem?-set_ne (x ∷ xs) {i = suc i} {j = suc j} v h = get_elem?-set_ne xs v (λ e. h (ap suc e))

module _ {ℓ} {A : Type ℓ} where
  abbrev pub get_or : List A → ℕ → A → A
  get_or [] i d = d
  get_or (x ∷ xs) zero d = x
  get_or (x ∷ xs) (suc i) d = get_or xs i d

  abbrev pub take : ℕ → List A → List A
  take zero xs = []
  take (suc n) [] = []
  take (suc n) (x ∷ xs) = x ∷ take n xs

  abbrev pub drop : ℕ → List A → List A
  drop zero xs = xs
  drop (suc n) [] = []
  drop (suc n) (x ∷ xs) = drop n xs

  abbrev pub replicate : ℕ → A → List A
  replicate zero a = []
  replicate (suc n) a = a ∷ replicate n a

  pub take-append-drop : (n : ℕ) (xs : List A) → take n xs ++ drop n xs ≡ xs
  take-append-drop zero xs = refl
  take-append-drop (suc n) [] = refl
  take-append-drop (suc n) (x ∷ xs) = rw (take-append-drop n xs)

  pub length-take : (n : ℕ) (xs : List A) → length (take n xs) ≡ min n (length xs)
  length-take zero xs = omega arith
  length-take (suc n) [] = omega arith
  length-take (suc n) (x ∷ xs) = omega (arith, length-take n xs)

  pub length-drop : (n : ℕ) (xs : List A) → length (drop n xs) ≡ length xs - n
  length-drop zero xs = omega arith
  length-drop (suc n) [] = omega arith
  length-drop (suc n) (x ∷ xs) = omega (arith, length-drop n xs)

  pub length-replicate : (n : ℕ) (a : A) → length (replicate n a) ≡ n
  length-replicate zero a = refl
  length-replicate (suc n) a = ap suc (length-replicate n a)

  pub length-map {κ} : {B : Type κ} (xs : List A) (f : A → B) → length (map f xs) ≡ length xs
  length-map [] f = refl
  length-map (x ∷ xs) f = ap suc (length-map xs f)

module _ {ℓ} {A : Type ℓ} where
  pub get_or-set_self :
      (xs : List A) (i : ℕ) (v d : A) → i < length xs → get_or (set xs i v) i d ≡ v
  get_or-set_self [] i v d h = absurd (omega arith)
  get_or-set_self (x ∷ xs) zero v d h = refl
  get_or-set_self (x ∷ xs) (suc i) v d h = get_or-set_self xs i v d (omega arith)

  pub get_or-set_ne :
      (xs : List A) (i j : ℕ) (v d : A) → i ≢ j → get_or (set xs i v) j d ≡ get_or xs j d
  get_or-set_ne [] i j v d h = refl
  get_or-set_ne (x ∷ xs) zero zero v d h = absurd (h refl)
  get_or-set_ne (x ∷ xs) zero (suc j) v d h = refl
  get_or-set_ne (x ∷ xs) (suc i) zero v d h = refl
  get_or-set_ne (x ∷ xs) (suc i) (suc j) v d h = get_or-set_ne xs i j v d (λ e. h (ap suc e))

  pub get_or-replicate : (n : ℕ) (a d : A) (i : ℕ) → i < n → get_or (replicate n a) i d ≡ a
  get_or-replicate zero a d i h = absurd (omega arith)
  get_or-replicate (suc n) a d zero h = refl
  get_or-replicate (suc n) a d (suc i) h = get_or-replicate n a d i (omega arith)

module _ {ℓ} {A : Type ℓ} where
  pub get_or-append :
      (xs ys : List A) (i : ℕ) (d : A) → i < length xs → get_or (xs ++ ys) i d ≡ get_or xs i d
  get_or-append [] ys i d h = absurd (omega arith)
  get_or-append (x ∷ xs) ys zero d h = refl
  get_or-append (x ∷ xs) ys (suc i) d h = get_or-append xs ys i d (omega arith)

  pub get_or-last : (xs : List A) (a d : A) → get_or (xs ++ (a ∷ [])) (length xs) d ≡ a
  get_or-last [] a d = refl
  get_or-last (x ∷ xs) a d = get_or-last xs a d

  pub get_or-drop : (xs : List A) (i : ℕ) (d : A) → get_or (drop 1 xs) i d ≡ get_or xs (i + 1) d
  get_or-drop [] i d = refl
  get_or-drop (x ∷ xs) i d =
      let next : suc i ≡ i + 1 = omega arith in ap (λ j. get_or (x ∷ xs) j d) next

  pub take_all : (xs ys : List A) → take (length xs) (xs ++ ys) ≡ xs
  take_all [] ys = refl
  take_all (x ∷ xs) ys = ap (λ t. x ∷ t) (take_all xs ys)

  -- The first of a list that goes on.
  pub take-append : (n : ℕ) (xs ys : List A) → n ≤ length xs → take n (xs ++ ys) ≡ take n xs
  take-append zero xs ys h = refl
  take-append (suc n) [] ys h = absurd (omega arith)
  take-append (suc n) (x ∷ xs) ys h = ap (λ t. x ∷ t) (take-append n xs ys (omega arith))

  take_none : (n : ℕ) → take {A = A} n [] ≡ []
  take_none zero = refl
  take_none (suc n) = refl

  pub take_add : (n k : ℕ) (xs : List A) → take n xs ++ take k (drop n xs) ≡ take (n + k) xs
  take_add zero k xs = ap (λ j. take j xs) (omega arith)
  take_add (suc n) k [] = take_none k ∙ sym (take_none (suc n + k))
  take_add (suc n) k (x ∷ xs) =
      let next : suc (n + k) ≡ suc n + k = omega arith in
      ap (λ t. x ∷ t) (take_add n k xs) ∙ ap (λ j. take j (x ∷ xs)) next

  pub drop-append : (n : ℕ) (xs ys : List A) → n ≤ length xs → drop n (xs ++ ys) ≡ drop n xs ++ ys
  drop-append zero xs ys le = refl
  drop-append (suc n) [] ys le = absurd (omega (arith, le))
  drop-append (suc n) (x ∷ xs) ys le = drop-append n xs ys (omega (arith, le))

  pub drop_all : (xs ys : List A) → drop (length xs) (xs ++ ys) ≡ ys
  drop_all [] ys = refl
  drop_all (x ∷ xs) ys = drop_all xs ys

  -- A cut behind the first list.
  pub drop_past : (xs ys : List A) (k : ℕ) → drop (length xs + k) (xs ++ ys) ≡ drop k ys
  drop_past [] ys k = ap (λ n. drop n ys) (omega arith)
  drop_past (x ∷ xs) ys k =
      let one_more : length (x ∷ xs) + k ≡ suc (length xs + k) = omega arith in
      ap (λ n. drop n (x ∷ (xs ++ ys))) one_more ∙ drop_past xs ys k

  pub take_past : (xs ys : List A) (k : ℕ) → take (length xs + k) (xs ++ ys) ≡ xs ++ take k ys
  take_past xs ys k =
      sym (take_add (length xs) k (xs ++ ys))
      ∙ ap₂ ◌++◌ (take_all xs ys) (ap (take k) (drop_all xs ys))
