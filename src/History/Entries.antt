-- ===== src/History/Entries.antt =====
-- userland/shell/history.c: the ring holds a list of commands, the oldest first.
use grace_os.Text.{Text, same_text, copied}
use grace_os.History.{
  History, hist_max, hist_room, newest, oldest, is_empty, enter, hist_add, hist_get,
}
use grace_os.Prelude.{
  ℕ, zero, suc, ◌+◌, ◌-◌, ◌%◌, ◌≤◌, ◌<◌, ◌≡◌, refl, sym, ap, ◌∙◌, ◌≢◌, inl, inr, Bool, true, false,
  ◌&&◌, none, some, List, [], ◌∷◌, ◌++◌, arith, dec_lt, ℕ_discrete, ltb, leb, if◌then◌else◌,
  Bool-cases, length, get_elem?, length-append, get_or, drop, length-drop, put_self, put_ne,
  get_or-append, get_or-last, get_or-drop,
}

-- The ring holds these commands.
pub record Holds (s : History) (xs : List Text) : Type 0 where
  pub counted : s.count ≡ length xs
  pub room : s.count ≤ hist_max
  pub head_in : s.head < hist_max
  pub each : (i : ℕ) → i < s.count → s.hist ((oldest s + i) % hist_max) ≡ get_or xs i []

-- The list with a command more: the oldest makes room.
abbrev pub with_last : Text → List Text → List Text
with_last c xs = if ltb (length xs) hist_max then xs ++ (c ∷ []) else drop 1 (xs ++ (c ∷ []))

-- What a call adds: nothing for an empty command or for the last one again.
abbrev pub remember : Text → List Text → List Text
remember cmd xs =
    if is_empty cmd
    then xs
    else if ltb 0 (length xs) && same_text cmd (get_or xs (length xs - 1) [])
    then xs
    else with_last (copied hist_room cmd) xs

-- A slot of the ring by its index in a list with one command more.
with_room :
    (s : History) (cmd : Text) (xs : List Text)
    → s.count < hist_max
    → Holds s xs
    → Holds (enter s cmd) (xs ++ (copied hist_room cmd ∷ []))
with_room s cmd xs lt v =
    let s' = enter s cmd in
    let c = copied hist_room cmd in
    let more : s'.count ≡ s.count + 1 = ground (arith, lt) in
    record {
      counted = omega (arith, more, v.counted, length-append xs (c ∷ []));
      room = omega (arith, more);
      head_in = omega arith;
      each = λ i hi. elim (ℕ_discrete i s.count) [
        | yes last ↦
            let here : (oldest s' + i) % hist_max ≡ s.head =
              omega (arith, more, last, v.head_in, v.room) in
            let index : length xs ≡ i = omega (arith, last, v.counted) in
            ap s'.hist here
            ∙ put_self s.hist s.head c
            ∙ sym (get_or-last xs c [])
            ∙ ap (λ j. get_or (xs ++ (c ∷ [])) j []) index
        | no ne ↦
            let there : (oldest s' + i) % hist_max ≡ (oldest s + i) % hist_max =
              omega (arith, more, v.head_in, v.room) in
            let apart : s.head ≢ (oldest s + i) % hist_max =
              omega (arith, more, hi, ne, v.head_in, lt) in
            ap s'.hist there
            ∙ put_ne s.hist s.head _ c apart
            ∙ v.each i (omega (arith, more, hi, ne))
            ∙ sym (get_or-append xs (c ∷ []) i [] (omega (arith, more, hi, ne, v.counted)))
      ];
    }

when_full :
    (s : History) (cmd : Text) (xs : List Text)
    → s.count ≡ hist_max
    → Holds s xs
    → Holds (enter s cmd) (drop 1 (xs ++ (copied hist_room cmd ∷ [])))
when_full s cmd xs full v =
    let s' = enter s cmd in
    let c = copied hist_room cmd in
    let same : s'.count ≡ hist_max = ground (arith, full) in
    record {
      counted =
          omega (
            arith,
            same,
            full,
            v.counted,
            length-append xs (c ∷ []),
            length-drop 1 (xs ++ (c ∷ [])),
          );
      room = omega (arith, same);
      head_in = omega arith;
      each = λ i hi.
          (elim (ℕ_discrete i 31) [
            | yes last ↦
                let here : (oldest s' + i) % hist_max ≡ s.head =
                  omega (arith, same, last, v.head_in) in
                let index : length xs ≡ i + 1 = omega (arith, last, full, v.counted) in
                ap s'.hist here
                ∙ put_self s.hist s.head c
                ∙ sym (get_or-last xs c [])
                ∙ ap (λ j. get_or (xs ++ (c ∷ [])) j []) index
            | no ne ↦
                let there : (oldest s' + i) % hist_max ≡ (oldest s + (i + 1)) % hist_max =
                  omega (arith, same, full, v.head_in) in
                let apart : s.head ≢ (oldest s + (i + 1)) % hist_max =
                  omega (arith, same, full, hi, ne, v.head_in) in
                ap s'.hist there
                ∙ put_ne s.hist s.head _ c apart
                ∙ v.each (i + 1) (omega (arith, same, full, hi, ne))
                ∙ sym (
                    get_or-append xs (c ∷ []) (i + 1) []
                      (omega (arith, same, full, hi, ne, v.counted)))
          ])
          ∙ sym (get_or-drop (xs ++ (c ∷ [])) i []);
    }

newest_entry :
    (s : History) (xs : List Text)
    → Holds s xs
    → 0 < s.count
    → s.hist (newest s) ≡ get_or xs (length xs - 1) []
newest_entry s xs v pos =
    let here : newest s ≡ (oldest s + (s.count - 1)) % hist_max =
      omega (arith, v.head_in, v.room, pos) in
    let index : s.count - 1 ≡ length xs - 1 = omega (arith, v.counted) in
    ap s.hist here ∙ v.each (s.count - 1) (omega (arith, pos)) ∙ ap (λ j. get_or xs j []) index

enter-Holds :
    (s : History) (cmd : Text) (xs : List Text)
    → Holds s xs
    → Holds (enter s cmd) (with_last (copied hist_room cmd) xs)
enter-Holds s cmd xs v = elim (dec_lt (length xs) hist_max) [
  | yes lt ↦
      let inside : ltb (length xs) hist_max ≡ true = ground (arith, lt) in
      rw inside (with_room s cmd xs (omega (arith, lt, v.counted)) v)
  | no ge ↦
      let out : ltb (length xs) hist_max ≡ false = ground (arith, ge) in
      rw out (when_full s cmd xs (omega (arith, ge, v.counted, v.room)) v)
]

abbrev repeats : List Text → Text → Bool
repeats xs cmd = ltb 0 (length xs) && same_text cmd (get_or xs (length xs - 1) [])

same_test :
    (s : History) (cmd : Text) (xs : List Text)
    → Holds s xs
    → (ltb 0 s.count && same_text cmd (s.hist (newest s))) ≡ repeats xs cmd
same_test s cmd xs v = elim (ℕ_discrete s.count 0) [
  | yes none_yet ↦ ground (arith, none_yet, v.counted)
  | no some_there ↦ ground (arith, newest_entry s xs v (omega (arith, some_there)), v.counted)
]

-- `hist_add` does to the ring what `remember` does to the list of the commands it holds: an empty
-- command and one equal to the last are not added, any other is, cut at 255 bytes, and the oldest of
-- 32 makes room.
pub hist_add-Holds :
    (s : History) (cmd : Text) (xs : List Text)
    → Holds s xs
    → Holds (hist_add s cmd) (remember cmd xs)
unfolding hist_add
hist_add-Holds s cmd xs v = elim (Bool-cases (is_empty cmd)) [
  | inl empty ↦ rw empty v
  | inr given ↦ elim (Bool-cases (repeats xs cmd)) [
    | inl again ↦ rw (given, same_test s cmd xs v, again) v
    | inr fresh ↦ rw (given, same_test s cmd xs v, fresh) (enter-Holds s cmd xs v)
  ]
]

pub get_elem?-inside :
    (xs : List Text) (i : ℕ) → i < length xs → get_elem? xs i ≡ some (get_or xs i [])
get_elem?-inside [] i h = absurd (omega arith)
get_elem?-inside (x ∷ xs) zero h = refl
get_elem?-inside (x ∷ xs) (suc i) h = get_elem?-inside xs i (omega arith)

get_elem?-outside : (xs : List Text) (i : ℕ) → length xs ≤ i → get_elem? xs i ≡ none
get_elem?-outside [] i h = refl
get_elem?-outside (x ∷ xs) zero h = absurd (omega arith)
get_elem?-outside (x ∷ xs) (suc i) h = get_elem?-outside xs i (omega arith)

-- `hist_get` answers the commands held by their index from the oldest on, and null for any other index.
pub hist_get-Holds :
    (s : History) (xs : List Text) (i : ℕ) → Holds s xs → hist_get s i ≡ get_elem? xs i
unfolding hist_get
hist_get-Holds s xs i v = elim (dec_lt i s.count) [
  | yes lt ↦
      let inside : leb s.count i ≡ false = ground (arith, lt) in
      rw inside (ap some (v.each i lt) ∙ sym (get_elem?-inside xs i (omega (arith, lt, v.counted))))
  | no ge ↦
      let outside : leb s.count i ≡ true = ground (arith, ge) in
      rw outside (sym (get_elem?-outside xs i (omega (arith, ge, v.counted))))
]
