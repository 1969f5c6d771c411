-- ===== src/Net/Http/Turns.antt =====
-- kernel/net/http/http_client.c: a turn of the chunk decoder's loop, with more bytes behind those at hand.
use grace_os.Net.Http.{
  ChunkState, read_size, read_data, expect_cr, expect_lf, chunk_done, ChunkDecoder, SinkResult,
  sink_ok, sink_full, sink_err, parse_hex_size, Turn, stop, go, size_known, size_byte, remain,
  finished, after_sink, data_bytes, turn_in,
}
use grace_os.Net.Http.Ends.{in_data, HasWords}
use grace_os.Prelude.{
  ℕ, ◌+◌, ◌-◌, ◌%◌, ◌^◌, ◌≤◌, ◌<◌, ◌≡◌, refl, sym, ap, ◌∙◌, ap₂, ◌⊎◌, inl, inr, true, false, Option,
  none, some, List, [], ◌∷◌, ◌++◌, append-nil, arith, ltb, leb, ◌==◌, if◌then◌else◌, lt→ltb,
  Bool-cases, length, length-append, take, length-take, take_all, take-append, drop-append,
  drop_past, take_past,
}

module _ {S : Type 0} (sink : S → List ℕ → SinkResult × S) where
  -- After the first part of some bytes, with the others.
  abbrev pub then_sink : SinkResult × S → List ℕ → SinkResult × S
  then_sink (sink_ok, s) ys = sink s ys
  then_sink (sink_full, s) ys = (sink_full, s)
  then_sink (sink_err, s) ys = (sink_err, s)

  -- A sink that takes bytes in two parts as it takes them at once.
  abbrev pub IsSink : Type 0
  IsSink =
      (s : S) (xs ys : List ℕ)
      → 0 < length xs
      → 0 < length ys
      → sink s (xs ++ ys) ≡ then_sink (sink s xs) ys

  -- A turn with more bytes behind.
  abbrev pub extend : List ℕ → Turn sink → Turn sink
  extend b (stop r dec s) = stop r dec s
  extend b (go dec s rest) = go dec s (rest ++ b)

  size_known-extend :
      (dec : ChunkDecoder) (s : S) (rest b : List ℕ) (o : Option ℕ)
      → size_known sink dec s (rest ++ b) o ≡ extend b (size_known sink dec s rest o)
  size_known-extend dec s rest b none = refl
  size_known-extend dec s rest b (some sz) = elim (Bool-cases (sz == 0)) [
    | inl null ↦ rw null refl
    | inr positive ↦ rw positive refl
  ]

  size_byte-extend :
      (dec : ChunkDecoder) (s : S) (c : ℕ) (rest b : List ℕ)
      → size_byte sink dec s c (rest ++ b) ≡ extend b (size_byte sink dec s c rest)
  size_byte-extend dec s c rest b = elim (Bool-cases (c == 13)) [
    | inl cr ↦ rw cr refl
    | inr not_cr ↦ elim (Bool-cases (c == 10)) [
      | inl lf ↦ rw (not_cr, lf) (size_known-extend dec s rest b (parse_hex_size dec.size_line))
      | inr not_lf ↦ elim (Bool-cases (leb 31 (length dec.size_line))) [
        | inl long ↦ rw (not_cr, not_lf, long) refl
        | inr room ↦ rw (not_cr, not_lf, room) refl
      ]
    ]
  ]

  after_sink-extend :
      (dec : ChunkDecoder) (n : ℕ) (xs b : List ℕ) (r : SinkResult × S)
      → n ≤ length xs
      → after_sink sink dec n (xs ++ b) r ≡ extend b (after_sink sink dec n xs r)
  after_sink-extend dec n xs b (sink_ok, s) le =
      ap
        (λ rest.
          go (finished sink (record dec { chunk_read = (dec.chunk_read + n) % 2 ^ 64 })) s rest)
        (drop-append n xs b le)
  after_sink-extend dec n xs b (sink_full, s) le = refl
  after_sink-extend dec n xs b (sink_err, s) le = refl

  -- A chunk that ends in the first part.
  data_bytes-extend :
      (dec : ChunkDecoder) (s : S) (xs b : List ℕ)
      → remain sink dec ≤ length xs
      → data_bytes sink dec s (xs ++ b) ≡ extend b (data_bytes sink dec s xs)
  data_bytes-extend dec s xs b le =
      let n = remain sink dec in
      let long = length-append xs b in
      let all : (if ltb n (length (xs ++ b)) then n else length (xs ++ b)) ≡ n =
        ground (arith, le, long) in
      let part : (if ltb n (length xs) then n else length xs) ≡ n = ground (arith, le) in
      elim (Bool-cases (ltb 0 n)) [
        | inl pos ↦
            rw (all, part, pos, take-append n xs b le)
              (after_sink-extend dec n xs b (sink s (take n xs)) le)
        | inr null ↦ rw (all, part, null) refl
      ]

  pub turn_in-extend :
      (st : ChunkState) (dec : ChunkDecoder) (s : S) (c : ℕ) (a b : List ℕ)
      → (in_data st ≡ 0) ⊎ (remain sink dec ≤ length (c ∷ a))
      → turn_in sink st dec s c (a ++ b) ≡ extend b (turn_in sink st dec s c a)
  turn_in-extend chunk_done dec s c a b whole = refl
  turn_in-extend read_size dec s c a b whole = size_byte-extend dec s c a b
  turn_in-extend read_data dec s c a b (inl none_there) = absurd (omega (arith, none_there))
  turn_in-extend read_data dec s c a b (inr le) = data_bytes-extend dec s (c ∷ a) b le
  turn_in-extend expect_cr dec s c a b whole = elim (Bool-cases (c == 13)) [
    | inl cr ↦ rw cr refl
    | inr other ↦ rw other refl
  ]
  turn_in-extend expect_lf dec s c a b whole = elim (Bool-cases (c == 10)) [
    | inl lf ↦ rw lf refl
    | inr other ↦ rw other refl
  ]

  -- The same result and sink; of a call that goes on, the same decoder and bytes too.
  abbrev pub SameTurn : Turn sink → Turn sink → Type 0
  SameTurn t (stop r dec s) = (dec' : ChunkDecoder) × (t ≡ stop r dec' s)
  SameTurn t (go dec s rest) = t ≡ go dec s rest

  -- The decoder after the bytes of a chunk that are at hand.
  abbrev pub read_on : ChunkDecoder → ℕ → ChunkDecoder
  read_on dec n = record dec { chunk_read = (dec.chunk_read + n) % 2 ^ 64 }

  after_sink-SameTurn :
      (dec : ChunkDecoder) (k : ℕ) (xs b : List ℕ) (r : SinkResult × S)
      → SameTurn
          (after_sink sink dec (length xs + k) (xs ++ b) r)
          (after_sink sink (read_on dec (length xs)) k b r)
  after_sink-SameTurn dec k xs b (sink_ok, s) =
      let counted : (dec.chunk_read + (length xs + k)) % 2 ^ 64
          ≡ ((dec.chunk_read + length xs) % 2 ^ 64 + k) % 2 ^ 64 =
        omega arith in
      ap₂ (λ n rest. go (finished sink (record dec { chunk_read = n })) s rest) counted
        (drop_past xs b k)
  after_sink-SameTurn dec k xs b (sink_full, s) = (read_on dec (length xs + k), refl)
  after_sink-SameTurn dec k xs b (sink_err, s) = (dec, refl)

  -- A chunk that does not end in the first part.
  module _ (dec : ChunkDecoder) (s : S) (xs : List ℕ) (words : HasWords dec)
      (cut : length xs < remain sink dec) (some_there : 0 < length xs) where
    abbrev at_hand : ChunkDecoder
    at_hand = read_on dec (length xs)

    remain_after : remain sink at_hand ≡ remain sink dec - length xs
    remain_after = omega (arith, words.0, words.1, cut)

    pub not_finished : finished sink at_hand ≡ at_hand
    not_finished =
        let off : (at_hand.chunk_read == dec.chunk_size) ≡ false =
          ground (arith, words.0, words.1, cut) in
        rw off refl

    pub first_part : data_bytes sink dec s xs ≡ after_sink sink dec (length xs) xs (sink s xs)
    first_part =
        let n : (if ltb (remain sink dec) (length xs) then remain sink dec else length xs)
            ≡ length xs =
          ground (arith, cut) in
        let pos : ltb 0 (length xs) ≡ true = ground (arith, some_there) in
        let all : take (length xs) xs ≡ xs =
          ap (take (length xs)) (sym (append-nil xs)) ∙ take_all xs [] in
        rw (n, pos, all) refl

    pub second_part :
        (s' : S) (b : List ℕ)
        → IsSink
        → sink s xs ≡ (sink_ok, s')
        → 0 < length b
        → SameTurn (data_bytes sink dec s (xs ++ b)) (data_bytes sink at_hand s' b)
    second_part s' b law took more_there =
        let k = if ltb (remain sink at_hand) (length b) then remain sink at_hand else length b in
        let k_pos : 0 < k = ground (arith, remain_after, cut, more_there) in
        let n : (if ltb (remain sink dec) (length (xs ++ b))
              then remain sink dec
              else length (xs ++ b))
            ≡ length xs + k =
          ground (arith, remain_after, length-append xs b, cut) in
        let pos : ltb 0 (length xs + k) ≡ true = ground (arith, k_pos) in
        let pos' : ltb 0 k ≡ true = lt→ltb 0 k k_pos in
        let taken : 0 < length (take k b) = omega (arith, length-take k b, k_pos, more_there) in
        let same : sink s (take (length xs + k) (xs ++ b)) ≡ sink s' (take k b) =
          ap (sink s) (take_past xs b k)
          ∙ (law s xs (take k b) some_there taken ∙ ap (λ r. then_sink r (take k b)) took) in
        rw (n, pos, pos', same) (after_sink-SameTurn dec k xs b (sink s' (take k b)))
