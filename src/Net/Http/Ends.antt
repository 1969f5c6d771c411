-- ===== src/Net/Http/Ends.antt =====
-- kernel/net/http/http_client.c: the loop of the chunk decoder ends.
use grace_os.Net.Http.{
  ChunkState, read_size, read_data, expect_cr, expect_lf, chunk_done, ChunkDecoder, SinkResult,
  sink_ok, sink_full, sink_err, is_hex, shifted, parse_hex, parse_hex_size, Feed, more, returned,
  Turn, stop, go, size_known, size_byte, remain, finished, after_sink, data_bytes, turn_in,
  after_turn, decode, decode_chunked_bytes,
}
use grace_os.Prelude.{
  ℕ, zero, suc, ◌+◌, ◌*◌, ◌%◌, ◌^◌, ◌≤◌, ◌<◌, ◌≡◌, refl, ap, subst, inl, inr, Bool, true, false,
  ◌||◌, Option, none, some, List, [], ◌∷◌, arith, ltb, leb, ◌==◌, if◌then◌else◌, ltb→lt, Bool-cases,
  length, take, length-drop,
}

-- The sizes fit in a `size_t`.
abbrev pub HasWords : ChunkDecoder → Type 0
HasWords dec = (dec.chunk_size < 2 ^ 64) × (dec.chunk_read < 2 ^ 64)

abbrev pub in_data : ChunkState → ℕ
in_data read_data = 1
in_data _ = 0

abbrev in_data_le : (st : ChunkState) → in_data st ≤ 1
in_data_le read_size = omega arith
in_data_le read_data = omega arith
in_data_le expect_cr = omega arith
in_data_le expect_lf = omega arith
in_data_le chunk_done = omega arith

-- What every turn that goes on makes less.
abbrev pub measure : ChunkDecoder → List ℕ → ℕ
measure dec bytes = 2 * length bytes + in_data dec.state

-- A size is none, or fits.
abbrev FitsIfAny : Option ℕ → Type 0
FitsIfAny none = Unit
FitsIfAny (some sz) = sz < 2 ^ 64

parse_hex-Fits :
    (v : ℕ) (have_digit : Bool) (cs : List ℕ) → v < 2 ^ 64 → FitsIfAny (parse_hex v have_digit cs)
unfolding parse_hex
parse_hex-Fits v have_digit [] lt = elim (Bool-cases have_digit) [
  | inl yes_digit ↦ rw yes_digit lt
  | inr no_digit ↦ rw no_digit tt
]
parse_hex-Fits v have_digit (c ∷ cs) lt =
    let added = parse_hex-Fits (shifted v c) true cs (omega arith) in
    let here : FitsIfAny (if have_digit then some v else none) = elim (Bool-cases have_digit) [
      | inl yes_digit ↦ rw yes_digit lt
      | inr no_digit ↦ rw no_digit tt
    ] in
    elim (Bool-cases (c == 59)) [
      | inl extension ↦ rw extension here
      | inr not_ext ↦ elim (Bool-cases (is_hex c)) [
        | inl hex ↦ elim (Bool-cases (ltb (shifted v c) v)) [
          | inl over ↦ rw (not_ext, hex, over) tt
          | inr in_range ↦ rw (not_ext, hex, in_range) added
        ]
        | inr not_hex ↦ elim (Bool-cases (c == 32 || c == 9)) [
          | inl blank ↦ elim (Bool-cases have_digit) [
            | inl yes_digit ↦ rw (not_ext, not_hex, blank, yes_digit) lt
            | inr no_digit ↦ rw (not_ext, not_hex, blank, no_digit) (parse_hex-Fits v false cs lt)
          ]
          | inr other ↦ rw (not_ext, not_hex, other) tt
        ]
      ]
    ]

module _ {S : Type 0} (sink : S → List ℕ → SinkResult × S) where
  -- A turn makes the measure less, and keeps the words.
  abbrev pub Progress : ℕ → Turn sink → Type 0
  Progress m (stop f dec s) = HasWords dec
  Progress m (go dec s rest) = HasWords dec × (measure dec rest < m)

  -- A weaker bound.
  more_room : (m : ℕ) (t : Turn sink) → Progress m t → Progress (m + 1) t
  more_room m (stop f dec s) p = p
  more_room m (go dec s rest) p = (p.0, omega (arith, p.1))

  size_known-Progress :
      (dec : ChunkDecoder) (s : S) (c : ℕ) (rest : List ℕ) (o : Option ℕ)
      → HasWords dec
      → FitsIfAny o
      → Progress (2 * length (c ∷ rest)) (size_known sink dec s rest o)
  size_known-Progress dec s c rest none words fits = words
  size_known-Progress dec s c rest (some sz) words fits = elim (Bool-cases (sz == 0)) [
    | inl null ↦ rw null (fits, omega arith)
    | inr positive ↦ rw positive ((fits, omega arith), omega arith)
  ]

  size_byte-Progress :
      (dec : ChunkDecoder) (s : S) (c : ℕ) (rest : List ℕ)
      → HasWords dec
      → dec.state ≡ read_size
      → Progress (2 * length (c ∷ rest)) (size_byte sink dec s c rest)
  size_byte-Progress dec s c rest words e =
      let in_size : in_data dec.state ≡ 0 = ap in_data e in
      elim (Bool-cases (c == 13)) [
        | inl cr ↦ rw cr (words, omega (arith, in_size))
        | inr not_cr ↦ elim (Bool-cases (c == 10)) [
          | inl lf ↦
              rw (not_cr, lf)
                (size_known-Progress dec s c rest (parse_hex_size dec.size_line) words
                  (parse_hex-Fits 0 false dec.size_line (omega arith)))
          | inr not_lf ↦ elim (Bool-cases (leb 31 (length dec.size_line))) [
            | inl long ↦ rw (not_cr, not_lf, long) words
            | inr room ↦ rw (not_cr, not_lf, room) (words, omega (arith, in_size))
          ]
        ]
      ]

  -- The decoder behind a chunk, or in it.
  finished-HasWords :
      (dec : ChunkDecoder)
      → HasWords dec
      → HasWords (finished sink dec) × (in_data (finished sink dec).state ≤ in_data dec.state)
  finished-HasWords dec words = elim (Bool-cases (dec.chunk_read == dec.chunk_size)) [
    | inl all ↦ rw all (words, omega arith)
    | inr part ↦ rw part (words, omega arith)
  ]

  after_sink-Progress :
      (dec : ChunkDecoder) (n : ℕ) (bytes : List ℕ) (r : SinkResult × S)
      → HasWords dec
      → 0 < n
      → n ≤ length bytes
      → Progress (2 * length bytes) (after_sink sink dec n bytes r)
  after_sink-Progress dec n bytes (sink_err, s) words pos le = words
  after_sink-Progress dec n bytes (sink_full, s) words pos le = (words.0, omega arith)
  after_sink-Progress dec n bytes (sink_ok, s) words pos le =
      let dec1 = record dec { chunk_read = (dec.chunk_read + n) % 2 ^ 64 } in
      let (words', smaller) = finished-HasWords dec1 (words.0, omega arith) in
      (words', omega (arith, in_data_le (finished sink dec1).state, length-drop n bytes, pos, le))

  data_bytes-Progress :
      (dec : ChunkDecoder) (s : S) (bytes : List ℕ)
      → HasWords dec
      → dec.state ≡ read_data
      → 0 < length bytes
      → Progress (2 * length bytes + 1) (data_bytes sink dec s bytes)
  data_bytes-Progress dec s bytes words e some_there =
      let n = if ltb (remain sink dec) (length bytes) then remain sink dec else length bytes in
      let le : n ≤ length bytes = ground arith in
      elim (Bool-cases (ltb 0 n)) [
        | inl pos ↦ rw pos (
            more_room (2 * length bytes) (after_sink sink dec n bytes (sink s (take n bytes)))
              (after_sink-Progress dec n bytes (sink s (take n bytes)) words (ltb→lt 0 n pos) le))
        | inr null ↦
            let nothing : n ≡ 0 = ground (arith, null) in
            let whole : dec.chunk_read ≡ dec.chunk_size =
              ground (arith, nothing, words.0, words.1, some_there) in
            let done : (dec.chunk_read == dec.chunk_size) ≡ true = ground (arith, whole) in
            rw (null, done) (words, omega arith)
      ]

  pub turn_in-Progress :
      (st : ChunkState) (dec : ChunkDecoder) (s : S) (c : ℕ) (rest : List ℕ)
      → dec.state ≡ st
      → HasWords dec
      → Progress (2 * length (c ∷ rest) + in_data st) (turn_in sink st dec s c rest)
  turn_in-Progress chunk_done dec s c rest e words = words
  turn_in-Progress read_size dec s c rest e words =
      subst (λ m. Progress m (size_byte sink dec s c rest)) (omega arith)
        (size_byte-Progress dec s c rest words e)
  turn_in-Progress read_data dec s c rest e words =
      data_bytes-Progress dec s (c ∷ rest) words e (omega arith)
  turn_in-Progress expect_cr dec s c rest e words = elim (Bool-cases (c == 13)) [
    | inl cr ↦ rw cr (words, omega arith)
    | inr other ↦ rw other words
  ]
  turn_in-Progress expect_lf dec s c rest e words = elim (Bool-cases (c == 10)) [
    | inl lf ↦ rw lf (words, omega arith)
    | inr other ↦ rw other words
  ]

  -- A result, with a decoder that the next bytes can be given to.
  abbrev pub Returns : Option (Feed × ChunkDecoder × S) → Type 0
  Returns o = (f : Feed) × (dec : ChunkDecoder) × (s : S) × (o ≡ some (f, dec, s)) × HasWords dec

  after_turn-Returns :
      (m : ℕ) (t : Turn sink) (loop : ChunkDecoder → S → List ℕ → Option (Feed × ChunkDecoder × S))
      → Progress m t
      → ((dec : ChunkDecoder) (s : S) (rest : List ℕ)
          → HasWords dec
          → measure dec rest < m
          → Returns (loop dec s rest))
      → Returns (after_turn sink t loop)
  after_turn-Returns m (stop f dec s) loop p next = (returned f, dec, s, refl, p)
  after_turn-Returns m (go dec s rest) loop p next = next dec s rest p.0 p.1

  pub decode-Returns :
      (n : ℕ) (dec : ChunkDecoder) (s : S) (bytes : List ℕ)
      → HasWords dec
      → measure dec bytes ≤ n
      → Returns (decode sink n dec s bytes)
  unfolding decode
  decode-Returns n dec s [] words enough = (more, dec, s, refl, words)
  decode-Returns zero dec s (c ∷ rest) words enough = absurd (omega (arith, enough))
  decode-Returns (suc n) dec s (c ∷ rest) words enough =
      after_turn-Returns (measure dec (c ∷ rest)) (turn_in sink dec.state dec s c rest)
        (decode sink n) (turn_in-Progress dec.state dec s c rest refl words)
        (λ dec' s' rest' words' lt.
          decode-Returns n dec' s' rest' words' (omega (arith, lt, enough)))

-- For any bytes and any sink, the loop of `decode_chunked_bytes` ends, and leaves a decoder whose sizes fit in a
-- `size_t` again.
pub decode_chunked_bytes-Returns :
    {S : Type 0} (sink : S → List ℕ → SinkResult × S) (dec : ChunkDecoder) (s : S) (bytes : List ℕ)
    → HasWords dec
    → Returns sink (decode_chunked_bytes sink dec s bytes)
unfolding decode_chunked_bytes
decode_chunked_bytes-Returns sink dec s bytes words =
    decode-Returns sink (2 * length bytes + 1) dec s bytes words
      (omega (arith, in_data_le dec.state))
