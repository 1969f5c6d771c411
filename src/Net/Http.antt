-- ===== src/Net/Http.antt =====
-- kernel/net/http/http_client.c: the decoder of chunked bodies. The sink is an argument: a state and what it does
-- with some bytes.
pub mod Ends
pub mod Turns
pub mod Runs
pub mod Stream
pub mod Sink
use grace_os.Prelude.{
  ℕ, zero, suc, ◌+◌, ◌-◌, ◌*◌, ◌%◌, ◌^◌, Bool, true, false, ◌&&◌, ◌||◌, Option, none, some, List,
  [], ◌∷◌, ◌++◌, ltb, leb, ◌==◌, if◌then◌else◌, length, take, drop,
}

pub data ChunkState : Type 0 where
  read_size read_data expect_cr expect_lf chunk_done : ChunkState

-- `size_line_len` is the length of the list.
pub record ChunkDecoder : Type 0 where
  pub state : ChunkState
  pub chunk_size : ℕ
  pub chunk_read : ℕ
  pub size_line : List ℕ

pub data SinkResult : Type 0 where
  sink_ok sink_full sink_err : SinkResult

-- `http_buffer_sink`, with room for `cap` bytes; `used` is the length of the list.
unfoldable pub http_buffer_sink : ℕ → List ℕ → List ℕ → SinkResult × List ℕ
http_buffer_sink cap out bytes =
    let avail = cap - length out in
    let to_copy = if leb (length bytes) avail then length bytes else avail in
    if leb cap (length out)
    then (sink_full, out)
    else (if ltb to_copy (length bytes) then sink_full else sink_ok, out ++ take to_copy bytes)

abbrev pub between : ℕ → ℕ → ℕ → Bool
between lo hi c = leb lo c && leb c hi

abbrev pub is_hex : ℕ → Bool
is_hex c = between 48 57 c || between 97 102 c || between 65 70 c

abbrev pub hex_value : ℕ → ℕ
hex_value c = if between 48 57 c then c - 48 else if between 97 102 c then c - 87 else c - 55

-- `(v << 4) + d`
abbrev pub shifted : ℕ → ℕ → ℕ
shifted v c = (v * 16 % 2 ^ 64 + hex_value c) % 2 ^ 64

-- The loop from the value `v` on, with whether there was a digit. None is -1.
unfoldable pub parse_hex : ℕ → Bool → List ℕ → Option ℕ
parse_hex v have_digit [] = if have_digit then some v else none
parse_hex v have_digit (c ∷ cs) =
    let skipped = parse_hex v have_digit cs in
    let added = parse_hex (shifted v c) true cs in
    if c == 59
    then if have_digit then some v else none
    else if is_hex c
    then if ltb (shifted v c) v then none else added
    else if c == 32 || c == 9
    then if have_digit then some v else skipped
    else none

abbrev pub parse_hex_size : List ℕ → Option ℕ
parse_hex_size s = parse_hex 0 false s

-- -1 and 1
pub data Stop : Type 0 where
  failed ended : Stop

-- What a call returns: 0, or one of those.
pub data Feed : Type 0 where
  more : Feed
  returned : Stop → Feed

module _ {S : Type 0} (sink : S → List ℕ → SinkResult × S) where
  -- What a turn of the loop does: the call returns, or the loop goes on with the bytes left.
  pub data Turn : Type 0 where
    stop : Stop → ChunkDecoder → S → Turn
    go : ChunkDecoder → S → List ℕ → Turn

  -- The end of the line with the size.
  abbrev pub size_known : ChunkDecoder → S → List ℕ → Option ℕ → Turn
  size_known dec s rest none = stop failed dec s
  size_known dec s rest (some sz) =
      let dec1 = record dec { chunk_size = sz; chunk_read = 0; size_line = [] } in
      if sz == 0
      then stop ended (record dec1 { state = chunk_done }) s
      else go (record dec1 { state = read_data }) s rest

  abbrev pub size_byte : ChunkDecoder → S → ℕ → List ℕ → Turn
  size_byte dec s c rest =
      if c == 13
      then go dec s rest
      else if c == 10
      then size_known dec s rest (parse_hex_size dec.size_line)
      else if leb 31 (length dec.size_line)
      then stop failed dec s
      else go (record dec { size_line = dec.size_line ++ (c ∷ []) }) s rest

  abbrev pub remain : ChunkDecoder → ℕ
  remain dec = (dec.chunk_size + 2 ^ 64 - dec.chunk_read) % 2 ^ 64

  abbrev pub finished : ChunkDecoder → ChunkDecoder
  finished dec = if dec.chunk_read == dec.chunk_size then record dec { state = expect_cr } else dec

  -- After the sink got `n` of the bytes.
  abbrev pub after_sink : ChunkDecoder → ℕ → List ℕ → SinkResult × S → Turn
  after_sink dec n bytes (sink_err, s) = stop failed dec s
  after_sink dec n bytes (sink_full, s) =
      stop ended (record dec { chunk_read = (dec.chunk_read + n) % 2 ^ 64 }) s
  after_sink dec n bytes (sink_ok, s) =
      go (finished (record dec { chunk_read = (dec.chunk_read + n) % 2 ^ 64 })) s (drop n bytes)

  abbrev pub data_bytes : ChunkDecoder → S → List ℕ → Turn
  data_bytes dec s bytes =
      let n = if ltb (remain dec) (length bytes) then remain dec else length bytes in
      if ltb 0 n then after_sink dec n bytes (sink s (take n bytes)) else go (finished dec) s bytes

  abbrev pub turn_in : ChunkState → ChunkDecoder → S → ℕ → List ℕ → Turn
  turn_in chunk_done dec s c rest = stop ended dec s
  turn_in read_size dec s c rest = size_byte dec s c rest
  turn_in read_data dec s c rest = data_bytes dec s (c ∷ rest)
  turn_in expect_cr dec s c rest =
      if c == 13 then go (record dec { state = expect_lf }) s rest else stop failed dec s
  turn_in expect_lf dec s c rest =
      if c == 10 then go (record dec { state = read_size }) s rest else stop failed dec s

  -- After a turn, with the loop that would follow it.
  abbrev pub after_turn :
      Turn
      → (ChunkDecoder → S → List ℕ → Option (Feed × ChunkDecoder × S))
      → Option (Feed × ChunkDecoder × S)
  after_turn (stop r dec s) loop = some (returned r, dec, s)
  after_turn (go dec s rest) loop = loop dec s rest

  -- The loop, on fuel.
  unfoldable pub decode : ℕ → ChunkDecoder → S → List ℕ → Option (Feed × ChunkDecoder × S)
  decode n dec s [] = some (more, dec, s)
  decode zero dec s (c ∷ rest) = none
  decode (suc n) dec s (c ∷ rest) = after_turn (turn_in dec.state dec s c rest) (decode n)

  -- A turn takes a byte or ends a chunk.
  unfoldable pub decode_chunked_bytes : ChunkDecoder → S → List ℕ → Option (Feed × ChunkDecoder × S)
  decode_chunked_bytes dec s bytes = decode (2 * length bytes + 1) dec s bytes
