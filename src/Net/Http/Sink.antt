-- ===== src/Net/Http/Sink.antt =====
-- kernel/net/http/http_client.c: the buffer as a sink.
use grace_os.Net.Http.{sink_ok, sink_full, http_buffer_sink}
use grace_os.Net.Http.Turns.{IsSink, then_sink}
use grace_os.Prelude.{
  ℕ, ◌+◌, ◌-◌, ◌≤◌, ◌<◌, ◌≡◌, refl, sym, ap, ◌∙◌, ◌≢◌, inl, inr, true, false, List, [], ◌++◌,
  append-nil, append_assoc, arith, dec_lt, ltb, leb, if◌then◌else◌, Bool-cases, length,
  length-append, take, take_all, take-append, take_past,
}

-- What the buffer does with bytes that fit, and with others.
buffer_fits :
    (cap : ℕ) (out bytes : List ℕ)
    → length out < cap
    → length out + length bytes ≤ cap
    → http_buffer_sink cap out bytes ≡ (sink_ok, out ++ bytes)
unfolding http_buffer_sink
buffer_fits cap out bytes room fits =
    let not_full : leb cap (length out) ≡ false = ground (arith, room) in
    let n : (if leb (length bytes) (cap - length out) then length bytes else cap - length out)
        ≡ length bytes =
      ground (arith, fits) in
    let all : ltb (length bytes) (length bytes) ≡ false = ground arith in
    let whole : take (length bytes) bytes ≡ bytes =
      ap (take (length bytes)) (sym (append-nil bytes)) ∙ take_all bytes [] in
    rw (not_full, n, all, whole) refl

buffer_full :
    (cap : ℕ) (out bytes : List ℕ)
    → 0 < length bytes
    → cap ≤ length out + length bytes
    → cap ≢ length out + length bytes
    → http_buffer_sink cap out bytes ≡ (sink_full, out ++ take (cap - length out) bytes)
unfolding http_buffer_sink
buffer_full cap out bytes pos over ne = elim (Bool-cases (leb cap (length out))) [
  | inl full ↦
      let none_left : cap - length out ≡ 0 = ground (arith, full) in
      rw (full, none_left) (ap (λ l. (sink_full, l)) (sym (append-nil out)))
  | inr room ↦
      let n : (if leb (length bytes) (cap - length out) then length bytes else cap - length out)
          ≡ cap - length out =
        ground (arith, over, ne, room) in
      let cut : ltb (cap - length out) (length bytes) ≡ true = ground (arith, over, ne, room) in
      rw (room, n, cut) refl
]

-- The buffer takes bytes in two parts as it takes them at once.
pub http_buffer_sink-IsSink : (cap : ℕ) → IsSink (http_buffer_sink cap)
http_buffer_sink-IsSink cap out xs ys pos pos' =
    let long = length-append xs ys in
    let after = length-append out xs in
    let room = cap - length out in
    elim (dec_lt cap (length out + length xs)) [
      | yes over ↦
          let at_once =
            buffer_full cap out (xs ++ ys) (omega (arith, long, pos)) (omega (arith, long, over))
              (omega (arith, long, over)) in
          let first = buffer_full cap out xs pos (omega (arith, over)) (omega (arith, over)) in
          at_once
          ∙ ap (λ l. (sink_full, out ++ l)) (take-append room xs ys (omega (arith, over)))
          ∙ sym (ap (λ r. then_sink (http_buffer_sink cap) r ys) first)
      | no fits ↦
          let first = buffer_fits cap out xs (omega (arith, fits, pos)) (omega (arith, fits)) in
          let then_first = ap (λ r. then_sink (http_buffer_sink cap) r ys) first in
          elim (dec_lt cap (length out + length (xs ++ ys))) [
            | no all ↦
                buffer_fits cap out (xs ++ ys) (omega (arith, fits, pos)) (omega (arith, all))
                ∙ ap (λ l. (sink_ok, l)) (sym (append_assoc out xs ys))
                ∙ sym (
                    then_first
                    ∙ buffer_fits cap (out ++ xs) ys (omega (arith, all, long, after, pos'))
                        (omega (arith, all, long, after)))
            | yes over ↦
                let left : cap - length (out ++ xs) ≡ room - length xs = omega (arith, after) in
                let split : room ≡ length xs + (room - length xs) = omega (arith, fits) in
                buffer_full cap out (xs ++ ys) (omega (arith, long, pos)) (omega (arith, over))
                  (omega (arith, over))
                ∙ ap (λ k. (sink_full, out ++ take k (xs ++ ys))) split
                ∙ ap (λ l. (sink_full, out ++ l)) (take_past xs ys (room - length xs))
                ∙ ap (λ l. (sink_full, l)) (sym (append_assoc out xs (take (room - length xs) ys)))
                ∙ sym (
                    then_first
                    ∙ (buffer_full cap (out ++ xs) ys pos' (omega (arith, over, long, after))
                          (omega (arith, over, long, after))
                        ∙ ap (λ k. (sink_full, (out ++ xs) ++ take k ys)) left))
          ]
    ]
