-- ===== src/Net/Http/Stream.antt =====
-- kernel/net/http/http_client.c: it does not matter how the bytes of a chunked body are cut by the network.
use grace_os.Net.Http.{
  ChunkState, read_size, read_data, expect_cr, expect_lf, chunk_done, ChunkDecoder, SinkResult,
  sink_ok, sink_full, sink_err, Stop, Feed, failed, more, returned, ended, Turn, stop, go, remain,
  after_sink, data_bytes, turn_in, after_turn, decode, decode_chunked_bytes,
}
use grace_os.Net.Http.Ends.{
  in_data, Progress, turn_in-Progress, HasWords, decode_chunked_bytes-Returns,
}
use grace_os.Net.Http.Turns.{
  IsSink, extend, SameTurn, read_on, turn_in-extend, first_part, second_part, not_finished,
}
use grace_os.Net.Http.Runs.{Runs, spent, stops, goes, Result, some_eq, decode-RunsTo, Runs-decode}
use grace_os.Prelude.{
  ℕ, zero, suc, ◌+◌, ◌*◌, ◌≤◌, ◌<◌, ◌≡◌, refl, sym, ap, ◌∙◌, ap₂, subst, ◌≢◌, ◌⊎◌, inl, inr, Bool,
  true, false, some, List, [], ◌∷◌, ◌++◌, append-nil, arith, dec_lt, ℕ_discrete, length, drop,
  drop_all,
}

module _ {S : Type 0} (sink : S → List ℕ → SinkResult × S) where
  -- A call for the bytes of two: it returns the same and leaves the sink the same, and the decoder too if it
  -- goes on.
  abbrev Joined : ChunkDecoder → S → List ℕ → Feed → ChunkDecoder → S → Type 0
  Joined dec s bytes f dec2 s2 =
      (d : ChunkDecoder) × Runs sink dec s bytes f d s2 × (f ≡ more → d ≡ dec2)

  abbrev goes_on : Feed → Bool
  goes_on more = true
  goes_on (returned r) = false

  -- The second call begins inside a chunk.
  cut-Runs :
      (dec : ChunkDecoder) (s : S) (c : ℕ) (a : List ℕ) (dec1 : ChunkDecoder) (s1 : S) (b : List ℕ)
      (f : Feed) (dec2 : ChunkDecoder) (s2 : S)
      → Runs sink dec1 s1 b f dec2 s2
      → Runs sink dec s (c ∷ (a ++ [])) more dec1 s1
      → ((c' : ℕ) (b' : List ℕ)
          → b ≡ c' ∷ b'
          → SameTurn sink
              (turn_in sink dec.state dec s c (a ++ b))
              (turn_in sink dec1.state dec1 s1 c' b'))
      → Joined dec s (c ∷ (a ++ b)) f dec2 s2
  cut-Runs dec s c a dec1 s1 [] _ _ _ spent base link = (dec1, base, λ e. refl)
  cut-Runs dec s c a dec1 s1 (c' ∷ b') _ dec2 s2 (stops r e) base link =
      let (d, e') =
        subst (SameTurn sink (turn_in sink dec.state dec s c (a ++ (c' ∷ b')))) e
          (link c' b' refl) in
      (d, stops r e', λ g. absurd (ground (arith, ap goes_on g)))
  cut-Runs dec s c a dec1 s1 (c' ∷ b') f dec2 s2 (goes e run) base link = (
    dec2,
    goes
        (subst (SameTurn sink (turn_in sink dec.state dec s c (a ++ (c' ∷ b')))) e
          (link c' b' refl))
        run,
    λ g. refl,
  )

  not_more :
      (r : Stop) (dec : ChunkDecoder) (s : S) (out : Result sink)
      → some (returned r, dec, s) ≡ some out
      → out.0 ≡ more
      → ⊥
  not_more r dec s out h m =
      ground (arith, ap goes_on (ap (λ o. o.0) (some_eq sink (returned r, dec, s) out h) ∙ m))

  data_state : (st : ChunkState) → in_data st ≢ 0 → st ≡ read_data
  data_state read_size ne = absurd (ne refl)
  data_state read_data ne = refl
  data_state expect_cr ne = absurd (ne refl)
  data_state expect_lf ne = absurd (ne refl)
  data_state chunk_done ne = absurd (ne refl)

  -- The first call returned 0.
  module _ (law : IsSink sink) (out : Result sink) (on : out.0 ≡ more) (b : List ℕ) (f : Feed)
      (dec2 : ChunkDecoder) (s2 : S) (run : Runs sink out.1 out.2 b f dec2 s2) where
    whole_Joined :
        (n m : ℕ) (dec : ChunkDecoder) (s : S) (c : ℕ) (a : List ℕ) (t : Turn sink)
        → turn_in sink dec.state dec s c a ≡ t
        → turn_in sink dec.state dec s c (a ++ b) ≡ extend sink b (turn_in sink dec.state dec s c a)
        → Progress sink m t
        → after_turn sink t (decode sink n) ≡ some out
        → ((dec' : ChunkDecoder) (s' : S) (a' : List ℕ)
            → HasWords dec'
            → decode sink n dec' s' a' ≡ some out
            → Joined dec' s' (a' ++ b) f dec2 s2)
        → Joined dec s (c ∷ (a ++ b)) f dec2 s2
    whole_Joined n m dec s c a (stop r dec' s') e ext p h next =
        absurd (not_more r dec' s' out h on)
    whole_Joined n m dec s c a (go dec' s' a') e ext p h next =
        let (d, later, same) = next dec' s' a' p.0 h in
        (d, goes (ext ∙ ap (extend sink b) e) later, same)

    -- What is left of the first call in the middle of a chunk.
    cut_Joined :
        (n : ℕ) (dec : ChunkDecoder) (s : S) (c : ℕ) (a : List ℕ) (r : SinkResult × S)
        → dec.state ≡ read_data
        → HasWords dec
        → length (c ∷ a) < remain sink dec
        → sink s (c ∷ a) ≡ r
        → after_turn sink (after_sink sink dec (length (c ∷ a)) (c ∷ a) r) (decode sink n)
          ≡ some out
        → Joined dec s (c ∷ (a ++ b)) f dec2 s2
    unfolding decode
    cut_Joined n dec s c a (sink_err, s') st words cut took h =
        absurd (not_more failed _ _ out h on)
    cut_Joined n dec s c a (sink_full, s') st words cut took h =
        absurd (not_more ended _ _ out h on)
    cut_Joined n dec s c a (sink_ok, s') st words cut took h =
        let xs = c ∷ a in
        let some_there : 0 < length xs = omega arith in
        let dec1 = read_on sink dec (length xs) in
        let none_left : drop (length xs) xs ≡ [] =
          ap (drop (length xs)) (sym (append-nil xs)) ∙ drop_all xs [] in
        let kept : after_sink sink dec (length xs) xs (sink_ok, s') ≡ go dec1 s' [] =
          ap₂ (λ d rest. go d s' rest) (not_finished sink dec s xs words cut some_there)
            none_left in
        let at_end : (more, dec1, s') ≡ out =
          some_eq sink (more, dec1, s') out
            (sym (ap (λ t. after_turn sink t (decode sink n)) kept) ∙ h) in
        let turn : turn_in sink dec.state dec s c a ≡ go dec1 s' [] =
          ap (λ k. turn_in sink k dec s c a) st
          ∙ (first_part sink dec s xs words cut some_there
              ∙ (ap (after_sink sink dec (length xs) xs) took ∙ kept)) in
        let base : Runs sink dec s (c ∷ (a ++ [])) more dec1 s' =
          subst (λ rest. Runs sink dec s (c ∷ rest) more dec1 s') (sym (append-nil a))
            (goes turn spent) in
        cut-Runs dec s c a dec1 s' b f dec2 s2
          (subst (λ o. Runs sink o.1 o.2 b f dec2 s2) (sym at_end) run) base
          (λ c' b' e.
            subst
              (λ k. SameTurn sink (turn_in sink k dec s c (a ++ b)) (turn_in sink k dec1 s' c' b'))
              (sym st)
              (subst
                (λ l. SameTurn sink (data_bytes sink dec s (xs ++ b)) (data_bytes sink dec1 s' l)) e
                (second_part sink dec s xs words cut some_there s' b law took
                  (omega (arith, ap length e)))))

    append_Joined :
        (n : ℕ) (dec : ChunkDecoder) (s : S) (a : List ℕ)
        → HasWords dec
        → decode sink n dec s a ≡ some out
        → Joined dec s (a ++ b) f dec2 s2
    unfolding decode
    append_Joined n dec s [] words h = (
      dec2,
      subst (λ o. Runs sink o.1 o.2 b f dec2 s2) (sym (some_eq sink (more, dec, s) out h)) run,
      λ e. refl,
    )
    append_Joined zero dec s (c ∷ a) words h = absurd (cc)
    append_Joined (suc n) dec s (c ∷ a) words h =
        let whole = λ (w : (in_data dec.state ≡ 0) ⊎ (remain sink dec ≤ length (c ∷ a))).
          whole_Joined n _ dec s c a (turn_in sink dec.state dec s c a) refl
            (turn_in-extend sink dec.state dec s c a b w)
            (turn_in-Progress sink dec.state dec s c a refl words) h
            (λ dec' s' a' words' h'. append_Joined n dec' s' a' words' h') in
        elim (ℕ_discrete (in_data dec.state) 0) [
          | yes outside ↦ whole (inl outside)
          | no inside ↦ elim (dec_lt (length (c ∷ a)) (remain sink dec)) [
            | no ends_here ↦ whole (inr (omega (arith, ends_here)))
            | yes cut ↦
                let st = data_state dec.state inside in
                let turn : turn_in sink dec.state dec s c a
                    ≡ after_sink sink dec (length (c ∷ a)) (c ∷ a) (sink s (c ∷ a)) =
                  ap (λ k. turn_in sink k dec s c a) st
                  ∙ first_part sink dec s (c ∷ a) words cut (omega arith) in
                cut_Joined n dec s c a (sink s (c ∷ a)) st words cut refl
                  (sym (ap (λ t. after_turn sink t (decode sink n)) turn) ∙ h)
          ]
        ]

-- When a call for some bytes returns 0, the call for the bytes behind them returns what one call for all of them
-- returns and leaves the sink the same; if it returns 0 as well, the decoder is left the same too. The sink is one
-- that takes bytes in two parts as it takes them at once.
pub decode_chunked_bytes-append :
    {S : Type 0} (sink : S → List ℕ → SinkResult × S) (dec : ChunkDecoder) (s : S) (a b : List ℕ)
    (dec1 : ChunkDecoder) (s1 : S) (f : Feed) (dec2 : ChunkDecoder) (s2 : S)
    → IsSink sink
    → HasWords dec
    → decode_chunked_bytes sink dec s a ≡ some (more, dec1, s1)
    → decode_chunked_bytes sink dec1 s1 b ≡ some (f, dec2, s2)
    → (d : ChunkDecoder) × (decode_chunked_bytes sink dec s (a ++ b) ≡ some (f, d, s2))
      × (f ≡ more → d ≡ dec2)
unfolding decode_chunked_bytes
decode_chunked_bytes-append sink dec s a b dec1 s1 f dec2 s2 law words first second =
    let later = decode-RunsTo sink (2 * length b + 1) dec1 s1 b (f, dec2, s2) second in
    let (d, run, same) =
      append_Joined sink law (more, dec1, s1) refl b f dec2 s2 later (2 * length a + 1) dec s a
        words first in
    let (f', d', s', e, words') = decode_chunked_bytes-Returns sink dec s (a ++ b) words in
    let equal =
      Runs-decode sink (2 * length (a ++ b) + 1) dec s (a ++ b) f d s2 (f', d', s') run e in
    (d, e ∙ ap some equal, same)
