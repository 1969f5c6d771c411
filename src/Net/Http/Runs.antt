-- ===== src/Net/Http/Runs.antt =====
-- kernel/net/http/http_client.c: the loop of the chunk decoder as a relation.
use grace_os.Net.Http.{
  ChunkDecoder, SinkResult, Stop, Feed, more, returned, Turn, stop, go, turn_in, after_turn, decode,
}
use grace_os.Prelude.{
  ℕ, zero, suc, ◌≡◌, refl, sym, ap, ◌∙◌, subst, Option, none, some, List, [], ◌∷◌,
}

module _ {S : Type 0} (sink : S → List ℕ → SinkResult × S) where
  -- The loop as a relation: the decoder and the sink at the end of a call.
  pub data Runs : ChunkDecoder → S → List ℕ → Feed → ChunkDecoder → S → Type 0 where
    spent : {dec : ChunkDecoder} {s : S} → Runs dec s [] more dec s
    stops :
        {dec dec' : ChunkDecoder} {s s' : S} {c : ℕ} {rest : List ℕ} (r : Stop)
        → turn_in sink dec.state dec s c rest ≡ stop r dec' s'
        → Runs dec s (c ∷ rest) (returned r) dec' s'
    goes :
        {dec dec1 dec' : ChunkDecoder} {s s1 s' : S} {c : ℕ} {rest rest1 : List ℕ} {f : Feed}
        → turn_in sink dec.state dec s c rest ≡ go dec1 s1 rest1
        → Runs dec1 s1 rest1 f dec' s'
        → Runs dec s (c ∷ rest) f dec' s'

  abbrev pub Result : Type 0
  Result = Feed × ChunkDecoder × S

  abbrev pub RunsTo : ChunkDecoder → S → List ℕ → Result → Type 0
  RunsTo dec s bytes (f, dec', s') = Runs dec s bytes f dec' s'

  abbrev value_or : Result → Option Result → Result
  value_or d none = d
  value_or d (some r) = r

  pub some_eq : (a b : Result) → some a ≡ some b → a ≡ b
  some_eq a b e = ap (value_or a) e

  turn_RunsTo :
      (n : ℕ) (dec : ChunkDecoder) (s : S) (c : ℕ) (rest : List ℕ) (out : Result) (t : Turn sink)
      → turn_in sink dec.state dec s c rest ≡ t
      → after_turn sink t (decode sink n) ≡ some out
      → ((dec' : ChunkDecoder) (s' : S) (rest' : List ℕ)
          → decode sink n dec' s' rest' ≡ some out
          → RunsTo dec' s' rest' out)
      → RunsTo dec s (c ∷ rest) out
  turn_RunsTo n dec s c rest out (stop r dec' s') e h next =
      subst (RunsTo dec s (c ∷ rest)) (some_eq (returned r, dec', s') out h) (stops r e)
  turn_RunsTo n dec s c rest out (go dec' s' rest') e h next = goes e (next dec' s' rest' h)

  pub decode-RunsTo :
      (n : ℕ) (dec : ChunkDecoder) (s : S) (bytes : List ℕ) (out : Result)
      → decode sink n dec s bytes ≡ some out
      → RunsTo dec s bytes out
  unfolding decode
  decode-RunsTo n dec s [] out h = subst (RunsTo dec s []) (some_eq (more, dec, s) out h) spent
  decode-RunsTo zero dec s (c ∷ rest) out h = absurd (cc)
  decode-RunsTo (suc n) dec s (c ∷ rest) out h =
      turn_RunsTo n dec s c rest out (turn_in sink dec.state dec s c rest) refl h
        (λ dec' s' rest' h'. decode-RunsTo n dec' s' rest' out h')

  pub Runs-decode :
      (n : ℕ) (dec : ChunkDecoder) (s : S) (bytes : List ℕ) (f : Feed) (dec' : ChunkDecoder)
      (s' : S) (out : Result)
      → Runs dec s bytes f dec' s'
      → decode sink n dec s bytes ≡ some out
      → out ≡ (f, dec', s')
  unfolding decode
  Runs-decode n dec s [] _ _ _ out spent h = sym (some_eq (more, dec, s) out h)
  Runs-decode zero dec s (c ∷ rest) f dec' s' out run h = absurd (cc)
  Runs-decode (suc n) dec s (c ∷ rest) _ dec' s' out (stops r e) h =
      sym (
        some_eq (returned r, dec', s') out
          (sym (ap (λ t. after_turn sink t (decode sink n)) e) ∙ h))
  Runs-decode (suc n) dec s (c ∷ rest) f dec' s' out
        (goes {dec1 = dec1} {s1 = s1} {rest1 = rest1} e run) h =
      Runs-decode n dec1 s1 rest1 f dec' s' out run
        (sym (ap (λ t. after_turn sink t (decode sink n)) e) ∙ h)
