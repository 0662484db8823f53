-- ===== src/Observer/Ambient/Cap.antt =====
-- The cap on the length of an utterance.
use agent_voca.Prelude.{
  ℕ, ◌+◌, ◌-◌, ◌≤◌, true, none, List, [], ◌∷◌, ◌++◌, ◌≡◌, refl, ap, sym, ◌∙◌, arith, append_assoc,
  append-nil,
}
use agent_voca.Observer.Ambient.{
  Audio, speaking, Settings, Listener, join, emit_utterance, silence_from, is_silent_long,
  split_utterance, process_speaking, process_block,
}

module _ (cfg : Settings) where
  join-append : (bs : List Audio) (b : Audio) → join (bs ++ b ∷ []) ≡ join bs ++ b
  unfolding join
  join-append [] b = append-nil b
  join-append (b' ∷ bs) b = ap (◌++◌ b') (join-append bs b) ∙ sym (append_assoc b' (join bs) b)

  emit_long :
      (s : Listener) (b : Audio) (bs : List Audio)
      → s.utterance ≡ b ∷ bs
      → cfg.min_utterance_ms ≤ s.last_ts_ms - s.utterance_start_ts_ms
      → (emit_utterance cfg s).emitted
        ≡ s.emitted
          ++ record {
            audio = join s.utterance;
            ts_ms = s.utterance_start_ts_ms;
            duration_ms = s.last_ts_ms - s.utterance_start_ts_ms;
          }
            ∷ []
  unfolding emit_utterance
  emit_long s b bs h d = ground (arith, h, d)

  speaking_cap :
      (audio_bytes : Audio) (ts_ms : ℕ) (s : Listener)
      → s.state ≡ speaking
      → s.utterance_start_ts_ms + cfg.max_utterance_ms ≤ ts_ms
      → process_block cfg audio_bytes ts_ms true s
        ≡ split_utterance cfg audio_bytes ts_ms (record s {
          last_ts_ms = ts_ms;
          utterance = s.utterance ++ audio_bytes ∷ [];
          silence_start_ts_ms = none;
        })
  unfolding process_block process_speaking silence_from is_silent_long
  speaking_cap audio_bytes ts_ms s h m = ground (arith, h, m)

  snoc_is_cons :
      (bs : List Audio) (b : Audio) → (c : Audio) × (cs : List Audio) × (bs ++ b ∷ [] ≡ c ∷ cs)
  snoc_is_cons [] b = (b, [], refl)
  snoc_is_cons (c ∷ cs) b = (c, cs ++ b ∷ [], refl)

  -- When a voiced block reaches the cap of an utterance that lasts long enough to be emitted, the
  -- block is heard twice: it ends the emitted utterance, and it is the beginning of the next one.
  pub process_block-overlaps :
      (audio_bytes : Audio) (ts_ms : ℕ) (s : Listener)
      → s.state ≡ speaking
      → s.utterance_start_ts_ms + cfg.max_utterance_ms ≤ ts_ms
      → cfg.min_utterance_ms ≤ ts_ms - s.utterance_start_ts_ms
      → let s' = process_block cfg audio_bytes ts_ms true s in
        (s'.utterance ≡ audio_bytes ∷ [])
        × (s'.emitted
            ≡ s.emitted
              ++ record {
                audio = join s.utterance ++ audio_bytes;
                ts_ms = s.utterance_start_ts_ms;
                duration_ms = ts_ms - s.utterance_start_ts_ms;
              }
                ∷ [])
  unfolding split_utterance
  process_block-overlaps audio_bytes ts_ms s h m d =
      let s' = record s {
        last_ts_ms = ts_ms;
        utterance = s.utterance ++ audio_bytes ∷ [];
        silence_start_ts_ms = none;
      } in
      let (c, cs, e) = snoc_is_cons s.utterance audio_bytes in
      let cap = speaking_cap audio_bytes ts_ms s h m in
      (
        ap (λ (r : Listener). r.utterance) cap,
        ap (λ (r : Listener). r.emitted) cap
            ∙ emit_long s' c cs e d
            ∙ ap
                (λ (a : Audio).
                  s.emitted
                  ++ record {
                    audio = a;
                    ts_ms = s.utterance_start_ts_ms;
                    duration_ms = ts_ms - s.utterance_start_ts_ms;
                  }
                    ∷ [])
                (join-append s.utterance audio_bytes),
      )
