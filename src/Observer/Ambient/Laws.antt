-- ===== src/Observer/Ambient/Laws.antt =====
-- What the listener keeps from block to block.
use mathlib.Core.Path.{subst}
use agent_voca.Prelude.{
  ℕ, ltb, leb, suc, ◌+◌, ◌-◌, ◌≤◌, Bool, true, false, Option, none, some, List, [], ◌∷◌, ◌++◌, ◌≡◌,
  ◌≢◌, refl, ap, sym, ◌∙◌, length, length-append, length-drop, All-snoc, arith, map, All,
  Bool-cases, inl, inr,
}
use agent_voca.Observer.Ambient.{
  Audio, ListenerState, idle, speaking, Utterance, Settings, Listener, init, join, push_preroll,
  reset_to_idle, emit_utterance, process_idle, silence_from, is_silent_long, split_utterance,
  process_speaking, process_block, on_flush,
}

abbrev pub IsCollecting : ListenerState → Listener → Type 0
IsCollecting idle s = s.utterance ≡ []
IsCollecting speaking s = (s.utterance ≢ []) × (s.preroll ≡ [])

-- While idle nothing is being collected; while speaking something is, and the pre-roll, which never
-- outgrows its bound, is empty. Every emitted utterance lasts the minimum, and they are counted.
abbrev pub IsWellFormed : Settings → Listener → Type 0
IsWellFormed cfg s =
    IsCollecting s.state s
    × (length s.preroll ≤ cfg.preroll_blocks)
    × All (λ u. cfg.min_utterance_ms ≤ u.duration_ms) s.emitted
    × (s.utterance_count ≡ length s.emitted)

push_preroll-bound :
    (n : ℕ) (l : List (Audio × ℕ)) (b : Audio × ℕ) → length (push_preroll n l b) ≤ n
unfolding push_preroll
push_preroll-bound n l b =
    omega (arith, length-drop (suc (length l) - n) (l ++ b ∷ []), length-append l (b ∷ []))

snoc_nonempty : {A : Type 0} (xs : List A) (x : A) → (xs ++ x ∷ []) ≢ []
snoc_nonempty [] x h = ground arith
snoc_nonempty (y ∷ xs) x h = ground arith

-- What emitting leaves, whatever the state: nothing collected, and the rest as it was.
abbrev Emits : Settings → Listener → Type 0
Emits cfg s =
    (s.utterance ≡ [])
    × All (λ u. cfg.min_utterance_ms ≤ u.duration_ms) s.emitted
    × (s.utterance_count ≡ length s.emitted)

module _ (cfg : Settings) where
  emit_utterance-Emits_of :
      (s : Listener) (blocks : List Audio)
      → s.utterance ≡ blocks
      → All (λ u. cfg.min_utterance_ms ≤ u.duration_ms) s.emitted
      → s.utterance_count ≡ length s.emitted
      → Emits cfg (emit_utterance cfg s)
  unfolding emit_utterance
  emit_utterance-Emits_of s [] h a c =
      let e : emit_utterance cfg s ≡ s = ground (arith, h) in subst (Emits cfg) (sym e) (h, a, c)
  emit_utterance-Emits_of s (b ∷ bs) h a c =
      let u : Utterance = record {
        audio = join s.utterance;
        ts_ms = s.utterance_start_ts_ms;
        duration_ms = s.last_ts_ms - s.utterance_start_ts_ms;
      } in
      elim (Bool-cases (ltb u.duration_ms cfg.min_utterance_ms)) [
        | inl k ↦
            let e : emit_utterance cfg s ≡ record s { utterance = [] } = ground (arith, h, k) in
            subst (Emits cfg) (sym e) (refl, a, c)
        | inr k ↦
            let e : emit_utterance cfg s ≡ record s {
              utterance = [];
              utterance_count = s.utterance_count + 1;
              emitted = s.emitted ++ u ∷ [];
            } =
              ground (arith, h, k) in
            let long : cfg.min_utterance_ms ≤ u.duration_ms = ground (arith, k) in
            subst (Emits cfg) (sym e) (
              refl,
              All-snoc (λ v. cfg.min_utterance_ms ≤ v.duration_ms) s.emitted u a long,
              omega (arith, c, length-append s.emitted (u ∷ [])),
            )
      ]

  emit_keeps :
      (s : Listener)
      → ((emit_utterance cfg s).state ≡ s.state) × ((emit_utterance cfg s).preroll ≡ s.preroll)
  unfolding emit_utterance
  emit_keeps s = ground arith

  process_idle-IsWellFormed :
      (audio_bytes : Audio) (ts_ms : ℕ) (is_speech : Bool) (s : Listener)
      → s.state ≡ idle
      → IsWellFormed cfg s
      → IsWellFormed cfg (process_idle cfg audio_bytes ts_ms is_speech s)
  unfolding process_idle
  process_idle-IsWellFormed audio_bytes ts_ms true s h (w, p, a, c) =
      ((snoc_nonempty (map (λ b. b.0) s.preroll) audio_bytes, refl), omega arith, a, c)
  process_idle-IsWellFormed audio_bytes ts_ms false s h (w, p, a, c) = (
    subst (λ x. IsCollecting x (process_idle cfg audio_bytes ts_ms false s)) (sym h)
        (subst (λ x. IsCollecting x s) h w),
    push_preroll-bound cfg.preroll_blocks s.preroll (audio_bytes, ts_ms),
    a,
    c,
  )

  -- The three ways of a block while speaking.
  reset-IsWellFormed : (s : Listener) → Emits cfg s → IsWellFormed cfg (reset_to_idle s)
  reset-IsWellFormed s (e, a, c) = (refl, omega arith, a, c)

  split-IsWellFormed :
      (audio_bytes : Audio) (ts_ms : ℕ) (s : Listener)
      → s.state ≡ speaking
      → s.preroll ≡ []
      → Emits cfg (emit_utterance cfg s)
      → IsWellFormed cfg (split_utterance cfg audio_bytes ts_ms s)
  unfolding split_utterance
  split-IsWellFormed audio_bytes ts_ms s h p (e, a, c) =
      let (k, q) = emit_keeps s in
      (
        subst (λ x. IsCollecting x (split_utterance cfg audio_bytes ts_ms s)) (sym (k ∙ h))
            (snoc_nonempty [] audio_bytes, q ∙ p),
        omega (arith, ap length (q ∙ p)),
        a,
        c,
      )

  grown-IsWellFormed :
      (audio_bytes : Audio) (silence : Option ℕ) (s : Listener)
      → s.state ≡ speaking
      → s.preroll ≡ []
      → All (λ u. cfg.min_utterance_ms ≤ u.duration_ms) s.emitted
      → s.utterance_count ≡ length s.emitted
      → IsWellFormed cfg
          (record s { utterance = s.utterance ++ audio_bytes ∷ []; silence_start_ts_ms = silence })
  grown-IsWellFormed audio_bytes silence s h p a c = (
    subst
        (λ x.
          IsCollecting x (record s {
            utterance = s.utterance ++ audio_bytes ∷ [];
            silence_start_ts_ms = silence;
          }))
        (sym h) (snoc_nonempty s.utterance audio_bytes, p),
    omega (arith, ap length p),
    a,
    c,
  )

  process_speaking-IsWellFormed :
      (audio_bytes : Audio) (ts_ms : ℕ) (is_speech : Bool) (s : Listener)
      → s.state ≡ speaking
      → IsWellFormed cfg s
      → IsWellFormed cfg (process_speaking cfg audio_bytes ts_ms is_speech s)
  unfolding process_speaking
  process_speaking-IsWellFormed audio_bytes ts_ms is_speech s h (w, p, a, c) =
      let silence = silence_from cfg s.silence_start_ts_ms ts_ms is_speech in
      let s' = record s {
        utterance = s.utterance ++ audio_bytes ∷ [];
        silence_start_ts_ms = silence;
      } in
      let empty : s.preroll ≡ [] = (subst (λ x. IsCollecting x s) h w).1 in
      let emits = emit_utterance-Emits_of s' s'.utterance refl a c in
      elim (Bool-cases (is_silent_long cfg silence ts_ms)) [
        | inl k ↦ rw k (reset-IsWellFormed (emit_utterance cfg s') emits)
        | inr k ↦ elim (Bool-cases (leb (s.utterance_start_ts_ms + cfg.max_utterance_ms) ts_ms)) [
          | inl m ↦ rw (k, m) (split-IsWellFormed audio_bytes ts_ms s' h empty emits)
          | inr m ↦ rw (k, m) (grown-IsWellFormed audio_bytes silence s h empty a c)
        ]
      ]

  touched :
      (x : ListenerState) (s : Listener) (t : ℕ)
      → IsCollecting x s
      → IsCollecting x (record s { last_ts_ms = t })
  touched idle s t w = w
  touched speaking s t w = w

  by_state :
      (x : ListenerState) (a b : Listener)
      → ((x ≡ idle) → IsWellFormed cfg a)
      → ((x ≡ speaking) → IsWellFormed cfg b)
      → IsWellFormed cfg (elim x [ idle ↦ a | speaking ↦ b ])
  by_state idle a b p q = p refl
  by_state speaking a b p q = q refl

  process_block-IsWellFormed :
      (audio_bytes : Audio) (ts_ms : ℕ) (is_speech : Bool) (s : Listener)
      → IsWellFormed cfg s
      → IsWellFormed cfg (process_block cfg audio_bytes ts_ms is_speech s)
  unfolding process_block
  process_block-IsWellFormed audio_bytes ts_ms is_speech s (w, p, a, c) =
      let s' = record s { last_ts_ms = ts_ms } in
      let w' : IsWellFormed cfg s' = (touched s.state s ts_ms w, p, a, c) in
      by_state s.state (process_idle cfg audio_bytes ts_ms is_speech s')
        (process_speaking cfg audio_bytes ts_ms is_speech s')
        (λ h. process_idle-IsWellFormed audio_bytes ts_ms is_speech s' h w')
        (λ h. process_speaking-IsWellFormed audio_bytes ts_ms is_speech s' h w')

  on_flush-IsWellFormed : (s : Listener) → IsWellFormed cfg s → IsWellFormed cfg (on_flush cfg s)
  unfolding on_flush
  on_flush-IsWellFormed s (w, p, a, c) =
      by_state s.state (reset_to_idle s) (reset_to_idle (emit_utterance cfg s))
        (λ h. (refl, omega arith, a, c))
        (λ h.
          reset-IsWellFormed (emit_utterance cfg s)
            (emit_utterance-Emits_of s s.utterance refl a c))

  -- The worker's loop over the blocks, with the detector's answers, and the flushes.
  unfoldable pub listen : List (Option (Audio × ℕ × Bool)) → Listener → Listener
  unfolding process_block on_flush
  listen [] s = s
  listen (none ∷ items) s = listen items (on_flush cfg s)
  listen (some (audio_bytes, ts_ms, is_speech) ∷ items) s =
      listen items (process_block cfg audio_bytes ts_ms is_speech s)

  listen_keeps :
      (items : List (Option (Audio × ℕ × Bool))) (s : Listener)
      → IsWellFormed cfg s
      → IsWellFormed cfg (listen items s)
  unfolding listen
  listen_keeps [] s w = w
  listen_keeps (none ∷ items) s w = listen_keeps items (on_flush cfg s) (on_flush-IsWellFormed s w)
  listen_keeps (some (audio_bytes, ts_ms, is_speech) ∷ items) s w =
      listen_keeps items (process_block cfg audio_bytes ts_ms is_speech s)
        (process_block-IsWellFormed audio_bytes ts_ms is_speech s w)

  -- After any blocks and flushes, whatever the detector says: while idle nothing is being collected;
  -- while speaking the collected utterance is not empty and the pre-roll is empty; the pre-roll never
  -- holds more than its number of blocks; every utterance that was emitted lasts at least
  -- `min_utterance_ms`, and the count is that of the emitted ones.
  pub listen-IsWellFormed :
      (items : List (Option (Audio × ℕ × Bool))) → IsWellFormed cfg (listen items init)
  listen-IsWellFormed items = listen_keeps items init (refl, omega arith, tt, refl)
