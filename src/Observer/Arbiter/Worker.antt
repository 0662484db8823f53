-- ===== src/Observer/Arbiter/Worker.antt =====
-- The worker comes to an end.
use agent_voca.Prelude.{
  ℕ, zero, suc, ◌+◌, ◌*◌, ◌≤◌, Bool, true, false, Option, none, some, List, [], ◌∷◌, ◌++◌, map, ◌≡◌,
  refl, sym, ap, ◌∙◌, arith, length, All, append-nil, append_assoc,
}
use agent_voca.Text.{Text}
use agent_voca.Orchestrator.{Answer, returned, provider_error, other_error, cancelled}
use agent_voca.Observer.Arbiter.{AmbientJob, Heard, Arbiter, work, deliver}

unfoldable pub turns : (AmbientJob → Answer Text) → ℕ → Arbiter → Arbiter
unfolding work
turns transcribe zero a = a
turns transcribe (suc n) a = turns transcribe n (work transcribe a)

abbrev pub is_cancelled : Answer Text → Bool
is_cancelled (returned text) = false
is_cancelled provider_error = false
is_cancelled other_error = false
is_cancelled cancelled = true

-- What a job adds to what was heard.
abbrev heard_of : AmbientJob → Answer Text → List Heard
heard_of job (returned text) =
    record { text = text; ts_ms = job.ts_ms; duration_ms = job.duration_ms } ∷ []
heard_of job provider_error = []
heard_of job other_error = []
heard_of job cancelled = []

unfoldable pub all_heard : (AmbientJob → Answer Text) → List AmbientJob → List Heard
all_heard transcribe [] = []
all_heard transcribe (job ∷ jobs) = heard_of job (transcribe job) ++ all_heard transcribe jobs

-- The jobs, and the sentinel behind them.
abbrev pub until_sentinel : List AmbientJob → List (Option AmbientJob)
until_sentinel jobs = map some jobs ++ none ∷ []

module _ (transcribe : AmbientJob → Answer Text) where
  -- An arbiter whose worker runs undisturbed.
  abbrev pub busy : Arbiter → List (Option AmbientJob) → Option AmbientJob → List Heard → Arbiter
  busy a queue in_hand heard = record a {
    queue = queue;
    in_hand = in_hand;
    dictation_idle = true;
    running = true;
    heard = heard;
  }

  turns-stopped : (n : ℕ) (a : Arbiter) → a.in_hand ≡ none → a.queue ≡ [] → turns transcribe n a ≡ a
  unfolding turns
  turns-stopped zero a k q = refl
  turns-stopped (suc n) a k q =
      let still : work transcribe a ≡ a = simp (k, q, work) in
      ap (turns transcribe n) still ∙ turns-stopped n a k q

  deliver-busy :
      (a : Arbiter) (job : AmbientJob) (queue : List (Option AmbientJob)) (heard : List Heard)
      → is_cancelled (transcribe job) ≡ false
      → deliver job (transcribe job) (busy a queue none heard)
        ≡ busy a queue none (heard ++ heard_of job (transcribe job))
  unfolding deliver
  deliver-busy a job queue heard h = go (transcribe job) h
    where
      go :
          (answer : Answer Text)
          → is_cancelled answer ≡ false
          → deliver job answer (busy a queue none heard)
            ≡ busy a queue none (heard ++ heard_of job answer)
      go (returned text) k = refl
      go provider_error k = ap (λ l. busy a queue none l) (sym (append-nil heard))
      go other_error k = ap (λ l. busy a queue none l) (sym (append-nil heard))
      go cancelled k = absurd (ground (arith, k))

  -- While no dictation interferes and no transcription is cancelled: twice as many turns as there are jobs,
  -- and one for the sentinel, end the worker with an empty queue; every job was transcribed once, in its
  -- order, and its text was handed over when the provider answered. More turns change nothing.
  pub turns-until_sentinel :
      (n : ℕ) (jobs : List AmbientJob) (a : Arbiter) (heard : List Heard)
      → All (λ job. is_cancelled (transcribe job) ≡ false) jobs
      → 2 * length jobs + 1 ≤ n
      → turns transcribe n (busy a (until_sentinel jobs) none heard)
        ≡ record (busy a [] none (heard ++ all_heard transcribe jobs)) { running = false }
  unfolding turns all_heard
  turns-until_sentinel zero jobs a heard c h = absurd (omega (arith, h))
  turns-until_sentinel (suc n) [] a heard c h =
      turns-stopped n (record (busy a [] none heard) { running = false }) refl refl
      ∙ ap (λ l. record (busy a [] none l) { running = false }) (sym (append-nil heard))
  turns-until_sentinel (suc zero) (job ∷ jobs) a heard c h = absurd (omega (arith, h))
  turns-until_sentinel (suc (suc n)) (job ∷ jobs) a heard c h =
      let said = heard_of job (transcribe job) in
      ap (turns transcribe n) (deliver-busy a job (until_sentinel jobs) heard c.0)
      ∙ turns-until_sentinel n jobs a (heard ++ said) c.1 (omega (arith, h))
      ∙ ap (λ l. record (busy a [] none l) { running = false })
          (append_assoc heard said (all_heard transcribe jobs))
