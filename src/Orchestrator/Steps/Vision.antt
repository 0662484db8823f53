-- ===== src/Orchestrator/Steps/Vision.antt =====
-- `_apply_vision`: extract the captured screenshots and splice them into the text.
use agent_voca.Prelude.{ℕ, Bool, true, false, none, some, List, [], ◌∷◌, length}
use agent_voca.Text.{Text, Unicode, strip}
use agent_voca.Orchestrator.{
  Env, Vision, returned, provider_error, other_error, cancelled, Stage, timing, vision_extracted,
}
use agent_voca.Orchestrator.Exec.{Exec, done, raised, stopped, ◌>>=◌, ◌>>◌, pure, publish}

module _ (u : Unicode) where
  abbrev pub nonblank : Text → List Text → List Text
  nonblank [] rest = rest
  nonblank (c ∷ s) rest = (c ∷ s) ∷ rest

  -- `_extract_one` for every screenshot, in order, and the results that are not None. Only a
  -- `VisionError` is caught for one screenshot; any other exception ends the `gather`.
  unfoldable pub extract_all : Vision → Text → List (List ℕ) → Exec (List Text)
  extract_all vision text [] o = (done [], o)
  extract_all vision text (shot ∷ shots) o =
      let rest = extract_all vision text shots in
      elim (vision.extract shot text) [
        | returned extracted ↦ (rest >>= λ l. pure (nonblank (strip u extracted) l)) o
        | provider_error ↦ rest o
        | other_error ↦ (raised, o)
        | cancelled ↦ (stopped, o)
      ]

  unfoldable pub splice_all : Vision → Text → List Text → Exec (Text × Bool)
  splice_all vision text [] = pure (text, false)
  splice_all vision text (e ∷ es) = do
    let (spliced, anchors_matched) = vision.splice text (e ∷ es)
    publish (timing Stage.vision)
    publish (vision_extracted (length (e ∷ es)) anchors_matched)
    pure (spliced, true)

  unfoldable pub apply_vision : Env → Text → Exec (Text × Bool)
  unfolding extract_all splice_all
  apply_vision env text = elim env.vision [
    | none ↦ pure (text, false)
    | some vision ↦ elim vision.shots [
      | [] ↦ pure (text, false)
      | shot ∷ shots ↦ do
        extractions ← extract_all vision text (shot ∷ shots)
        splice_all vision text extractions
    ]
  ]
