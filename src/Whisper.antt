-- ===== src/Whisper.antt =====
-- asr/faster_whisper.py: `FasterWhisperProvider`. Its fields, the loading of its models, and the calls of
-- the library as a parameter; the warm-up and the transcriptions are in the modules below.
pub mod Transcribe
pub mod Streaming
pub mod Fallback
pub mod Dictated
use agent_voca.Prelude.{
  ℕ, ◌+◌, Bool, true, false, not, ◌&&◌, ◌||◌, Option, none, some, List, [], ◌∷◌, ◌++◌,
  if◌then◌else◌, ◌≡◌,
}
use agent_voca.Text.{Text, Unicode, is_empty, lower, codes}
use agent_voca.Vocab.Dictionary.{starts_with}

-- The strings of a device; `named` is any other.
pub data Device : Type 0 where
  auto cuda cpu : Device
  named : Text → Device

-- The strings of a compute type; `default_type` is `"default"`.
pub data Compute : Type 0 where
  float16 int8_float16 bfloat16 int8 int8_float32 float32 default_type : Compute
  other_type : Text → Compute

-- A loaded `WhisperModel`, by what it was loaded with.
pub record Model : Type 0 where
  pub size : Text
  pub device : Device
  pub compute_type : Compute

-- What an inference does: the texts of its segments and the language, an exception with its text, or
-- nothing before the time that the caller waits.
pub data Inference : Type 0 where
  heard : List Text → Text → Inference
  inference_error : Text → Inference
  timed_out : Inference

-- The libraries. Their answers may depend on the number of the call. The Boolean of `infer` is true for
-- the fast pass, with a beam of one and without voice detection; the audio is the bytes of its samples.
pub record Library : Type 0 where
  pub supported : Device → Option (Compute → Bool)
  pub load : ℕ → Text → Device → Compute → Option Text
  pub infer : ℕ → Bool → Model → List ℕ → Option Text → Inference

-- `ASRConfig`, with what the provider reads of it
pub record Settings : Type 0 where
  pub model : Option Text
  pub streaming : Bool
  pub streaming_model : Option Text
  pub streaming_window_s : ℕ
  pub language_hint : Option Text
  pub device : Device
  pub compute_type : Compute

-- The fields of `FasterWhisperProvider`, and the number of calls of the libraries so far.
pub record Provider : Type 0 where
  pub model : Option Model
  pub streaming_model : Option Model
  pub device : Device
  pub compute_type : Compute
  pub warmed_up : Bool
  pub calls : ℕ

-- The exceptions, with their texts.
pub data Failure : Type 0 where
  asr_error other_error : Text → Failure
  timeout_error : Failure

pub data Result {ℓ} (A : Type ℓ) : Type ℓ where
  done : A → Result A
  failed : Failure → Result A

-- A method: what it returns or raises, and the fields behind it.
abbrev pub Call : Type 0 → Type 0
Call A = Provider → Result A × Provider

infixl 5 ◌>>=◌ ◌>>◌
abbrev pub ◌>>=◌ : {A B : Type 0} → Call A → (A → Call B) → Call B
◌>>=◌ m f p = let (r, p') = m p in elim r [ done a ↦ f a p' | failed e ↦ (failed e, p') ]

abbrev pub ◌>>◌ : {B : Type 0} → Call (Unit {0}) → Call B → Call B
m >> k = m >>= λ _. k

abbrev pub pure : {A : Type 0} → A → Call A
pure a p = (done a, p)

-- `value or default`
abbrev pub or_default : Text → Option Text → Text
or_default d none = d
or_default d (some t) = if is_empty t then d else t

abbrev pub init : Settings → Provider
init settings = record {
  model = none;
  streaming_model = none;
  device = settings.device;
  compute_type = settings.compute_type;
  warmed_up = false;
  calls = 0;
}

abbrev pub count_call : Provider → Provider
count_call p = record p { calls = p.calls + 1 }

-- `device == "cpu"`
unfoldable pub is_cpu : Device → Bool
is_cpu cpu = true
is_cpu _ = false

-- The lists of compute types, best first.
unfoldable pub compute_prefs : Device → List Compute
compute_prefs cuda = float16 ∷ int8_float16 ∷ bfloat16 ∷ int8 ∷ float32 ∷ []
compute_prefs _ = int8 ∷ int8_float32 ∷ float32 ∷ []

unfoldable pub fallback_type : Device → Compute
fallback_type cuda = float16
fallback_type _ = int8

unfoldable pub first_supported : (Compute → Bool) → Compute → List Compute → Compute
first_supported supported fallback [] = fallback
first_supported supported fallback (compute ∷ l) =
    if supported compute then compute else first_supported supported fallback l

-- `sub in text`
unfoldable pub has_infix : Text → Text → Bool
unfolding starts_with
has_infix sub [] = is_empty sub
has_infix sub (c ∷ t) = elim (starts_with sub (c ∷ t)) [ some _ ↦ true | none ↦ has_infix sub t ]

unfoldable pub mentions : List Text → Text → Bool
unfolding has_infix
mentions [] t = false
mentions (keyword ∷ l) t = has_infix keyword t || mentions l t

-- The words by which an exception of the GPU is told.
unfoldable pub inference_keywords : List Text
inference_keywords = codes "cuda" ∷ codes "cublas" ∷ codes "cudnn" ∷ codes "cublaslt" ∷ []

unfoldable pub load_keywords : List Text
load_keywords = codes "cuda" ∷ codes "cublas" ∷ codes "cudnn" ∷ codes "gpu" ∷ codes "cublaslt" ∷ []

-- The text of the `ASRError` of `_get_model`.
unfoldable pub load_failure : Text → Text → Text
load_failure size last_error =
    codes "Failed to load faster-whisper model '" ++ (size ++ (codes "': " ++ last_error))

module _ (u : Unicode) (lib : Library) (settings : Settings) where
  -- `_probe_compute_type`
  unfoldable pub probe_compute_type : Device → Compute
  unfolding first_supported compute_prefs fallback_type
  probe_compute_type device = elim (lib.supported device) [
    | none ↦ fallback_type device
    | some supported ↦ first_supported supported (fallback_type device) (compute_prefs device)
  ]

  -- `self._model_size`
  abbrev pub model_size : Text
  model_size = or_default (codes "base") settings.model

  -- `compute_type`, where it is not `"default"`
  unfoldable pub chosen_type : Device → Compute → Compute
  unfolding probe_compute_type
  chosen_type device default_type = probe_compute_type device
  chosen_type device compute = compute

  -- The devices to try, with their compute types.
  unfoldable pub devices : Device → Compute → List (Device × Compute)
  unfolding chosen_type
  devices auto compute = (cuda, probe_compute_type cuda) ∷ (cpu, probe_compute_type cpu) ∷ []
  devices device compute = (device, chosen_type device compute) ∷ []

  -- A failure of the GPU, on a device that is not the CPU, makes the loop try the next device.
  unfoldable pub tries_next : Device → Text → Bool
  unfolding mentions is_cpu
  tries_next device message = mentions load_keywords (lower u message) && not (is_cpu device)

  -- The loop over the devices.
  unfoldable pub load_devices : List (Device × Compute) → Text → Call Model
  unfolding tries_next
  load_devices [] last_error p = (failed (asr_error (load_failure model_size last_error)), p)
  load_devices ((device, compute) ∷ l) last_error p =
      elim (lib.load p.calls model_size device compute) [
        | none ↦
            let model : Model = record {
              size = model_size;
              device = device;
              compute_type = compute;
            } in
            (done model, record (count_call p) { model = some model })
        | some message ↦
            let rest = load_devices l message (count_call p) in
            if tries_next device message
            then rest
            else (failed (asr_error (load_failure model_size message)), count_call p)
      ]

  -- `_get_model`
  unfoldable pub get_model : Call Model
  unfolding load_devices devices
  get_model p = elim p.model [
    | some model ↦ (done model, p)
    | none ↦ load_devices (devices p.device p.compute_type) (codes "None") p
  ]

  -- One load of the streaming model; the exception of the library is raised as it is.
  unfoldable pub load_streaming : Device → Compute → Call Model
  load_streaming device compute p =
      let size = or_default (codes "base.en") settings.streaming_model in
      elim (lib.load p.calls size device compute) [
        | none ↦
            let model : Model = record { size = size; device = device; compute_type = compute } in
            (done model, record (count_call p) { streaming_model = some model })
        | some message ↦ (failed (other_error message), count_call p)
      ]

  -- The device of the first load: a device but the CPU is taken for CUDA.
  abbrev pub streaming_device : Device → Device × Compute
  streaming_device device = if is_cpu device then (cpu, int8) else (cuda, float16)

  -- The load, with the fallback to the CPU.
  unfoldable pub load_streaming_model : Call Model
  unfolding is_cpu load_streaming
  load_streaming_model p =
      let (device, compute) = streaming_device p.device in
      let r = load_streaming device compute p in
      elim r.0 [ done model ↦ r | failed _ ↦ load_streaming cpu int8 r.1 ]

  -- `_get_streaming_model`
  unfoldable pub get_streaming_model : Call Model
  unfolding load_streaming_model
  get_streaming_model p = elim p.streaming_model [
    | some model ↦ (done model, p)
    | none ↦ load_streaming_model p
  ]
