-- ===== src/Observer/Screen.antt =====
-- observer/screen.py: `ScreenGrabber`, its queue of requests and the frames that it drops as duplicates.
-- The platform's answers (the rectangle, the image with its hash, the encoding) are arguments.
pub mod Spread
use agent_voca.Prelude.{
  ℕ, zero, suc, ◌+◌, ◌-◌, ◌/◌, ◌%◌, Bool, true, false, not, ◌&&◌, ◌||◌, Option, none, some, List,
  [], ◌∷◌, ◌++◌, ltb, leb, ◌==◌, if◌then◌else◌, length, drop,
}
use agent_voca.Observer.Triggers.{ℤ, pos, negsuc, TriggerReason, App}

-- `hamming`: the bits in which two hashes of so many bits differ.
unfoldable pub hamming_bits : ℕ → ℕ → ℕ → ℕ
hamming_bits zero a b = 0
hamming_bits (suc n) a b = (if a % 2 == b % 2 then 0 else 1) + hamming_bits n (a / 2) (b / 2)

unfoldable pub hamming : ℕ → ℕ → ℕ
unfolding hamming_bits
hamming a b = hamming_bits 64 a b

-- `a + n`
unfoldable pub add_nat : ℤ → ℕ → ℤ
add_nat (pos a) n = pos (a + n)
add_nat (negsuc a) n = if leb n a then negsuc (a - n) else pos (n - suc a)

-- `a < b`
unfoldable pub is_less : ℤ → ℤ → Bool
is_less (pos a) (pos b) = ltb a b
is_less (pos a) (negsuc b) = false
is_less (negsuc a) (pos b) = true
is_less (negsuc a) (negsuc b) = ltb b a

pub record Rect : Type 0 where
  pub left : ℤ
  pub top : ℤ
  pub right : ℤ
  pub bottom : ℤ

-- Large enough, not minimized (at `-32000`), and not off the screen to the left or the top.
unfoldable pub is_usable : Rect → Bool
unfolding add_nat is_less
is_usable r =
    not (is_less r.right (add_nat r.left 100) || is_less r.bottom (add_nat r.top 100))
    && not (not (is_less (negsuc 31999) r.left) || not (is_less (negsuc 31999) r.top))
    && not (is_less r.right (pos 0) || is_less r.bottom (pos 0))

-- An image of the platform, with its difference hash.
pub record Image : Type 0 where
  pub hash : ℕ
  pub width : ℕ
  pub height : ℕ

pub record Grab : Type 0 where
  pub jpeg : List ℕ
  pub width : ℕ
  pub height : ℕ
  pub dhash : ℕ
  pub app : App

-- The configuration, the height of an image scaled to a width (a product of floating-point numbers), the
-- encoder, and the application in the foreground.
pub record Screen : Type 0 where
  pub dedup_threshold : ℕ
  pub max_width_px : ℕ
  pub scaled : ℕ → ℕ → ℕ → ℕ
  pub encode : Image → Option (List ℕ)
  pub app : App

-- The fields of `ScreenGrabber`; `none` in the queue is the sentinel.
pub record Grabber : Type 0 where
  pub queue : List (Option TriggerReason)
  pub queue_depth : ℕ
  pub recent : List ℕ
  pub deduped_count : ℕ
  pub dropped_count : ℕ

abbrev pub init : ℕ → Grabber
init queue_depth = record {
  queue = [];
  queue_depth = queue_depth;
  recent = [];
  deduped_count = 0;
  dropped_count = 0;
}

-- `queue.Queue.full`
abbrev pub is_full : Grabber → Bool
is_full g = ltb 0 g.queue_depth && leb g.queue_depth (length g.queue)

-- `submit`
unfoldable pub submit : TriggerReason → Grabber → Bool × Grabber
submit reason g =
    if is_full g
    then (false, record g { dropped_count = g.dropped_count + 1 })
    else (true, record g { queue = g.queue ++ some reason ∷ [] })

-- The sentinel of `stop`; a full queue is emptied for it.
unfoldable pub put_sentinel : Grabber → Grabber
put_sentinel g = record g { queue = if is_full g then none ∷ [] else g.queue ++ none ∷ [] }

-- `deque(maxlen=8).append`
unfoldable pub remember : ℕ → List ℕ → List ℕ
remember h recent = if ltb (length recent) 8 then recent ++ h ∷ [] else drop 1 recent ++ h ∷ []

-- `_is_duplicate`
unfoldable pub is_duplicate : ℕ → ℕ → List ℕ → Bool
unfolding hamming
is_duplicate threshold h [] = false
is_duplicate threshold h (prev ∷ l) = leb (hamming prev h) threshold || is_duplicate threshold h l

module _ (screen : Screen) where
  abbrev pub dedup_enabled : Bool
  dedup_enabled = ltb 0 screen.dedup_threshold

  -- The image, downscaled when it is too wide.
  abbrev pub downscale : Image → Image
  downscale image =
      if ltb screen.max_width_px image.width
      then record image {
        width = screen.max_width_px;
        height = screen.scaled image.width image.height screen.max_width_px;
      }
      else image

  -- `grab`, from the encoded image on; an exception of the encoder is the worker's `None`.
  unfoldable pub finish_grab : Image → Option (List ℕ) → ℕ → Grabber → Option Grab × Grabber
  unfolding remember
  finish_grab image none h g = (none, g)
  finish_grab image (some jpeg) h g = (
    some (record {
      jpeg = jpeg;
      width = image.width;
      height = image.height;
      dhash = h;
      app = screen.app;
    }),
    if dedup_enabled then record g { recent = remember h g.recent } else g,
  )

  -- `grab`, with the image of the rectangle
  unfoldable pub grab_image : Image → Grabber → Option Grab × Grabber
  unfolding finish_grab is_duplicate
  grab_image image g =
      let h = if dedup_enabled then image.hash else 0 in
      let small = downscale image in
      if dedup_enabled && is_duplicate screen.dedup_threshold h g.recent
      then (none, record g { deduped_count = g.deduped_count + 1 })
      else finish_grab small (screen.encode small) h g

  -- `grab`; no rectangle or no image gives no frame.
  unfoldable pub grab : Option Rect → (Rect → Option Image) → Grabber → Option Grab × Grabber
  unfolding grab_image is_usable
  grab none image_of g = (none, g)
  grab (some rect) image_of g =
      if is_usable rect
      then elim (image_of rect) [ none ↦ (none, g) | some image ↦ grab_image image g ]
      else (none, g)
