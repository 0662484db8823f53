-- ===== src/Observer/Gate/Rate.antt =====
-- The gate's rate limit over any run of requests.
use mathlib.Core.Path.{subst}
use native.Mathlib.Nat.{mul-add, mul-le-mul_left}
use agent_voca.Prelude.{
  ℕ, min, ◌+◌, ◌-◌, ◌*◌, ◌≤◌, Bool, true, false, Option, none, some, List, [], ◌∷◌, ◌≡◌, refl,
  arith, Bool-cases, ◌||◌, not, ◌∙◌, inl, inr,
}
use agent_voca.Observer.Gate.{token, Gate, init, Answers, refilled, take_token, enqueue, request}

-- Requests at the times that the clock gives.
unfoldable pub run : List (ℕ × Answers) → Gate → Gate
unfolding request
run [] g = g
run ((now, w) ∷ l) g = run l (request w now g).1

-- The clock does not go back.
unfoldable pub IsForward : ℕ → List (ℕ × Answers) → Type 0
IsForward t [] = Unit
IsForward t ((now, w) ∷ l) = (t ≤ now) × IsForward now l

unfoldable pub end_time : ℕ → List (ℕ × Answers) → ℕ
end_time t [] = t
end_time t ((now, w) ∷ l) = end_time now l

-- Every accepted request has taken a token out of the full bucket, or out of what was refilled
-- since the first request.
abbrev IsWithin : ℕ → ℕ → Option ℕ → ℕ → ℕ → Type 0
IsWithin first t none accepted tokens = accepted ≡ 0
IsWithin first t (some r) accepted tokens = (first ≤ r) × (r ≤ t)

elapsed_at : ℕ → Option ℕ → ℕ
elapsed_at first none = 0
elapsed_at first (some r) = r - first

abbrev IsPaid : ℕ → ℕ → Gate → Type 0
IsPaid first t g =
    (first ≤ t)
    × IsWithin first t g.last_refill g.accepted g.tokens
    × (g.tokens + g.accepted * token
        ≤ g.capacity * token + g.capacity * elapsed_at first g.last_refill)

-- The tokens of a refill, with those of the accepted requests, are paid for.
refilled-IsPaid :
    (first t now tokens accepted capacity : ℕ) (last : Option ℕ)
    → t ≤ now
    → first ≤ t
    → IsWithin first t last accepted tokens
    → tokens + accepted * token ≤ capacity * token + capacity * elapsed_at first last
    → (elim last [
      | none ↦ capacity * token
      | some r ↦ min (capacity * token) (tokens + capacity * (now - r))
    ])
        + accepted * token
      ≤ capacity * token + capacity * (now - first)
unfolding elapsed_at
refilled-IsPaid first t now tokens accepted capacity none f o w p = rw w (omega arith)
refilled-IsPaid first t now tokens accepted capacity (some r) f o w p =
    let e : now - first ≡ (now - r) + (r - first) = omega (arith, w.0, w.1) in
    let d : capacity * (now - first) ≡ capacity * (now - r) + capacity * (r - first) =
      rw e (mul-add capacity (now - r) (r - first)) in
    omega (arith, d)

take_token-IsPaid :
    (first t now : ℕ) (g : Gate)
    → t ≤ now
    → IsPaid first t g
    → IsPaid first now (take_token g now).1
unfolding take_token refilled elapsed_at
take_token-IsPaid first t now g f (o, w, p) =
    let k = refilled-IsPaid first t now g.tokens g.accepted g.capacity g.last_refill f o w p in
    ground (arith, k)

IsPaid-later : (first t now : ℕ) (g : Gate) → t ≤ now → IsPaid first t g → IsPaid first now g
IsPaid-later first t now g f (o, w, p) = (omega arith, later g.last_refill w, p)
  where
    later :
        (last : Option ℕ)
        → IsWithin first t last g.accepted g.tokens
        → IsWithin first now last g.accepted g.tokens
    later none w = w
    later (some r) w = (w.0, omega (arith, w.1))

enqueue-IsPaid :
    (first now : ℕ) (w : Answers) (r : Bool × Gate)
    → IsPaid first now r.1
    → IsPaid first now (enqueue w r).1
unfolding enqueue
enqueue-IsPaid first now w (false, g) h = h
enqueue-IsPaid first now w (true, g) h = elim (Bool-cases w.has_room) [
  | inl e ↦ rw e h
  | inr e ↦ rw e h
]

request-IsPaid :
    (first t now : ℕ) (w : Answers) (g : Gate)
    → t ≤ now
    → IsPaid first t g
    → IsPaid first now (request w now g).1
unfolding request
request-IsPaid first t now w g f h =
    elim (Bool-cases (not w.is_session_active || w.is_paused || w.is_excluded)) [
      | inl e ↦ rw e (IsPaid-later first t now g f h)
      | inr e ↦
          rw e (enqueue-IsPaid first now w (take_token g now) (take_token-IsPaid first t now g f h))
    ]

request-capacity : (w : Answers) (now : ℕ) (g : Gate) → (request w now g).1.capacity ≡ g.capacity
unfolding request take_token enqueue
request-capacity w now g = ground arith

run-IsPaid :
    (first t : ℕ) (l : List (ℕ × Answers)) (g : Gate)
    → IsForward t l
    → IsPaid first t g
    → IsPaid first (end_time t l) (run l g)
unfolding run IsForward end_time
run-IsPaid first t [] g f h = h
run-IsPaid first t ((now, w) ∷ l) g f h =
    run-IsPaid first now l (request w now g).1 f.1 (request-IsPaid first t now w g f.0 h)

run-capacity : (l : List (ℕ × Answers)) (g : Gate) → (run l g).capacity ≡ g.capacity
unfolding run
run-capacity [] g = refl
run-capacity ((now, w) ∷ l) g = run-capacity l (request w now g).1 ∙ request-capacity w now g

elapsed_le :
    (first t capacity tokens accepted : ℕ) (last : Option ℕ)
    → IsWithin first t last accepted tokens
    → capacity * elapsed_at first last ≤ capacity * (t - first)
unfolding elapsed_at
elapsed_le first t capacity tokens accepted none w = omega arith
elapsed_le first t capacity tokens accepted (some r) w =
    mul-le-mul_left capacity (omega (arith, w.1))

-- Over any run of requests whose clock does not go back, a fresh gate accepts at most the capacity of
-- the bucket and, on top of it, `max_keyframes_per_min` requests for each minute that passes from the
-- first moment to the last request (both sides in units, 60000 for a request).
pub run-rate :
    (min_interval_ms max_keyframes_per_min first : ℕ) (l : List (ℕ × Answers))
    → IsForward first l
    → (run l (init min_interval_ms max_keyframes_per_min)).accepted * token
      ≤ max_keyframes_per_min * token + max_keyframes_per_min * (end_time first l - first)
unfolding elapsed_at
run-rate interval capacity first l f =
    let g₀ = init interval capacity in
    let g = run l g₀ in
    let (o, w, p) = run-IsPaid first first l g₀ f (omega arith, refl, omega arith) in
    let e = elapsed_le first (end_time first l) g.capacity g.tokens g.accepted g.last_refill w in
    subst (λ c. g.accepted * token ≤ c * token + c * (end_time first l - first)) (run-capacity l g₀)
      (omega (arith, p, e))
