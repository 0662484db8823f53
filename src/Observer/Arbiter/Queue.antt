-- ===== src/Observer/Arbiter/Queue.antt =====
-- What the queue of ambient jobs keeps.
use mathlib.Core.Path.{subst}
use agent_voca.Prelude.{
  ℕ, zero, suc, ◌+◌, ◌-◌, ◌≤◌, ◌<◌, Option, some, List, [], ◌∷◌, ◌++◌, ◌≡◌, refl, ap, sym, ◌∙◌,
  length, length-append, length-drop, drop, lt_or_le, inl, inr, arith, map, append_assoc,
  append-nil,
}
use agent_voca.Observer.Arbiter.{AmbientJob, Arbiter, init, put, enqueue_via_loop}

-- Jobs that are submitted one after another while the worker is busy.
unfoldable pub submit_all : List AmbientJob → Arbiter → Arbiter
submit_all [] a = a
submit_all (job ∷ jobs) a = submit_all jobs (enqueue_via_loop job a)

drop-append_short :
    {A : Type 0} (n : ℕ) (xs ys : List A) → n ≤ length xs → drop n (xs ++ ys) ≡ drop n xs ++ ys
drop-append_short zero xs ys h = refl
drop-append_short (suc n) [] ys h = absurd (omega arith)
drop-append_short (suc n) (x ∷ xs) ys h = drop-append_short n xs ys (omega arith)

-- The queue holds the last of the jobs that were put, and the others are counted as dropped.
abbrev pub Holds : List (Option AmbientJob) → Arbiter → Type 0
Holds sent a =
    (a.queue ≡ drop (length sent - a.maxsize) sent) × (a.dropped ≡ length sent - a.maxsize)

tail_of_drop :
    {A : Type 0} (n : ℕ) (xs : List A) (y : A) (ys : List A)
    → drop n xs ≡ y ∷ ys
    → drop (suc n) xs ≡ ys
tail_of_drop zero [] y ys h = ground arith
tail_of_drop zero (x ∷ xs) y ys h = ground arith
tail_of_drop (suc n) [] y ys h = ground arith
tail_of_drop (suc n) (x ∷ xs) y ys h = tail_of_drop n xs y ys h

enqueue_room :
    (job : AmbientJob) (a : Arbiter)
    → length a.queue < a.maxsize
    → enqueue_via_loop job a ≡ put (some job) a
unfolding enqueue_via_loop
enqueue_room job a h = ground arith

enqueue_full :
    (job : AmbientJob) (a : Arbiter) (x : Option AmbientJob) (xs : List (Option AmbientJob))
    → 0 < a.maxsize
    → a.queue ≡ x ∷ xs
    → length a.queue ≡ a.maxsize
    → enqueue_via_loop job a ≡ record a { queue = xs ++ some job ∷ []; dropped = a.dropped + 1 }
unfolding enqueue_via_loop
enqueue_full job a x xs pos e h = ground arith

length-snoc : {A : Type 0} (xs : List A) (x : A) → length (xs ++ x ∷ []) ≡ suc (length xs)
length-snoc xs x = omega (arith, length-append xs (x ∷ []))

Holds-room :
    (sent : List (Option AmbientJob)) (job : AmbientJob) (a : Arbiter)
    → length sent < a.maxsize
    → Holds sent a
    → Holds (sent ++ some job ∷ []) (put (some job) a)
Holds-room sent job a r (q, d) =
    let none_lost : length sent - a.maxsize ≡ 0 = omega arith in
    let still_none : length (sent ++ some job ∷ []) - a.maxsize ≡ 0 =
      omega (arith, length-snoc sent (some job)) in
    (
      rw still_none (ap (λ l. l ++ some job ∷ []) (q ∙ ap (λ n. drop n sent) none_lost)),
      d ∙ none_lost ∙ sym still_none,
    )

Holds-full :
    (sent : List (Option AmbientJob)) (job : AmbientJob) (a : Arbiter) (x : Option AmbientJob)
    (xs : List (Option AmbientJob))
    → 0 < a.maxsize
    → a.maxsize ≤ length sent
    → a.queue ≡ x ∷ xs
    → Holds sent a
    → Holds
        (sent ++ some job ∷ [])
        (record a { queue = xs ++ some job ∷ []; dropped = a.dropped + 1 })
Holds-full sent job a x xs pos r e (q, d) =
    let n = length sent - a.maxsize in
    let more : length (sent ++ some job ∷ []) - a.maxsize ≡ suc n =
      omega (arith, length-snoc sent (some job)) in
    let rest : drop (suc n) sent ≡ xs = tail_of_drop n sent x xs (sym q ∙ e) in
    (
      rw more (
          sym (
            drop-append_short (suc n) sent (some job ∷ []) (omega arith)
            ∙ ap (λ l. l ++ some job ∷ []) rest)),
      omega (arith, d, more),
    )

Holds-length :
    (sent : List (Option AmbientJob)) (a : Arbiter)
    → Holds sent a
    → length a.queue ≡ length sent - (length sent - a.maxsize)
Holds-length sent a (q, d) = ap length q ∙ length-drop (length sent - a.maxsize) sent

enqueue-Holds :
    (sent queue : List (Option AmbientJob)) (job : AmbientJob) (a : Arbiter)
    → 0 < a.maxsize
    → a.queue ≡ queue
    → Holds sent a
    → Holds (sent ++ some job ∷ []) (enqueue_via_loop job a)
enqueue-Holds sent queue job a pos e h = elim (lt_or_le (length sent) a.maxsize) [
  | inl r ↦
      subst (Holds (sent ++ some job ∷ []))
        (sym (enqueue_room job a (omega (arith, Holds-length sent a h))))
        (Holds-room sent job a r h)
  | inr r ↦ at_full queue e r
]
  where
    at_full :
        (l : List (Option AmbientJob))
        → a.queue ≡ l
        → a.maxsize ≤ length sent
        → Holds (sent ++ some job ∷ []) (enqueue_via_loop job a)
    at_full [] e r = absurd (omega (arith, Holds-length sent a h, ap length e))
    at_full (x ∷ xs) e r =
        subst (Holds (sent ++ some job ∷ []))
          (sym (enqueue_full job a x xs pos e (omega (arith, Holds-length sent a h))))
          (Holds-full sent job a x xs pos r e h)

maxsize_kept : (job : AmbientJob) (a : Arbiter) → (enqueue_via_loop job a).maxsize ≡ a.maxsize
unfolding enqueue_via_loop
maxsize_kept job a = ground arith

submit_all-Holds :
    (sent : List (Option AmbientJob)) (jobs : List AmbientJob) (a : Arbiter)
    → 0 < a.maxsize
    → Holds sent a
    → Holds (sent ++ map some jobs) (submit_all jobs a)
unfolding submit_all
submit_all-Holds sent [] a pos h = rw (append-nil sent) h
submit_all-Holds sent (job ∷ jobs) a pos h =
    let a' = enqueue_via_loop job a in
    let pos' : 0 < a'.maxsize = rw (maxsize_kept job a) pos in
    subst (λ l. Holds l (submit_all jobs a')) (append_assoc sent (some job ∷ []) (map some jobs))
      (submit_all-Holds (sent ++ some job ∷ []) jobs a' pos'
        (enqueue-Holds sent a.queue job a pos refl h))

maxsize_kept_all : (jobs : List AmbientJob) (a : Arbiter) → (submit_all jobs a).maxsize ≡ a.maxsize
unfolding submit_all
maxsize_kept_all [] a = refl
maxsize_kept_all (job ∷ jobs) a =
    maxsize_kept_all jobs (enqueue_via_loop job a) ∙ maxsize_kept job a

-- While the worker takes no job, a fresh arbiter of positive depth holds exactly the last
-- `queue_depth` of the submitted jobs, in the order of their submission, and has counted every older
-- one as dropped.
pub submit_all-keeps_latest :
    (depth : ℕ) (jobs : List AmbientJob)
    → 0 < depth
    → let a = submit_all jobs (init depth) in
      (a.queue ≡ drop (length (map some jobs) - depth) (map some jobs))
      × (a.dropped ≡ length (map some jobs) - depth)
submit_all-keeps_latest depth jobs pos =
    let e = maxsize_kept_all jobs (init depth) in
    let none_dropped : 0 - depth ≡ 0 = omega arith in
    let start : Holds [] (init depth) = (rw none_dropped refl, sym none_dropped) in
    let (q, d) = submit_all-Holds [] jobs (init depth) pos start in
    (
      q ∙ ap (λ n. drop (length (map some jobs) - n) (map some jobs)) e,
      d ∙ ap (λ n. length (map some jobs) - n) e,
    )
