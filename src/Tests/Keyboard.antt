-- ===== src/Tests/Keyboard.antt =====
-- The keyboard's undo at a concrete input.
use agent_voca.Prelude.{true, false, ◌≡◌, ◌-◌, ◌++◌, if◌then◌else◌, length, take, [], ◌∷◌}
use agent_voca.Insertion.{insert}
use agent_voca.Insertion.Undo.{Target, typed_last, undone, is_typed, undo_last-insert}
use agent_voca.Text.{codes}

abbrev target : Target
target = record { text = codes "Dear "; clipboard = [] }

undo_last-insert_example :
    undone
      (λ t. t)
      true
      (insert (λ key. false) 7 (codes "a\nb") (typed_last (λ t. t) true (codes "Bob") 7))
      target
    ≡ (if is_typed (λ t. t) true (codes "a\nb")
        then target.text
        else take
            (length (target.text ++ codes "a\nb") - length (codes "Bob"))
            (target.text ++ codes "a\nb"))
undo_last-insert_example =
    undo_last-insert (λ t. t) true target 7 7 66 97 (111 ∷ 98 ∷ []) (10 ∷ 98 ∷ [])
