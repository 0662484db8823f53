-- ===== src/Tests/Vocabulary.antt =====
-- The vocabulary, the snippets and the learned corrections at concrete inputs.
use agent_voca.Prelude.{List, ◌++◌, none, [], ◌∷◌, ◌≡◌, refl, leb, if◌then◌else◌, ◌+◌, arith}
use agent_voca.Text.{Text, ascii, codes, lower, strip, text_eq}
use agent_voca.Vocab.Match.{build_pattern, substitute}
use agent_voca.Vocab.Match.Scan.{Scanned, substitute-IsScanned}
use agent_voca.Vocab.Adaptive.{Store, count, is_learned}
use agent_voca.Vocab.Adaptive.Promotion.{promotions, promotions_exact}

abbrev cities : List Text
cities = codes "new" ∷ codes "new york" ∷ []

abbrev quoted : Text → Text
quoted t = b'"' ∷ t ++ b'"' ∷ []

substitute-IsScanned_example :
    Scanned ascii cities quoted none
      (codes "in New York")
      (substitute ascii (build_pattern cities) quoted none 0 (codes "in New York"))
substitute-IsScanned_example =
    substitute-IsScanned ascii cities quoted (tt, (tt, tt)) (codes "in New York")

abbrev fresh_store : Store
fresh_store = record {
  promote_threshold = 3;
  corrections = [];
  learned_terms = [];
  learned_mappings = [];
  saved = none;
}

promotions_exact_example :
    promotions ascii 5 fresh_store (codes "cute") (codes "Qt") ≡ (if leb 3 (0 + 5) then 1 else 0)
unfolding text_eq lower strip ascii is_learned count
promotions_exact_example =
    promotions_exact ascii 5 fresh_store (codes "cute") (codes "Qt") refl refl refl refl
      (omega arith)
