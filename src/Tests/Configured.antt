-- ===== src/Tests/Configured.antt =====
-- Changes of the configuration at a concrete input.
use agent_voca.Prelude.{List, [], ◌∷◌, All}
use agent_voca.Text.{Text, codes}
use agent_voca.Setup.RestartPolicy.{partition}
use agent_voca.Setup.RestartPolicy.Partition.{Split, IsHot, partition-IsSplit}

-- A field of a profile, a provider, and a field that no set names.
abbrev changed : List Text
changed = codes "context.profiles.0.name" ∷ codes "asr.provider" ∷ codes "app.theme" ∷ []

partition-IsSplit_example :
    let (live, late) = partition changed in
    Split Text changed live late × All IsHot live × All (λ path. ¬ IsHot path) late
partition-IsSplit_example = partition-IsSplit changed
