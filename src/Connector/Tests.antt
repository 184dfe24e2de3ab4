-- ===== src/Connector/Tests.antt =====
-- Texts that are cut into chunks (services/api/internal/connector/pipeline.go).
use agent_nexus.Prelude.{◌≡◌, ◌≤◌, refl, [], ◌∷◌, length, All, arith}
use agent_nexus.Prelude.Text.{Text, codes}
use agent_nexus.Connector.{chunk_from, chunk_text}
use agent_nexus.Connector.Chunks.{stride, glue, chunk_text-glue}

abbrev letters : Text
letters = codes "abcdefghij"

chunk_text-letters : chunk_text letters 4 1 ≡ codes "abcd" ∷ codes "defg" ∷ codes "ghij" ∷ []
unfolding chunk_text chunk_from
chunk_text-letters = refl

-- an overlap as wide as the chunk
chunk_text-wide : chunk_text (codes "abcd") 2 2 ≡ codes "ab" ∷ codes "bc" ∷ codes "cd" ∷ []
unfolding chunk_text chunk_from
chunk_text-wide = refl

chunk_text-glue_example :
    (glue (stride 4 1) (chunk_text letters 4 1) ≡ letters)
    × All (λ c. length c ≤ 4) (chunk_text letters 4 1)
chunk_text-glue_example = chunk_text-glue letters 4 1 (ground arith)
