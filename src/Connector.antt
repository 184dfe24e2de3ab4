-- ===== src/Connector.antt =====
-- The chunks of a document of a connector (services/api/internal/connector/pipeline.go).
pub mod Chunks
mod Tests
use agent_nexus.Prelude.{
  ℕ, zero, suc, ◌+◌, ◌-◌, List, [], ◌∷◌, length, take, drop, ◌==◌, ltb, leb, if◌then◌else◌,
}
use agent_nexus.Prelude.Text.{Text}

-- where the loop goes on after a chunk that ends at end
abbrev pub next_start : ℕ → ℕ → ℕ → ℕ
next_start overlap start end = if leb (end - overlap) start then start + 1 else end - overlap

abbrev pub chunk_end : ℕ → ℕ → ℕ → ℕ
chunk_end size start total = if ltb total (start + size) then total else start + size

-- The loop of chunkText on fuel.
unfoldable pub chunk_from : ℕ → Text → ℕ → ℕ → ℕ → List Text
chunk_from zero runes size overlap start = []
chunk_from (suc n) runes size overlap start =
    let total = length runes in
    let end = chunk_end size start total in
    let rest = chunk_from n runes size overlap (next_start overlap start end) in
    if ltb start total
    then take (end - start) (drop start runes) ∷ (if end == total then [] else rest)
    else []

-- `chunkText`; each round starts later than the one before.
unfoldable pub chunk_text : Text → ℕ → ℕ → List Text
unfolding chunk_from
chunk_text text size overlap =
    let chunks = chunk_from (length text) text size overlap 0 in
    if leb (length text) size then text ∷ [] else chunks
