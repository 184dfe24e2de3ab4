-- ===== src/Provider/Tokens.antt =====
-- services/api/internal/provider/tokens.go. `size` is the length in bytes of the JSON of messages.
use agent_nexus.Prelude.{
  ℕ, zero, suc, ◌-◌, ◌/◌, Bool, ◌&&◌, List, [], ◌∷◌, Option, none, some, length, ltb, leb,
  if◌then◌else◌,
}
use agent_nexus.Prelude.Text.{codes, text_eq}
use agent_nexus.Provider.{Message}

-- `ContextWindow`, by the window that the catalog has for the model
unfoldable pub context_window : Option ℕ → ℕ
context_window none = 8192
context_window (some w) = if ltb 0 w then w else 8192

-- the budget of `TruncateMessages`, with its floor
unfoldable pub token_budget : ℕ → ℕ → ℕ
token_budget window max_output =
    let budget = window - max_output - 2000 in if leb budget 0 then 4000 else budget

abbrev pub is_system : Message → Bool
is_system m = text_eq m.role (codes "system")

-- `firstNonSystem`
unfoldable pub first_non_system : List Message → ℕ
first_non_system [] = 0
first_non_system (m ∷ ms) = let rest = first_non_system ms in if is_system m then suc rest else 0

-- `append(messages[:k], messages[k+1:]...)`
unfoldable pub remove_at : ℕ → List Message → List Message
remove_at k [] = []
remove_at zero (m ∷ ms) = ms
remove_at (suc k) (m ∷ ms) = m ∷ remove_at k ms

module _ (size : List Message → ℕ) where
  -- `EstimateTokens`
  abbrev pub estimate_tokens : List Message → ℕ
  estimate_tokens ms = size ms / 4

  abbrev pub is_over : ℕ → ℕ → List Message → Bool
  is_over budget k ms = ltb (suc k) (length ms) && ltb budget (estimate_tokens ms)

  -- The loop that drops the message at index `k`, on fuel: each round makes the list shorter.
  unfoldable pub drop_oldest : ℕ → ℕ → ℕ → List Message → ℕ → List Message × ℕ
  unfolding remove_at
  drop_oldest zero budget k ms dropped = (ms, dropped)
  drop_oldest (suc fuel) budget k ms dropped =
      let later = drop_oldest fuel budget k (remove_at k ms) (suc dropped) in
      if is_over budget k ms then later else (ms, dropped)

  -- the rest of `TruncateMessages`, by the budget and `firstNonSystem`
  unfoldable pub truncate_to : ℕ → ℕ → List Message → List Message × ℕ
  unfolding drop_oldest
  truncate_to budget k ms =
      let cut = drop_oldest (length ms) budget k ms 0 in
      if leb (length ms) 0
      then (ms, 0)
      else if leb (estimate_tokens ms) budget
      then (ms, 0)
      else if leb (length ms) (suc k)
      then (ms, 0)
      else cut

  -- `TruncateMessages`
  unfoldable pub truncate_messages : ℕ → ℕ → List Message → List Message × ℕ
  unfolding token_budget first_non_system truncate_to
  truncate_messages window max_output ms =
      truncate_to (token_budget window max_output) (first_non_system ms) ms
