-- ===== src/Provider/Tests.antt =====
-- A conversation that is too long, with a size of 20000 bytes for each message.
use agent_nexus.Prelude.{ℕ, ◌*◌, ◌≡◌, refl, false, List, [], ◌∷◌, none, length, All, take, drop}
use agent_nexus.Prelude.Text.{Text, codes}
use agent_nexus.Provider.{Message}
use agent_nexus.Provider.Tokens.{context_window, token_budget, first_non_system, truncate_messages}
use agent_nexus.Provider.Truncation.{IsCut, NoSystemFirst, truncate_messages-IsCut}

abbrev message : Text → Message
message role = record {
  role = role;
  content = [];
  tool_call_id = [];
  tool_name = [];
  tool_calls = [];
  is_error = false;
}

abbrev long : List Message
long =
    message (codes "system")
    ∷ message (codes "user")
    ∷ message (codes "assistant")
    ∷ message (codes "user")
    ∷ []

abbrev twenty_thousand : List Message → ℕ
twenty_thousand ms = length ms * 20000

truncate_messages-long :
    truncate_messages twenty_thousand (context_window none) 1000 long
    ≡ (message (codes "system") ∷ message (codes "user") ∷ [], 2)
unfolding truncate_messages context_window
truncate_messages-long = refl

truncate_messages-IsCut_example :
    IsCut twenty_thousand
      (token_budget 8192 1000)
      (take (first_non_system long) long)
      (drop (first_non_system long) long)
      0
      (truncate_messages twenty_thousand 8192 1000 long)
    × All (λ (m : Message). m.role ≡ codes "system") (take (first_non_system long) long)
    × NoSystemFirst (drop (first_non_system long) long)
truncate_messages-IsCut_example = truncate_messages-IsCut twenty_thousand 8192 1000 long
