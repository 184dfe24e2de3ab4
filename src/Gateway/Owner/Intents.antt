-- ===== src/Gateway/Owner/Intents.antt =====
-- The intent and the target of a natural command (services/api/internal/api/handler/gateway.go).
use agent_nexus.Prelude.{
  ℕ, zero, suc, Bool, true, false, not, ◌&&◌, Option, none, some, List, [], ◌∷◌, if◌then◌else◌,
  length, drop,
}
use agent_nexus.Prelude.Text.{Text, codes, is_blank, to_lower, trim_space, has_prefix}
use agent_nexus.Prelude.Strings.{trim_of, contains_any}
use agent_nexus.Gateway.Owner.{
  Intent, extract_name_phone, normalize_reply_phrase, replace_each, is_mark,
}

abbrev enable_replacements : List (Text × Text)
enable_replacements =
    (codes "start replying to ", [])
    ∷ (codes "auto reply to ", [])
    ∷ (codes "auto-reply to ", [])
    ∷ (codes "allow ", [])
    ∷ (codes "enable replies for ", [])
    ∷ (codes "turn on replies for ", [])
    ∷ (codes "let ", [])
    ∷ (codes " talk to the agent", [])
    ∷ (codes " talk to assistant", [])
    ∷ (codes " talk to the assistant", [])
    ∷ (codes " to talk to the agent", [])
    ∷ (codes " to talk to assistant", [])
    ∷ (codes " to talk to the assistant", [])
    ∷ (codes " access the agent", [])
    ∷ (codes " use the agent", [])
    ∷ (codes " message the agent", [])
    ∷ (codes " her number is ", codes " ")
    ∷ (codes " his number is ", codes " ")
    ∷ (codes " their number is ", codes " ")
    ∷ (codes " number is ", codes " ")
    ∷ (codes " on whatsapp", [])
    ∷ []

abbrev disable_replacements : List (Text × Text)
disable_replacements =
    (codes "stop replying to ", [])
    ∷ (codes "pause replying to ", [])
    ∷ (codes "disable replies for ", [])
    ∷ (codes "turn off replies for ", [])
    ∷ (codes "stop the agent for ", [])
    ∷ (codes "pause the agent for ", [])
    ∷ (codes "disable auto reply to ", [])
    ∷ (codes "disable auto-reply to ", [])
    ∷ (codes "turn off auto reply to ", [])
    ∷ (codes "turn off auto-reply to ", [])
    ∷ (codes "stop auto reply to ", [])
    ∷ (codes "stop auto-reply to ", [])
    ∷ (codes "disable auto reply for ", [])
    ∷ (codes "disable auto-reply for ", [])
    ∷ []

abbrev pub verbs : List Text
verbs =
    codes "please "
    ∷ codes "enable "
    ∷ codes "disable "
    ∷ codes "turn on "
    ∷ codes "turn off "
    ∷ codes "start "
    ∷ codes "stop "
    ∷ codes "auto replies for "
    ∷ codes "auto replies to "
    ∷ codes "auto-replies for "
    ∷ codes "auto-replies to "
    ∷ codes "autoreplies for "
    ∷ codes "autoreplies to "
    ∷ codes "auto reply to "
    ∷ codes "auto-reply to "
    ∷ codes "auto reply for "
    ∷ codes "auto-reply for "
    ∷ codes "autoreply for "
    ∷ codes "autoreply to "
    ∷ codes "replies for "
    ∷ codes "replies to "
    ∷ codes "reply to "
    ∷ codes "reply for "
    ∷ []

-- the first verb that a text begins with
abbrev pub leading_verb : List Text → Text → Option Text
leading_verb [] lower = none
leading_verb (v ∷ vs) lower = if has_prefix lower v then some v else leading_verb vs lower

-- one round of the loop that strips verbs; none is the round that strips nothing
abbrev pub strip_round : List Text → Text → Option Text
strip_round vs s = elim (leading_verb vs (to_lower s)) [
  | none ↦ none
  | some v ↦ some (trim_space (drop (length v) s))
]

-- the loop, on fuel: a round that strips makes the text shorter
unfoldable pub strip_verbs : List Text → ℕ → Text → Text
strip_verbs vs zero s = s
strip_verbs vs (suc n) s = elim (strip_round vs s) [ none ↦ s | some t ↦ strip_verbs vs n t ]

unfoldable pub clean_owner_command_target : Text → Bool → Text
unfolding strip_verbs
clean_owner_command_target raw enable =
    let replaced =
      replace_each (if enable then enable_replacements else disable_replacements)
        (trim_space raw) in
    let s = trim_of is_mark (trim_space replaced) in
    trim_of is_mark (trim_space (strip_verbs verbs (length s) s))

abbrev pub enable_bot_phrases : List Text
enable_bot_phrases =
    codes "enable bot mode"
    ∷ codes "turn on bot mode"
    ∷ codes "mark channel as bot"
    ∷ codes "mark this channel as bot"
    ∷ codes "make this channel a bot"
    ∷ []

abbrev pub disable_bot_phrases : List Text
disable_bot_phrases =
    codes "disable bot mode"
    ∷ codes "turn off bot mode"
    ∷ codes "unmark channel as bot"
    ∷ codes "unmark this channel as bot"
    ∷ []

abbrev pub start_phrases : List Text
start_phrases =
    codes "start assistant"
    ∷ codes "resume assistant"
    ∷ codes "turn on assistant"
    ∷ codes "start replies"
    ∷ codes "resume replies"
    ∷ []

abbrev pub stop_phrases : List Text
stop_phrases =
    codes "stop assistant"
    ∷ codes "pause assistant"
    ∷ codes "turn off assistant"
    ∷ codes "stop replies"
    ∷ codes "pause replies"
    ∷ []

abbrev pub stop_contact_phrases : List Text
stop_contact_phrases =
    codes "stop replying to "
    ∷ codes "pause replying to "
    ∷ codes "disable reply for "
    ∷ codes "disable reply to "
    ∷ codes "turn off reply for "
    ∷ codes "turn off reply to "
    ∷ codes "stop the agent for "
    ∷ codes "pause the agent for "
    ∷ codes "disable auto reply to "
    ∷ codes "disable auto reply for "
    ∷ codes "turn off auto reply to "
    ∷ codes "turn off auto reply for "
    ∷ codes "stop auto reply to "
    ∷ codes "stop auto reply for "
    ∷ []

abbrev pub start_contact_phrases : List Text
start_contact_phrases =
    codes "start replying to "
    ∷ codes "auto reply to "
    ∷ codes "auto reply for "
    ∷ codes "allow "
    ∷ codes "enable reply for "
    ∷ codes "enable reply to "
    ∷ codes "turn on reply for "
    ∷ codes "turn on reply to "
    ∷ codes "let "
    ∷ []

abbrev pub agent_words : List Text
agent_words =
    codes "agent"
    ∷ codes "assistant"
    ∷ codes "reply"
    ∷ codes "talk"
    ∷ codes "message"
    ∷ codes "whatsapp"
    ∷ []

abbrev pub number_verbs : List Text
number_verbs = codes "start " ∷ codes "add " ∷ codes "allow " ∷ codes "enable " ∷ []

abbrev pub contact_intent : Text → Text → Option Intent
contact_intent raw body =
    let nb = normalize_reply_phrase body in
    if contains_any nb stop_contact_phrases
    then some (Intent.stop_contact (clean_owner_command_target raw false))
    else if contains_any nb start_contact_phrases && contains_any nb agent_words
    then some (Intent.start_contact (clean_owner_command_target raw true))
    else if not (is_blank (extract_name_phone raw).1) && contains_any body number_verbs
    then some (Intent.start_contact (clean_owner_command_target raw true))
    else none

-- the switch over the phrases, and what follows it
unfoldable pub intent_of : Text → Text → Option Intent
intent_of raw body =
    if contains_any body enable_bot_phrases
    then some Intent.enable_bot_mode
    else if contains_any body disable_bot_phrases
    then some Intent.disable_bot_mode
    else if contains_any body start_phrases
    then some Intent.start_assistant
    else if contains_any body stop_phrases
    then some Intent.stop_assistant
    else contact_intent raw body

unfoldable pub parse_owner_natural_command : Text → Option Intent
parse_owner_natural_command raw =
    let body = to_lower (trim_space raw) in if is_blank body then none else intent_of raw body
