-- ===== src/Workflow/Delivery.antt =====
-- `executeWorkflowWebhook` and `deliverWorkflowGateway`
-- (services/api/internal/api/handler/workflow_nodes.go): their guards and what they make of the
-- answer. The body that is sent is not part of the model.
use agent_nexus.Prelude.{
  ℕ, ◌+◌, ◌/◌, ◌%◌, ◌||◌, [], ◌∷◌, ◌++◌, Option, some, ltb, leb, ◌==◌, if◌then◌else◌,
}
use agent_nexus.Prelude.Text.{Text, codes, is_blank, text_eq, trim_space}
use agent_nexus.Workflow.Graph.{Delivery}

-- What the HTTP client answers: the request cannot be built, it fails, or a response with its status
-- code, its status line and its first 256 KB.
pub data HttpReply : Type 0 where
  bad_request transport_error : Text → HttpReply
  response : ℕ → Text → Text → HttpReply

-- the value of a call with its error
pub data Outcome : Type 0 where
  ok : Text → Outcome
  err : Text → Outcome

-- `%d` of a number with three digits
abbrev pub three_digits : ℕ → Text
three_digits n = (48 + n / 100) ∷ (48 + n / 10 % 10) ∷ (48 + n % 10) ∷ []

unfoldable pub read_response : Text → HttpReply → Outcome
read_response url (bad_request e) = err (codes "webhook: invalid request: " ++ e)
read_response url (transport_error e) = err (codes "webhook: " ++ e)
read_response url (response code status body) =
    if ltb code 200 || leb 300 code
    then err (
        codes "webhook: "
        ++ (url ++ (codes " returned " ++ (status ++ (codes ": " ++ trim_space body)))))
    else if is_blank body
    then ok (codes "{\"delivered\":true,\"status\":" ++ (three_digits code ++ codes "}"))
    else ok body

unfoldable pub execute_webhook : Text → HttpReply → Outcome
unfolding read_response
execute_webhook url reply =
    if is_blank url
    then err (codes "webhook node has no url configured")
    else read_response url reply

-- Go's `%q` of an ASCII text.
abbrev hex_digit : ℕ → ℕ
hex_digit d = if ltb d 10 then 48 + d else 87 + d

unfoldable pub quote_char : ℕ → Text
quote_char c =
    if c == b'"'
    then 92 ∷ b'"' ∷ []
    else if c == 92
    then 92 ∷ 92 ∷ []
    else if c == 7
    then 92 ∷ b'a' ∷ []
    else if c == 8
    then 92 ∷ b'b' ∷ []
    else if c == 9
    then 92 ∷ b't' ∷ []
    else if c == 10
    then 92 ∷ b'n' ∷ []
    else if c == 11
    then 92 ∷ b'v' ∷ []
    else if c == 12
    then 92 ∷ b'f' ∷ []
    else if c == 13
    then 92 ∷ b'r' ∷ []
    else if ltb c 32 || c == 127
    then 92 ∷ b'x' ∷ hex_digit (c / 16) ∷ hex_digit (c % 16) ∷ []
    else c ∷ []

unfoldable pub quote_chars : Text → Text
unfolding quote_char
quote_chars [] = []
quote_chars (c ∷ s) = quote_char c ++ quote_chars s

-- What the repository and the adapter answer: no such channel in the workspace, or a channel's name
-- and type, and the error of the send, if there is one.
pub data GatewayReply : Type 0 where
  no_channel : GatewayReply
  channel : Text → Text → Option Text → GatewayReply

unfoldable pub send_to_channel : GatewayReply → Option Text
unfolding quote_chars
send_to_channel no_channel = some (codes "gateway channel not found")
send_to_channel (channel name type sent) =
    if text_eq type (codes "whatsapp")
    then sent
    else some (
        codes "gateway delivery supports whatsapp channels only (channel \""
        ++ (quote_chars name ++ (codes "\" is \"" ++ (quote_chars type ++ codes "\")"))))

-- the error, if there is one
unfoldable pub deliver_gateway : Delivery → GatewayReply → Option Text
unfolding send_to_channel
deliver_gateway d reply =
    if is_blank d.channel_id || is_blank d.peer_id
    then some (codes "gateway delivery needs channel_id and peer_id")
    else send_to_channel reply

-- `fmt.Sprintf(`{"error":%q}`, message)`
unfoldable pub error_envelope : Text → Text
unfolding quote_chars
error_envelope message = codes "{\"error\":\"" ++ (quote_chars message ++ codes "\"}")
