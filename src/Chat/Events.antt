-- ===== src/Chat/Events.antt =====
-- ChatViewModel::handleGatewayEvent: the messages and reactions that the gateway reports.
use voxter.Common.{
  String, Bool, true, false, ◌&&◌, ◌||◌, List, [], ◌∷◌, ◌++◌, Option, none, some, ◌==◌,
  if◌then◌else◌,
}
use voxter.Variant
use voxter.Variant.{
  Value, Fields, text, list, end, value, insert, json_string, to_list, to_map, to_string, to_values,
}
use voxter.Store.{set_messages}
use voxter.Store.Messages.{upsert_message, remove_message, message_id}
use voxter.Chat.{Chat, on_store}

abbrev pub text_of : Fields → String → String
text_of payload k = json_string (value payload k)

unfoldable pub new_reaction : String → String → Value
new_reaction user emoji =
    Variant.map (insert "userId" (text user) (insert "emoji" (text emoji) end))

abbrev pub is_reaction : String → String → Value → Bool
is_reaction user emoji r =
    to_string (value (to_map r) "userId") == user && to_string (value (to_map r) "emoji") == emoji

-- the loop from the end: the last reaction of the user with the emoji is left out
unfoldable pub drop_last_reaction : String → String → List Value → Option (List Value)
drop_last_reaction user emoji [] = none
drop_last_reaction user emoji (r ∷ rs) = elim (drop_last_reaction user emoji rs) [
  | some rest ↦ some (r ∷ rest)
  | none ↦ if is_reaction user emoji r then some rs else none
]

unfoldable pub change_reactions : Bool → String → String → List Value → List Value
change_reactions adding user emoji rs =
    if adding
    then rs ++ new_reaction user emoji ∷ []
    else elim (drop_last_reaction user emoji rs) [ none ↦ rs | some rest ↦ rest ]

abbrev pub reactions_of : Value → List Value
reactions_of m = to_list (value (to_map m) "reactions")

unfoldable pub with_reactions : Bool → String → String → Value → Value
with_reactions adding user emoji m = Variant.map (
    insert "reactions" (list (to_values (change_reactions adding user emoji (reactions_of m))))
      (to_map m))

-- the loop over the messages: none, if no message has the id
unfoldable pub change_first : Bool → String → String → String → List Value → Option (List Value)
change_first adding id user emoji [] = none
change_first adding id user emoji (m ∷ ms) =
    let rest = change_first adding id user emoji ms in
    if message_id m == id
    then some (with_reactions adding user emoji m ∷ ms)
    else elim rest [ none ↦ none | some r ↦ some (m ∷ r) ]

unfoldable pub on_reaction : Bool → Fields → Chat → Chat
on_reaction adding payload c =
    elim (change_first adding (text_of payload "messageId") (text_of payload "userId")
      (text_of payload "emoji") c.store.messages) [
        | none ↦ c
        | some messages ↦ on_store (set_messages messages) c
      ]

unfoldable pub handle_gateway_event : String → Fields → Chat → Chat
handle_gateway_event event payload c =
    let here = text_of payload "channelId" == c.store.current_channel_id in
    let in_thread = text_of payload "dmThreadId" == c.store.current_dm_thread_id in
    if event == "message_create" || event == "message_update"
    then if here then on_store (upsert_message payload) c else c
    else if event == "message_delete"
    then if here then on_store (remove_message (text_of payload "messageId")) c else c
    else if event == "dm_message_create"
    then if in_thread then on_store (upsert_message payload) c else c
    else if event == "message_reaction_add"
    then on_reaction true payload c
    else if event == "message_reaction_remove"
    then on_reaction false payload c
    else c
