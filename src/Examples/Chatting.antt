-- ===== src/Examples/Chatting.antt =====
-- The chat at concrete inputs.
use voxter.Common.{◌≡◌, refl, false, String, [], ◌∷◌, string_dec, differ}
use voxter.Variant
use voxter.Variant.{
  Value, Fields, text, list, field, end, nil, cons, value, value_or, to_map, to_string, to_list,
  json_string, of_values,
}
use voxter.Api.{ok}
use voxter.Store.{init}
use voxter.Store.Messages.{message_id, id_of}
use voxter.Store.Messages.Identity.{find, UniqueIds}
use voxter.Chat.{Chat, on_channel_page, on_answer, open_channel, to_chronological}
use voxter.Chat.Events.{handle_gateway_event, new_reaction}
use voxter.Chat.Order.{older_page_order, late_page_shown}
use voxter.Chat.Reactions.{reactions_at, reaction_undone}
use voxter.Chat.Filtering.{handle_all, handle_all-UniqueIds}
use voxter.Chat.Relevance.{topic, is_shown, relevant, only_relevant_events_count}

abbrev message : String → Value
message id = Variant.map (field "id" (text id) end)

abbrev chat : Chat
chat = record {
  store = record init { messages = message "m3" ∷ message "m4" ∷ []; current_channel_id = "c" };
  channel_cursor = "";
  dm_cursor = "";
  busy = false;
  error = "";
  pending = [];
}

-- The server sends the latest message first.
abbrev page : Fields
page = field "items" (list (cons (message "m2") (cons (message "m1") nil))) end

older_page_order_example :
    (on_channel_page false (ok page) chat).store.messages
    ≡ message "m2" ∷ message "m1" ∷ message "m3" ∷ message "m4" ∷ []
unfolding init value value_or to_list to_map of_values string_dec
older_page_order_example = (older_page_order page chat).1

abbrev other_page : Fields
other_page = field "items" (list nil) end

late_page_shown_example :
    (on_answer 0
      (ok page)
      (on_answer 0 (ok other_page) (open_channel "b" (open_channel "a" chat)))).store.messages
    ≡ message "m1" ∷ message "m2" ∷ []
unfolding init value value_or to_list to_map of_values string_dec to_chronological
late_page_shown_example =
    (late_page_shown "a" "b" page other_page chat (differ "a" "" refl) (differ "b" "" refl)
      (differ "a" "b" refl) (differ "c" "a" refl)).1

abbrev thumb : Fields
thumb =
    field "channelId" (text "c")
      (field "emoji" (text "+1") (field "messageId" (text "m3") (field "userId" (text "u") end)))

reaction_undone_example :
    reactions_at "m3" (handle_gateway_event "message_reaction_add" thumb chat).store.messages
    ≡ new_reaction "u" "+1" ∷ []
unfolding init find message_id id_of value value_or to_list to_map to_string of_values json_string
    string_dec
reaction_undone_example = (reaction_undone thumb chat).1

chat-UniqueIds : UniqueIds chat.store.messages
unfolding init find message_id id_of value value_or to_map to_string string_dec
chat-UniqueIds = (refl, (refl, tt))

handle_all-UniqueIds_example :
    UniqueIds
      (handle_all
        (("message_reaction_add", thumb) ∷ ("message_delete", thumb) ∷ [])
        chat).store.messages
handle_all-UniqueIds_example =
    handle_all-UniqueIds (("message_reaction_add", thumb) ∷ ("message_delete", thumb) ∷ []) chat
      chat-UniqueIds

-- A message of another channel is deleted, and then a message of the open one is liked.
abbrev elsewhere : Fields
elsewhere = field "channelId" (text "d") (field "messageId" (text "m3") end)

only_relevant_events_count_example :
    handle_all (("message_delete", elsewhere) ∷ ("message_reaction_add", thumb) ∷ []) chat
    ≡ handle_all (("message_reaction_add", thumb) ∷ []) chat
unfolding init relevant is_shown topic find message_id id_of value value_or to_map to_string
    json_string string_dec
only_relevant_events_count_example =
    only_relevant_events_count
      (("message_delete", elsewhere) ∷ ("message_reaction_add", thumb) ∷ []) chat
