-- ===== src/Chat/Relevance.antt =====
-- Which gateway events reach the chat: those about the conversation that is open, and reactions to a
-- message that is shown.
use voxter.Common.{
  ◌≡◌, refl, String, Bool, true, false, ◌||◌, List, [], ◌∷◌, none, some, arith, ◌==◌, if◌then◌else◌,
}
use voxter.Variant.{Value, Fields}
use voxter.Store.Messages.Identity.{find}
use voxter.Chat.{Chat}
use voxter.Chat.Events.{change_first, on_reaction, handle_gateway_event, text_of}
use voxter.Chat.Filtering.{handle_all}

-- What an event is about: a channel, a direct thread or a message with an id, or none of these.
pub data Topic : Type 0 where
  channel thread message : String → Topic
  other : Topic

unfoldable pub topic : String → Fields → Topic
topic event payload =
    if event == "message_create" || event == "message_update"
    then channel (text_of payload "channelId")
    else if event == "message_delete"
    then channel (text_of payload "channelId")
    else if event == "dm_message_create"
    then thread (text_of payload "dmThreadId")
    else if event == "message_reaction_add" || event == "message_reaction_remove"
    then message (text_of payload "messageId")
    else other

unfoldable pub is_shown : Topic → Chat → Bool
is_shown (channel id) c = id == c.store.current_channel_id
is_shown (thread id) c = id == c.store.current_dm_thread_id
is_shown (message id) c = elim (find id c.store.messages) [ none ↦ false | some _ ↦ true ]
is_shown other c = false

-- Those of a sequence of events whose topic is shown when they come.
unfoldable pub relevant : List (String × Fields) → Chat → List (String × Fields)
relevant [] c = []
relevant ((event, payload) ∷ es) c =
    let followed = (event, payload) ∷ relevant es (handle_gateway_event event payload c) in
    let skipped = relevant es c in if is_shown (topic event payload) c then followed else skipped

change_first-none :
    (adding : Bool) (id user emoji : String) (l : List Value)
    → find id l ≡ none
    → change_first adding id user emoji l ≡ none
unfolding find change_first
change_first-none adding id user emoji [] e = refl
change_first-none adding id user emoji (m ∷ l) e =
    ground (arith, change_first-none adding id user emoji l)

on_reaction-none :
    (adding : Bool) (payload : Fields) (c : Chat)
    → is_shown (message (text_of payload "messageId")) c ≡ false
    → on_reaction adding payload c ≡ c
unfolding on_reaction is_shown
on_reaction-none adding payload c e = ground (
  arith,
  change_first-none adding (text_of payload "messageId") (text_of payload "userId")
      (text_of payload "emoji") c.store.messages,
)

-- An event whose topic is not shown changes nothing.
unshown_ignored :
    (event : String) (payload : Fields) (c : Chat)
    → is_shown (topic event payload) c ≡ false
    → handle_gateway_event event payload c ≡ c
unfolding topic handle_gateway_event is_shown
unshown_ignored event payload c e =
    ground (arith, on_reaction-none true payload c, on_reaction-none false payload c)

-- After any gateway events the chat is as if, of them, only those had come that were about the open
-- channel, about the open direct thread, or about a reaction to a message that was shown when they
-- came.
pub only_relevant_events_count :
    (es : List (String × Fields)) (c : Chat) → handle_all es c ≡ handle_all (relevant es c) c
unfolding handle_all relevant
only_relevant_events_count [] c = refl
only_relevant_events_count ((event, payload) ∷ es) c = ground (
  arith,
  unshown_ignored event payload c,
  only_relevant_events_count es c,
  only_relevant_events_count es (handle_gateway_event event payload c),
)
