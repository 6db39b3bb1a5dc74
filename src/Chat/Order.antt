-- ===== src/Chat/Order.antt =====
-- The order in which pages of messages are shown, and answers that come late.
use voxter.Common.{◌≡◌, ◌≢◌, refl, ap, ◌∙◌, String, true, false, List, [], ◌∷◌, ◌++◌, arith, map}
use voxter.Variant
use voxter.Variant.{Value, Fields, value, to_list, to_map}
use voxter.Api.{ok}
use voxter.Store.{set_messages, set_current_channel_id, set_current_dm_thread_id}
use voxter.Chat.{
  Chat, to_chronological, prepend_all, show_page, on_channel_page, on_dm_page, set_error, on_answer,
  open_channel, on_channel_changed, load_channel_messages, take_call, resume,
}

-- An item of a page as a message, and the items of a response.
abbrev pub message_of : Value → Value
message_of i = Variant.map (to_map i)

abbrev pub items : Fields → List Value
items response = to_list (value response "items")

prepend_all-append :
    (k l current : List Value)
    → prepend_all (k ++ l) current ≡ prepend_all l (prepend_all k current)
unfolding prepend_all
prepend_all-append [] l current = refl
prepend_all-append (i ∷ k) l current = prepend_all-append k l (i ∷ current)

prepend_all-to_chronological :
    (l current : List Value)
    → prepend_all (to_chronological l) current ≡ map message_of l ++ current
unfolding prepend_all to_chronological
prepend_all-to_chronological [] current = refl
prepend_all-to_chronological (i ∷ l) current =
    prepend_all-append (to_chronological l) (message_of i ∷ []) current
    ∙ ap (◌∷◌ (message_of i)) (prepend_all-to_chronological l current)

-- The first page of a channel shows its items from the last to the first, but a further page goes
-- in front of the messages with its items from the first to the last, not backwards; the pages of a
-- direct thread do the same.
pub older_page_order :
    (response : Fields) (c : Chat)
    → ((on_channel_page true (ok response) c).store.messages ≡ to_chronological (items response))
      × ((on_channel_page false (ok response) c).store.messages
          ≡ map message_of (items response) ++ c.store.messages)
      × ((on_dm_page true (ok response) c).store.messages ≡ to_chronological (items response))
      × ((on_dm_page false (ok response) c).store.messages
          ≡ map message_of (items response) ++ c.store.messages)
unfolding on_channel_page on_dm_page show_page set_messages set_error
older_page_order response c =
    let e = prepend_all-to_chronological (items response) c.store.messages in (refl, e, refl, e)

-- If the user opens a channel and then another one, and the answer for the first comes last, then
-- the other channel is the open one, with the messages of the first.
pub late_page_shown :
    (first second : String) (first_page second_page : Fields) (c : Chat)
    → first ≢ ""
    → second ≢ ""
    → first ≢ second
    → c.store.current_channel_id ≢ first
    → let late =
        on_answer 0
          (ok first_page)
          (on_answer 0 (ok second_page) (open_channel second (open_channel first c))) in
      (late.store.current_channel_id ≡ second)
      × (late.store.messages ≡ to_chronological (items first_page))
unfolding open_channel on_channel_changed load_channel_messages on_answer take_call resume
    on_channel_page show_page set_messages set_error set_current_channel_id set_current_dm_thread_id
late_page_shown first second first_page second_page c h k d n = ground arith
