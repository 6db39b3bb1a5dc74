-- ===== src/Chat.antt =====
-- client/src/viewmodels/ChatViewModel, and the slot of client/src/app/Application that opens a
-- channel: the messages of the open channel or direct thread. `pending` lists the calls in flight,
-- the latest first, each with what its callback does. Trimming and the disk are parameters.
pub mod Events
pub mod Order
pub mod Reactions
pub mod Filtering
pub mod Relevance
pub mod Shapes
use voxter.Common.{
  ℕ, zero, suc, String, Bool, true, false, not, ◌&&◌, ◌||◌, List, [], ◌∷◌, ◌++◌, Option, none, some,
  ◌==◌, is_empty, if◌then◌else◌, string_dec,
}
use voxter.Variant
use voxter.Variant.{
  Value, Fields, text, list, end, value, insert, json_string, to_list, to_map, to_string, to_values,
}
use voxter.Api.{ApiCall, Answer, ok, failed}
use voxter.Store.{AppStore, set_messages, set_current_channel_id, set_current_dm_thread_id}
use voxter.Store.Messages.{upsert_message, remove_message, message_id}

-- The callbacks.
pub data Handler : Type 0 where
  channel_page : Bool → Handler
  dm_page : Bool → Handler
  upsert : Handler
  removal : String → Handler
  acknowledge : Handler
  typed : Handler

pub record Chat : Type 0 where
  pub store : AppStore
  pub channel_cursor : String
  pub dm_cursor : String
  pub busy : Bool
  pub error : String
  pub pending : List (ApiCall × Handler)

abbrev pub on_store : (AppStore → AppStore) → Chat → Chat
on_store f c = record c { store = f c.store }

abbrev send : ApiCall → Handler → Chat → Chat
send call handler c = record c { pending = (call, handler) ∷ c.pending }

unfoldable pub set_error : String → Chat → Chat
set_error e c = record c { error = e }

-- toChronological: the items backwards, each as a map
unfoldable pub to_chronological : List Value → List Value
to_chronological [] = []
to_chronological (i ∷ is) = to_chronological is ++ Variant.map (to_map i) ∷ []

-- the loop that puts an older page in front
unfoldable pub prepend_all : List Value → List Value → List Value
prepend_all [] current = current
prepend_all (i ∷ is) current = prepend_all is (i ∷ current)

unfoldable pub load_channel_messages : Bool → Chat → Chat
load_channel_messages reset c =
    let channel = c.store.current_channel_id in
    let cursor = if reset then "" else c.channel_cursor in
    if is_empty channel
    then c
    else send (ApiCall.list_messages channel cursor "") (channel_page reset)
        (record c { busy = true; channel_cursor = if reset then "" else c.channel_cursor })

unfoldable pub load_dm_messages : Bool → Chat → Chat
load_dm_messages reset c =
    let thread = c.store.current_dm_thread_id in
    let cursor = if reset then "" else c.dm_cursor in
    if is_empty thread
    then c
    else send (ApiCall.list_dm_messages thread cursor) (dm_page reset)
        (record c { busy = true; dm_cursor = if reset then "" else c.dm_cursor })

-- what both callbacks of a page store
unfoldable pub show_page : Bool → Fields → Chat → Chat
show_page reset response c =
    let timeline = to_chronological (to_list (value response "items")) in
    on_store (set_messages (if reset then timeline else prepend_all timeline c.store.messages)) c

unfoldable pub on_channel_page : Bool → Answer Fields → Chat → Chat
on_channel_page reset (failed e) c = set_error e (record c { busy = false })
on_channel_page reset (ok response) c =
    set_error "" (record (show_page reset response (record c { busy = false })) {
      channel_cursor = json_string (value response "nextCursor");
    })

unfoldable pub on_dm_page : Bool → Answer Fields → Chat → Chat
on_dm_page reset (failed e) c = set_error e (record c { busy = false })
on_dm_page reset (ok response) c =
    set_error "" (record (show_page reset response (record c { busy = false })) {
      dm_cursor = json_string (value response "nextCursor");
    })

-- the callback of a call with a message in its response
unfoldable pub on_upsert : Answer Fields → Chat → Chat
on_upsert (failed e) c = set_error e c
on_upsert (ok response) c = set_error "" (on_store (upsert_message response) c)

unfoldable pub on_removal : String → Answer Fields → Chat → Chat
on_removal id (failed e) c = set_error e c
on_removal id (ok _) c = set_error "" (on_store (remove_message id) c)

unfoldable pub on_acknowledge : Answer Fields → Chat → Chat
on_acknowledge (failed e) c = set_error e c
on_acknowledge (ok _) c = set_error "" c

unfoldable pub on_typed : Answer Fields → Chat → Chat
on_typed (failed e) c = set_error e c
on_typed (ok _) c = c

unfoldable pub resume : Handler → Answer Fields → Chat → Chat
resume (channel_page reset) a c = on_channel_page reset a c
resume (dm_page reset) a c = on_dm_page reset a c
resume upsert a c = on_upsert a c
resume (removal id) a c = on_removal id a c
resume acknowledge a c = on_acknowledge a c
resume typed a c = on_typed a c

-- The n-th call in flight and the others.
unfoldable pub take_call :
    ℕ → List (ApiCall × Handler) → Option (Handler × List (ApiCall × Handler))
take_call n [] = none
take_call zero ((_, h) ∷ ps) = some (h, ps)
take_call (suc n) (p ∷ ps) = elim (take_call n ps) [
  | none ↦ none
  | some (h, rest) ↦ some (h, p ∷ rest)
]

unfoldable pub on_answer : ℕ → Answer Fields → Chat → Chat
on_answer n a c = elim (take_call n c.pending) [
  | none ↦ c
  | some (h, rest) ↦ resume h a (record c { pending = rest })
]

-- The slot of Application on currentChannelIdChanged, and a change of the channel with it.
unfoldable pub on_channel_changed : Chat → Chat
on_channel_changed c =
    if is_empty c.store.current_channel_id
    then c
    else load_channel_messages true (on_store (set_current_dm_thread_id "") c)

unfoldable pub open_channel : String → Chat → Chat
open_channel id c =
    if c.store.current_channel_id == id
    then c
    else on_channel_changed (on_store (set_current_channel_id id) c)

unfoldable pub select_dm_thread : String → Chat → Chat
select_dm_thread thread c =
    if is_empty thread
    then c
    else load_dm_messages true (open_channel "" (on_store (set_current_dm_thread_id thread) c))

module _ (trimmed : String → String) where
  unfoldable pub send_message : String → Chat → Chat
  send_message content c =
      let channel = c.store.current_channel_id in
      if is_empty (trimmed content) || is_empty channel
      then c
      else send (ApiCall.send_message channel (trimmed content)) upsert c

  unfoldable pub edit_message : String → String → Chat → Chat
  edit_message id content c =
      let channel = c.store.current_channel_id in
      if is_empty id || is_empty (trimmed content) || is_empty channel
      then c
      else send (ApiCall.edit_message channel id content) upsert c

  unfoldable pub send_dm_message : String → Chat → Chat
  send_dm_message content c =
      let thread = c.store.current_dm_thread_id in
      if is_empty thread || is_empty (trimmed content)
      then c
      else send (ApiCall.send_dm_message thread (trimmed content)) upsert c

unfoldable pub delete_message : String → Chat → Chat
delete_message id c =
    let channel = c.store.current_channel_id in
    if is_empty id || is_empty channel
    then c
    else send (ApiCall.delete_message channel id) (removal id) c

unfoldable pub react_to_message : String → String → Chat → Chat
react_to_message id emoji c =
    let channel = c.store.current_channel_id in
    if is_empty id || is_empty emoji || is_empty channel
    then c
    else send (ApiCall.toggle_reaction channel id emoji) acknowledge c

unfoldable pub send_typing : Chat → Chat
send_typing c =
    let channel = c.store.current_channel_id in
    if is_empty channel then c else send (ApiCall.send_typing channel) typed c

-- `local` turns a file URL into a path and leaves any other text alone; `exists` is
-- QFileInfo::exists.
module _ (local : String → String) (exists : String → Bool) where
  unfoldable pub upload_attachment : String → String → Chat → Chat
  upload_attachment file content c =
      let channel = c.store.current_channel_id in
      if is_empty channel
      then c
      else if not (exists (local file))
      then set_error "File not found" c
      else send (ApiCall.upload_attachment channel (local file) content) upsert c
