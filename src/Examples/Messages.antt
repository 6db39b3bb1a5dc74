-- ===== src/Examples/Messages.antt =====
-- The message list of the store at concrete inputs.
use voxter.Common.{◌≡◌, refl, String, List, [], ◌∷◌, string_dec}
use voxter.Variant.{Fields, map, text, field, end, value, to_map, to_string, value_or}
use voxter.Store.{AppStore, init, set_messages}
use voxter.Store.Messages.{
  id_of, message_id, upsert_message, put_message, remove_message, drop_message,
}
use voxter.Store.Messages.Identity.{
  Edit, upsert, remove, apply, run, run_view, view_of, find, UniqueIds, run-refines-view,
}

abbrev message : String → String → Fields
message id content = field "id" (text id) (field "content" (text content) end)

abbrev edits : List Edit
edits =
    upsert (message "m1" "hi")
    ∷ upsert (message "m2" "there")
    ∷ upsert (message "m1" "hello")
    ∷ remove "m2"
    ∷ []

abbrev two_messages : AppStore
two_messages = record init { messages = map (message "m1" "hi") ∷ map (message "m2" "there") ∷ [] }

two_messages-UniqueIds : UniqueIds two_messages.messages
unfolding find init message_id id_of to_map to_string value value_or string_dec
two_messages-UniqueIds = (refl, (refl, tt))

run_example : (run edits init).messages ≡ map (message "m1" "hello") ∷ []
unfolding find init message_id id_of to_map to_string value value_or string_dec run apply
    upsert_message remove_message set_messages put_message drop_message
run_example = refl

run-refines-view_example : view_of (run edits two_messages) ≡ run_view edits (view_of two_messages)
run-refines-view_example = run-refines-view edits two_messages two_messages-UniqueIds
