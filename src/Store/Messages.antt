-- ===== src/Store/Messages.antt =====
-- AppStore::upsertMessage and AppStore::removeMessage.
pub mod Identity
use voxter.Common.{
  String, Bool, true, false, List, [], ◌∷◌, Option, none, some, ite, ◌==◌, is_empty, if◌then◌else◌,
  string_dec,
}
use voxter.Variant.{Value, Fields, map, value, to_map, to_string}
use voxter.Store.{AppStore, messages_changed, set_messages}

unfoldable pub id_of : Fields → String
id_of f = to_string (value f "id")

unfoldable pub message_id : Value → String
unfolding id_of
message_id v = id_of (to_map v)

-- the loop of upsertMessage: the first message with the id is replaced, or the end is reached
unfoldable pub put_message : String → Fields → List Value → List Value
unfolding message_id
put_message id message [] = map message ∷ []
put_message id message (m ∷ ms) =
    if message_id m == id then map message ∷ ms else m ∷ put_message id message ms

unfoldable pub upsert_message : Fields → AppStore → AppStore
unfolding put_message set_messages
upsert_message message s =
    if is_empty (id_of message)
    then s
    else set_messages (put_message (id_of message) message s.messages) s

-- the loop of removeMessage: none, if no message has the id
unfoldable pub drop_message : String → List Value → Option (List Value)
unfolding message_id
drop_message id [] = none
drop_message id (m ∷ ms) =
    let rest = drop_message id ms in
    if message_id m == id then some ms else elim rest [ none ↦ none | some r ↦ some (m ∷ r) ]

unfoldable pub remove_message : String → AppStore → AppStore
unfolding drop_message set_messages
remove_message id s = elim (drop_message id s.messages) [ none ↦ s | some r ↦ set_messages r s ]
