-- ===== src/Chat/Filtering.antt =====
-- No gateway event makes two messages share an id.
use voxter.Common.{◌≡◌, refl, sym, subst, String, Bool, true, false, List, [], ◌∷◌, none, arith}
use voxter.Variant.{Value, Fields}
use voxter.Store.{AppStore}
use voxter.Store.Messages.{message_id, upsert_message, remove_message}
use voxter.Store.Messages.Identity.{find, UniqueIds, run-UniqueIds, upsert, remove, run, apply}
use voxter.Chat.{Chat}
use voxter.Chat.Events.{change_first, on_reaction, handle_gateway_event, text_of}
use voxter.Chat.Reactions.{changed, message_id-with_reactions, messages-on_reaction}

abbrev Unique : Chat → Type 0
Unique c = UniqueIds c.store.messages

upsert-Unique :
    (message : Fields) (s : AppStore)
    → UniqueIds s.messages
    → UniqueIds (upsert_message message s).messages
unfolding run apply
upsert-Unique message s u = run-UniqueIds (upsert message ∷ []) s u

remove-Unique :
    (id : String) (s : AppStore) → UniqueIds s.messages → UniqueIds (remove_message id s).messages
unfolding run apply
remove-Unique id s u = run-UniqueIds (remove id ∷ []) s u

module _ (adding : Bool) (id user emoji : String) where
  find-changed-none :
      (j : String) (l : List Value)
      → find j l ≡ none
      → find j (changed adding id user emoji l) ≡ none
  unfolding find change_first
  find-changed-none j [] e = refl
  find-changed-none j (m ∷ l) e =
      ground (arith, find-changed-none j l, message_id-with_reactions adding user emoji m)

  changed-UniqueIds : (l : List Value) → UniqueIds l → UniqueIds (changed adding id user emoji l)
  unfolding change_first
  changed-UniqueIds [] u = u
  changed-UniqueIds (m ∷ l) u = ground (
    arith,
    changed-UniqueIds l u.1,
    find-changed-none (message_id m) l u.0,
    message_id-with_reactions adding user emoji m,
  )

on_reaction-Unique :
    (adding : Bool) (payload : Fields) (c : Chat) → Unique c → Unique (on_reaction adding payload c)
on_reaction-Unique adding payload c u =
    subst UniqueIds (sym (messages-on_reaction adding payload c)) (
      changed-UniqueIds adding (text_of payload "messageId") (text_of payload "userId")
        (text_of payload "emoji") c.store.messages u)

event-Unique :
    (event : String) (payload : Fields) (c : Chat)
    → Unique c
    → Unique (handle_gateway_event event payload c)
unfolding handle_gateway_event
event-Unique event payload c u = ground (
  arith,
  upsert-Unique payload c.store u,
  remove-Unique (text_of payload "messageId") c.store u,
  on_reaction-Unique true payload c u,
  on_reaction-Unique false payload c u,
)

-- events one after the other
unfoldable pub handle_all : List (String × Fields) → Chat → Chat
handle_all [] c = c
handle_all ((event, payload) ∷ es) c = handle_all es (handle_gateway_event event payload c)

-- If no two messages share an id, then after any gateway events none do.
pub handle_all-UniqueIds :
    (es : List (String × Fields)) (c : Chat)
    → UniqueIds c.store.messages
    → UniqueIds (handle_all es c).store.messages
unfolding handle_all
handle_all-UniqueIds [] c u = u
handle_all-UniqueIds ((event, payload) ∷ es) c u =
    handle_all-UniqueIds es _ (event-Unique event payload c u)
