-- ===== src/Chat/Reactions.antt =====
-- Reactions: one that is added and taken back leaves the others.
use voxter.Common.{
  ◌≡◌, refl, ap, ◌∙◌, String, Bool, true, false, List, [], ◌∷◌, ◌++◌, none, some, arith, string_dec,
  Option-cases, inl, inr,
}
use voxter.Variant.{
  Value, Fields, list, value, value_or, insert, to_list, to_map, to_string, to_values,
}
use voxter.Variant.Laws.{value-insert, of_values-to_values}
use voxter.Store.{set_messages}
use voxter.Store.Messages.{message_id, id_of}
use voxter.Store.Messages.Identity.{find}
use voxter.Chat.{Chat}
use voxter.Chat.Events.{
  new_reaction, is_reaction, drop_last_reaction, change_reactions, reactions_of, with_reactions,
  change_first, on_reaction, handle_gateway_event, text_of,
}

-- The reactions to the message with an id.
unfoldable pub reactions_at : String → List Value → List Value
reactions_at id l = elim (find id l) [ none ↦ [] | some m ↦ reactions_of m ]

new_reaction-names :
    (user emoji : String)
    → (to_string (value (to_map (new_reaction user emoji)) "userId") ≡ user)
      × (to_string (value (to_map (new_reaction user emoji)) "emoji") ≡ emoji)
unfolding new_reaction to_map to_string value value_or insert string_dec
new_reaction-names user emoji = (refl, refl)

is_reaction-new_reaction :
    (user emoji : String) → is_reaction user emoji (new_reaction user emoji) ≡ true
is_reaction-new_reaction user emoji = ground (arith, new_reaction-names user emoji)

drop_last_reaction-append :
    (user emoji : String) (rs : List Value)
    → drop_last_reaction user emoji (rs ++ new_reaction user emoji ∷ []) ≡ some rs
unfolding drop_last_reaction
drop_last_reaction-append user emoji [] = ground (arith, is_reaction-new_reaction user emoji)
drop_last_reaction-append user emoji (r ∷ rs) =
    ground (arith, drop_last_reaction-append user emoji rs)

reactions_of-with_reactions :
    (adding : Bool) (user emoji : String) (m : Value)
    → reactions_of (with_reactions adding user emoji m)
      ≡ change_reactions adding user emoji (reactions_of m)
unfolding with_reactions to_map to_list string_dec
reactions_of-with_reactions adding user emoji m =
    let rs = to_values (change_reactions adding user emoji (reactions_of m)) in
    ap to_list (value-insert "reactions" "reactions" (list rs) (to_map m))
    ∙ of_values-to_values (change_reactions adding user emoji (reactions_of m))

pub message_id-with_reactions :
    (adding : Bool) (user emoji : String) (m : Value)
    → message_id (with_reactions adding user emoji m) ≡ message_id m
unfolding with_reactions message_id id_of to_map string_dec
message_id-with_reactions adding user emoji m =
    let rs = to_values (change_reactions adding user emoji (reactions_of m)) in
    ap to_string (value-insert "reactions" "id" (list rs) (to_map m))

abbrev pub changed : Bool → String → String → String → List Value → List Value
changed adding id user emoji l = elim (change_first adding id user emoji l) [
  | none ↦ l
  | some r ↦ r
]

find-changed :
    (adding : Bool) (id user emoji : String) (l : List Value)
    → find id (changed adding id user emoji l)
      ≡ (elim (find id l) [ none ↦ none | some m ↦ some (with_reactions adding user emoji m) ])
unfolding find change_first
find-changed adding id user emoji [] = refl
find-changed adding id user emoji (m ∷ l) =
    ground
      (arith, find-changed adding id user emoji l, message_id-with_reactions adding user emoji m)

pub messages-on_reaction :
    (adding : Bool) (payload : Fields) (c : Chat)
    → (on_reaction adding payload c).store.messages
      ≡ changed adding
          (text_of payload "messageId")
          (text_of payload "userId")
          (text_of payload "emoji")
          c.store.messages
unfolding on_reaction set_messages
messages-on_reaction adding payload c = ground arith

find-on_reaction :
    (adding : Bool) (payload : Fields) (c : Chat)
    → find (text_of payload "messageId") (on_reaction adding payload c).store.messages
      ≡ (elim (find (text_of payload "messageId") c.store.messages) [
        | none ↦ none
        | some m ↦
            some (with_reactions adding (text_of payload "userId") (text_of payload "emoji") m)
      ])
find-on_reaction adding payload c =
    ap (find (text_of payload "messageId")) (messages-on_reaction adding payload c)
    ∙ find-changed adding (text_of payload "messageId") (text_of payload "userId")
        (text_of payload "emoji") c.store.messages

-- After a reaction event, the reactions of its message are changed, if there is such a message.
reactions_at-on_reaction :
    (adding : Bool) (payload : Fields) (c : Chat)
    → let id = text_of payload "messageId" in
      reactions_at id (on_reaction adding payload c).store.messages
      ≡ (elim (find id c.store.messages) [
        | none ↦ []
        | some m ↦
            change_reactions adding
              (text_of payload "userId")
              (text_of payload "emoji")
              (reactions_of m)
      ])
unfolding reactions_at
reactions_at-on_reaction adding payload c =
    let found = find (text_of payload "messageId") c.store.messages in
    elim (Option-cases found) [
      | inl e ↦ ground (arith, e, find-on_reaction adding payload c)
      | inr (m, e) ↦ ground (
        arith,
        e,
        find-on_reaction adding payload c,
        reactions_of-with_reactions adding (text_of payload "userId") (text_of payload "emoji") m,
      )
    ]

undone :
    (user emoji : String) (m : Value)
    → change_reactions false user emoji (reactions_of (with_reactions true user emoji m))
      ≡ reactions_of m
unfolding change_reactions
undone user emoji m =
    ap (change_reactions false user emoji) (reactions_of-with_reactions true user emoji m)
    ∙ (rw (drop_last_reaction-append user emoji (reactions_of m)) refl)

-- Two events on the same message, user and emoji, first message_reaction_add and then
-- message_reaction_remove, leave the message with the reactions it had; between them it has one
-- more at the end, if there is such a message.
pub reaction_undone :
    (payload : Fields) (c : Chat)
    → let id = text_of payload "messageId" in
      let added = handle_gateway_event "message_reaction_add" payload c in
      (reactions_at id (handle_gateway_event "message_reaction_remove" payload added).store.messages
        ≡ reactions_at id c.store.messages)
      × (reactions_at id added.store.messages ≡ (elim (find id c.store.messages) [
        | none ↦ []
        | some m ↦
            reactions_of m ++ new_reaction (text_of payload "userId") (text_of payload "emoji") ∷ []
      ]))
unfolding handle_gateway_event string_dec reactions_at change_reactions
reaction_undone payload c =
    let found = find (text_of payload "messageId") c.store.messages in
    let added = on_reaction true payload c in
    elim (Option-cases found) [
      | inl e ↦ ground (
        arith,
        e,
        find-on_reaction true payload c,
        reactions_at-on_reaction true payload c,
        reactions_at-on_reaction false payload added,
      )
      | inr (m, e) ↦ ground (
        arith,
        e,
        find-on_reaction true payload c,
        reactions_at-on_reaction true payload c,
        reactions_at-on_reaction false payload added,
        undone (text_of payload "userId") (text_of payload "emoji") m,
      )
    ]
