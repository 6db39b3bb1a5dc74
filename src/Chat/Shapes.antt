-- ===== src/Chat/Shapes.antt =====
-- The messages that the chat shows are maps, as the screens need them.
use voxter.Common.{
  ℕ, ◌≡◌, subst, String, Bool, true, false, List, [], ◌∷◌, ◌++◌, some, arith, ◌==◌, is_empty,
  if◌then◌else◌, All, Bool-cases, Option-cases, inl, inr,
}
use voxter.Variant
use voxter.Variant.{Value, Fields, to_map}
use voxter.Api.{Answer, ok, failed}
use voxter.Store.{AppStore, set_messages}
use voxter.Store.Messages.{
  upsert_message, remove_message, put_message, drop_message, id_of, message_id,
}
use voxter.Chat.{
  Chat, Handler, channel_page, dm_page, upsert, removal, acknowledge, typed, on_channel_page,
  on_dm_page, show_page, to_chronological, prepend_all, resume, on_answer, on_upsert, on_removal,
  on_acknowledge, on_typed, set_error, take_call,
}
use voxter.Chat.Events.{with_reactions, change_first, on_reaction, handle_gateway_event, text_of}

abbrev pub IsMap : Value → Type 0
IsMap (Variant.map f) = Unit
IsMap _ = ⊥

-- every message shown is a map
abbrev pub ShowsMaps : AppStore → Type 0
ShowsMaps s = All IsMap s.messages

All-append : (k l : List Value) → All IsMap k → All IsMap l → All IsMap (k ++ l)
All-append [] l p q = q
All-append (x ∷ k) l (h, p) q = (h, All-append k l p q)

to_chronological-All : (l : List Value) → All IsMap (to_chronological l)
unfolding to_chronological
to_chronological-All [] = tt
to_chronological-All (v ∷ l) = All-append (to_chronological l) _ (to_chronological-All l) (tt, tt)

prepend_all-All :
    (l current : List Value) → All IsMap l → All IsMap current → All IsMap (prepend_all l current)
unfolding prepend_all
prepend_all-All [] current p q = q
prepend_all-All (v ∷ l) current (h, p) q = prepend_all-All l (v ∷ current) p (h, q)

put_message-All :
    (id : String) (m : Fields) (l : List Value) → All IsMap l → All IsMap (put_message id m l)
unfolding put_message
put_message-All id m [] h = (tt, tt)
put_message-All id m (v ∷ l) (h, p) = elim (Bool-cases (message_id v == id)) [
  | inl e ↦ rw e (tt, p)
  | inr e ↦ rw e (h, put_message-All id m l p)
]

drop_message-All :
    (id : String) (l r : List Value) → All IsMap l → drop_message id l ≡ some r → All IsMap r
unfolding drop_message
drop_message-All id [] r h e = absurd (ground (arith, e))
drop_message-All id (v ∷ l) r (h, p) e = elim (Bool-cases (message_id v == id)) [
  | inl here ↦ subst (All IsMap) (ground (arith, e, here)) p
  | inr other ↦ elim (Option-cases (drop_message id l)) [
    | inl none_left ↦ absurd (ground (arith, e, other, none_left))
    | inr (rest, q) ↦
        let whole : v ∷ rest ≡ r = ground (arith, e, other, q) in
        subst (All IsMap) whole (h, drop_message-All id l rest p q)
  ]
]

change_first-All :
    (adding : Bool) (id user emoji : String) (l r : List Value)
    → All IsMap l
    → change_first adding id user emoji l ≡ some r
    → All IsMap r
unfolding change_first with_reactions
change_first-All adding id user emoji [] r h e = absurd (ground (arith, e))
change_first-All adding id user emoji (v ∷ l) r (h, p) e = elim (Bool-cases (message_id v == id)) [
  | inl here ↦
      let whole : with_reactions adding user emoji v ∷ l ≡ r = ground (arith, e, here) in
      subst (All IsMap) whole (tt, p)
  | inr other ↦ elim (Option-cases (change_first adding id user emoji l)) [
    | inl none_left ↦ absurd (ground (arith, e, other, none_left))
    | inr (rest, q) ↦
        let whole : v ∷ rest ≡ r = ground (arith, e, other, q) in
        subst (All IsMap) whole (h, change_first-All adding id user emoji l rest p q)
  ]
]

-- The store's functions for messages.

upsert_message-ShowsMaps :
    (m : Fields) (s : AppStore) → ShowsMaps s → ShowsMaps (upsert_message m s)
unfolding upsert_message set_messages
upsert_message-ShowsMaps m s h = elim (Bool-cases (is_empty (id_of m))) [
  | inl e ↦ rw e h
  | inr e ↦ rw e (put_message-All (id_of m) m s.messages h)
]

remove_message-ShowsMaps :
    (id : String) (s : AppStore) → ShowsMaps s → ShowsMaps (remove_message id s)
unfolding remove_message set_messages
remove_message-ShowsMaps id s h = elim (Option-cases (drop_message id s.messages)) [
  | inl e ↦ rw (e, remove_message) h
  | inr (r, e) ↦ rw (e, remove_message) (drop_message-All id s.messages r h e)
]

-- The callbacks.

show_page-ShowsMaps :
    (reset : Bool) (response : Fields) (c : Chat)
    → ShowsMaps c.store
    → ShowsMaps (show_page reset response c).store
unfolding show_page set_messages
show_page-ShowsMaps true response c h = to_chronological-All _
show_page-ShowsMaps false response c h =
    prepend_all-All _ c.store.messages (to_chronological-All _) h

pub resume-ShowsMaps :
    (k : Handler) (a : Answer Fields) (c : Chat)
    → ShowsMaps c.store
    → ShowsMaps (resume k a c).store
unfolding resume on_channel_page on_dm_page on_upsert on_removal on_acknowledge on_typed set_error
resume-ShowsMaps (channel_page b) (ok m) c h = show_page-ShowsMaps b m (record c { busy = false }) h
resume-ShowsMaps (channel_page b) (failed e) c h = h
resume-ShowsMaps (dm_page b) (ok m) c h = show_page-ShowsMaps b m (record c { busy = false }) h
resume-ShowsMaps (dm_page b) (failed e) c h = h
resume-ShowsMaps upsert (ok m) c h = upsert_message-ShowsMaps m c.store h
resume-ShowsMaps upsert (failed e) c h = h
resume-ShowsMaps (removal id) (ok m) c h = remove_message-ShowsMaps id c.store h
resume-ShowsMaps (removal id) (failed e) c h = h
resume-ShowsMaps acknowledge (ok m) c h = h
resume-ShowsMaps acknowledge (failed e) c h = h
resume-ShowsMaps typed (ok m) c h = h
resume-ShowsMaps typed (failed e) c h = h

pub on_answer-ShowsMaps :
    (n : ℕ) (a : Answer Fields) (c : Chat) → ShowsMaps c.store → ShowsMaps (on_answer n a c).store
unfolding on_answer
on_answer-ShowsMaps n a c h = elim (Option-cases (take_call n c.pending)) [
  | inl e ↦ rw (e, on_answer) h
  | inr ((k, rest), e) ↦ rw (e, on_answer) (resume-ShowsMaps k a (record c { pending = rest }) h)
]

-- The gateway's events.

on_reaction-ShowsMaps :
    (adding : Bool) (p : Fields) (c : Chat)
    → ShowsMaps c.store
    → ShowsMaps (on_reaction adding p c).store
unfolding on_reaction set_messages
on_reaction-ShowsMaps adding p c h =
    elim (Option-cases (
      change_first adding (text_of p "messageId") (text_of p "userId") (text_of p "emoji")
        c.store.messages)) [
          | inl e ↦ rw (e, on_reaction) h
          | inr (r, e) ↦ rw (e, on_reaction) (change_first-All adding _ _ _ c.store.messages r h e)
        ]

-- the same of a chat, kept shut where branches are put together
HasMaps : Chat → Type 0
HasMaps c = ShowsMaps c.store

either-HasMaps : (b : Bool) (x y : Chat) → HasMaps x → HasMaps y → HasMaps (if b then x else y)
either-HasMaps true x y h k = h
either-HasMaps false x y h k = k

written-HasMaps :
    (p : Fields) (b : Bool) (c : Chat)
    → ShowsMaps c.store
    → HasMaps (if b then record c { store = upsert_message p c.store } else c)
unfolding HasMaps
written-HasMaps p true c h = upsert_message-ShowsMaps p c.store h
written-HasMaps p false c h = h

dropped-HasMaps :
    (id : String) (b : Bool) (c : Chat)
    → ShowsMaps c.store
    → HasMaps (if b then record c { store = remove_message id c.store } else c)
unfolding HasMaps
dropped-HasMaps id true c h = remove_message-ShowsMaps id c.store h
dropped-HasMaps id false c h = h

reacted-HasMaps :
    (adding : Bool) (p : Fields) (c : Chat) → ShowsMaps c.store → HasMaps (on_reaction adding p c)
unfolding HasMaps
reacted-HasMaps = on_reaction-ShowsMaps

same-HasMaps : (c : Chat) → ShowsMaps c.store → HasMaps c
unfolding HasMaps
same-HasMaps c h = h

event-HasMaps :
    (e : String) (p : Fields) (c : Chat) → ShowsMaps c.store → HasMaps (handle_gateway_event e p c)
unfolding handle_gateway_event
event-HasMaps e p c h =
    search (written-HasMaps, dropped-HasMaps, reacted-HasMaps, same-HasMaps, either-HasMaps) depth 8

pub handle_gateway_event-ShowsMaps :
    (e : String) (p : Fields) (c : Chat)
    → ShowsMaps c.store
    → ShowsMaps (handle_gateway_event e p c).store
unfolding HasMaps
handle_gateway_event-ShowsMaps e p c h = event-HasMaps e p c h
