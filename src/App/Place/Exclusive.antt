-- ===== src/App/Place/Exclusive.antt =====
-- A channel and a direct thread are never open together.
use voxter.Common.{
  ℕ, ◌≡◌, refl, inl, inr, String, Bool, true, false, List, arith, ◌==◌, if◌then◌else◌, Option-cases,
}
use voxter.Variant.{Value, Fields}
use voxter.Api.{Answer, ok, failed}
use voxter.Store.{
  AppStore, set_current_user, set_authenticated, set_messages, set_guild_members,
  set_current_channel_id, set_current_dm_thread_id,
}
use voxter.Store.Messages.{upsert_message, remove_message}
use voxter.Auth.{Auth, apply_auth_response}
use voxter.Guild
use voxter.Guild.Events as GuildEvents
use voxter.Chat
use voxter.Chat.Events as ChatEvents
use voxter.Chat.{
  Chat, load_channel_messages, load_dm_messages, show_page, on_channel_changed, open_channel,
  select_dm_thread,
}
use voxter.Voice.Place.Run.{at-event}
use voxter.App.{
  App, with_auth, with_guild, with_chat, with_voice, on_session_ready, own_presence, on_event,
}
use voxter.App.Run.{World}
use voxter.App.Place.{IsExclusive, place, place-elsewhere, by_place}

-- The messages.

messages_kept :
    (m : Fields) (id : String) (s : AppStore)
    → (place (upsert_message m s) ≡ place s) × (place (remove_message id s) ≡ place s)
unfolding upsert_message remove_message place
messages_kept m id s = (ground arith, ground arith)

pub on_page-IsExclusive :
    (b : Bool) (a : Answer Fields) (c : Chat)
    → IsExclusive c.store
    → IsExclusive (Chat.on_channel_page b a c).store × IsExclusive (Chat.on_dm_page b a c).store
unfolding Chat.on_channel_page Chat.on_dm_page show_page set_messages Chat.set_error
on_page-IsExclusive b (failed e) c h = (h, h)
on_page-IsExclusive b (ok p) c h = (h, h)

pub chat_resume-IsExclusive :
    (k : Chat.Handler) (a : Answer Fields) (c : Chat)
    → IsExclusive c.store
    → IsExclusive (Chat.resume k a c).store
unfolding Chat.resume Chat.on_upsert Chat.on_removal Chat.on_acknowledge Chat.on_typed
    Chat.set_error
chat_resume-IsExclusive (Chat.channel_page b) a c h = (on_page-IsExclusive b a c h).0
chat_resume-IsExclusive (Chat.dm_page b) a c h = (on_page-IsExclusive b a c h).1
chat_resume-IsExclusive Chat.upsert (ok m) c h = by_place _ _ (messages_kept m "" c.store).0 h
chat_resume-IsExclusive Chat.upsert (failed e) c h = h
chat_resume-IsExclusive (Chat.removal id) (ok m) c h = by_place _ _ (messages_kept m id c.store).1 h
chat_resume-IsExclusive (Chat.removal id) (failed e) c h = h
chat_resume-IsExclusive Chat.acknowledge (ok m) c h = h
chat_resume-IsExclusive Chat.acknowledge (failed e) c h = h
chat_resume-IsExclusive Chat.typed (ok m) c h = h
chat_resume-IsExclusive Chat.typed (failed e) c h = h

pub chat_answer-IsExclusive :
    (n : ℕ) (a : Answer Fields) (c : Chat)
    → IsExclusive c.store
    → IsExclusive (Chat.on_answer n a c).store
unfolding Chat.on_answer
chat_answer-IsExclusive n a c h = elim (Option-cases (Chat.take_call n c.pending)) [
  | inl e ↦ rw (e, Chat.on_answer) h
  | inr ((k, rest), e) ↦
      rw (e, Chat.on_answer) (chat_resume-IsExclusive k a (record c { pending = rest }) h)
]

place-set_messages : (l : List Value) (s : AppStore) → place (set_messages l s) ≡ place s
unfolding place set_messages
place-set_messages l s = refl

place-chat_event :
    (e : String) (p : Fields) (c : Chat)
    → place (ChatEvents.handle_gateway_event e p c).store ≡ place c.store
unfolding ChatEvents.handle_gateway_event ChatEvents.on_reaction
place-chat_event e p c =
    let kept = messages_kept p (ChatEvents.text_of p "messageId") c.store in
    grind (arith, kept.0, kept.1, place-set_messages)

-- Opening a channel or a thread closes the other: whatever was open before.
pub open_channel-IsExclusive :
    (id : String) (c : Chat) → IsExclusive c.store → IsExclusive (open_channel id c).store
unfolding open_channel on_channel_changed load_channel_messages set_current_channel_id
    set_current_dm_thread_id
open_channel-IsExclusive id c h = ground (arith, h)

pub select_dm_thread-IsExclusive :
    (id : String) (c : Chat) → IsExclusive c.store → IsExclusive (select_dm_thread id c).store
unfolding select_dm_thread load_dm_messages open_channel on_channel_changed load_channel_messages
    set_current_channel_id set_current_dm_thread_id
select_dm_thread-IsExclusive id c h = ground (arith, h)

-- The session.

pub authenticated-IsExclusive :
    (r : Fields) (world : World) (u : Auth)
    → IsExclusive u.store
    → IsExclusive (apply_auth_response world.codec r u).store
unfolding apply_auth_response set_authenticated set_current_user
authenticated-IsExclusive r world u h = ground (arith, h)

pub guild_event-IsExclusive :
    (e : String) (p : Fields) (g : Guild.Guild)
    → IsExclusive g.store
    → IsExclusive (GuildEvents.handle_gateway_event e p g).store
unfolding GuildEvents.handle_gateway_event Guild.load_guild_members GuildEvents.on_presence
    set_guild_members
guild_event-IsExclusive e p g h = ground (arith, h)

-- The slots.

-- A view model that keeps the places apart does so for the client.
pub with_guild-IsExclusive :
    (f : Guild.Guild → Guild.Guild)
    → ((g : Guild.Guild) → IsExclusive g.store → IsExclusive (f g).store)
    → (a : App) → IsExclusive a.store
    → IsExclusive (with_guild f a).store
unfolding with_guild with_chat load_channel_messages
with_guild-IsExclusive f k a h =
    let r = k (record a.guild { store = a.store; gateway = a.gateway }) h in ground (arith, r)

pub with_chat-IsExclusive :
    (f : Chat → Chat)
    → ((c : Chat) → IsExclusive c.store → IsExclusive (f c).store)
    → (a : App) → IsExclusive a.store
    → IsExclusive (with_chat f a).store
unfolding with_chat
with_chat-IsExclusive f k a h = k (record a.chat { store = a.store }) h

pub with_auth-IsExclusive :
    (f : Auth → Auth)
    → ((u : Auth) → IsExclusive u.store → IsExclusive (f u).store)
    → (a : App) → IsExclusive a.store
    → IsExclusive (with_auth f a).store
unfolding with_auth
with_auth-IsExclusive f k a h = k _ h

pub session_ready-IsExclusive :
    (a : App) → IsExclusive a.store → IsExclusive (on_session_ready a).store
unfolding on_session_ready Guild.load_guilds Guild.load_dm_threads
session_ready-IsExclusive a h =
    with_guild-IsExclusive Guild.load_dm_threads (λ g e. e) (with_guild Guild.load_guilds a)
      (with_guild-IsExclusive Guild.load_guilds (λ g e. e) a h)

pub own_presence-IsExclusive :
    (p : Fields) (s : AppStore) → IsExclusive s → IsExclusive (own_presence p s)
unfolding own_presence set_current_user
own_presence-IsExclusive p s h = ground (arith, h)

pub marked-IsExclusive :
    (b : Bool) (p : Fields) (a : App)
    → IsExclusive a.store
    → IsExclusive (if b then record a { store = own_presence p a.store } else a).store
marked-IsExclusive true p a h = own_presence-IsExclusive p a.store h
marked-IsExclusive false p a h = h

pub on_event-IsExclusive :
    (e : String) (p : Fields) (a : App) → IsExclusive a.store → IsExclusive (on_event e p a).store
unfolding on_event with_voice with_chat
on_event-IsExclusive e p a h =
    let marked =
      if e == "presence_update" then record a { store = own_presence p a.store } else a in
    let guilds = with_guild (GuildEvents.handle_gateway_event e p) marked in
    let chats = with_chat (ChatEvents.handle_gateway_event e p) guilds in
    by_place _ _ (place-elsewhere _ _ (at-event e p (record chats.voice { store = chats.store }))) (
      by_place _ _ (place-chat_event e p (record guilds.chat { store = guilds.store })) (
        with_guild-IsExclusive (GuildEvents.handle_gateway_event e p) (guild_event-IsExclusive e p)
          marked (marked-IsExclusive _ p a h)))
