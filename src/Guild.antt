-- ===== src/Guild.antt =====
-- client/src/viewmodels/GuildViewModel: guilds, their channels, members and invitations, and the
-- list of direct threads. `pending` lists the calls in flight, the latest first, each with what its
-- callback does; Guild.Events is the handler of the gateway's events. `trimmed` is QString::trimmed.
pub mod Channels
pub mod Events
pub mod Presence
use voxter.Common.{
  String, Bool, true, false, not, ◌&&◌, ◌||◌, List, [], ◌∷◌, ◌==◌, is_empty, if◌then◌else◌, map,
}
use voxter.Variant.{Value, value, json_string, to_list, to_map}
use voxter.Api.{ApiCall, Answer, ok, failed}
use voxter.Store.{
  AppStore, set_guilds, set_guild_members, set_channels, set_dm_threads, set_current_guild_id,
  set_current_channel_id, set_current_dm_thread_id,
}
use voxter.Store.Participants.{set_voice_participants_for_channel}
use voxter.Gateway.{Gateway, subscribe_channels, subscribe_dm_threads}

pub data Handler : Type 0 where
  guilds guild_made channel_made invite invite_joined dm_threads dm_made channels members : Handler
  preview : String → Handler

pub record Guild : Type 0 where
  pub store : AppStore
  pub gateway : Gateway
  pub busy : Bool
  pub error : String
  pub last_invite_code : String
  pub pending : List (ApiCall × Handler)

abbrev pub on_store : (AppStore → AppStore) → Guild → Guild
on_store f g = record g { store = f g.store }

abbrev send : ApiCall → Handler → Guild → Guild
send call handler g = record g { pending = (call, handler) ∷ g.pending }

abbrev set_busy : Bool → Guild → Guild
set_busy b g = record g { busy = b }

unfoldable pub set_error : String → Guild → Guild
set_error e g = record g { error = e }

-- value.toObject().value("id").toString()
abbrev pub id_of_item : Value → String
id_of_item v = json_string (value (to_map v) "id")

unfoldable pub load_guilds : Guild → Guild
load_guilds g = send ApiCall.list_guilds guilds (set_busy true g)

unfoldable pub load_channels : String → Guild → Guild
load_channels guild g = if is_empty guild then g else send (ApiCall.list_channels guild) channels g

unfoldable pub load_guild_members : Guild → Guild
load_guild_members g =
    if is_empty g.store.current_guild_id
    then g
    else send (ApiCall.list_guild_presence g.store.current_guild_id) members g

unfoldable pub select_guild : String → Guild → Guild
select_guild guild g =
    if is_empty guild
    then g
    else load_guild_members (load_channels guild (on_store (set_current_guild_id guild) g))

unfoldable pub first_id : List Value → String
first_id [] = ""
first_id (v ∷ _) = id_of_item v

abbrev is_none_left : List Value → Bool
is_none_left [] = true
is_none_left (_ ∷ _) = false

unfoldable pub on_guilds : Answer (List Value) → Guild → Guild
on_guilds (failed e) g = set_error e (set_busy false g)
on_guilds (ok l) g =
    let shown = on_store (set_guilds l) (set_busy false g) in
    set_error "" (
      if is_empty shown.store.current_guild_id
      then if is_none_left l then shown else select_guild (first_id l) shown
      else load_guild_members (load_channels shown.store.current_guild_id shown))

unfoldable pub load_dm_threads : Guild → Guild
load_dm_threads g = send ApiCall.list_dm_threads dm_threads g

unfoldable pub on_dm_threads : Answer (List Value) → Guild → Guild
on_dm_threads (failed e) g = set_error e g
on_dm_threads (ok l) g =
    let shown = on_store (set_dm_threads l) g in
    set_error "" (record shown { gateway = subscribe_dm_threads (map id_of_item l) shown.gateway })

-- the callbacks of createGuild and joinInvite, of createChannel and of createDmThread
unfoldable pub on_guild_made : Answer Value → Guild → Guild
on_guild_made (failed e) g = set_error e (set_busy false g)
on_guild_made (ok _) g = set_error "" (load_guilds (set_busy false g))

unfoldable pub on_channel_made : Answer Value → Guild → Guild
on_channel_made (failed e) g = set_error e (set_busy false g)
on_channel_made (ok _) g = set_error "" (load_channels g.store.current_guild_id (set_busy false g))

unfoldable pub on_dm_made : Answer Value → Guild → Guild
on_dm_made (failed e) g = set_error e (set_busy false g)
on_dm_made (ok _) g = set_error "" (load_dm_threads (set_busy false g))

unfoldable pub on_invite : Answer Value → Guild → Guild
on_invite (failed e) g = set_error e g
on_invite (ok response) g =
    set_error "" (record g { last_invite_code = json_string (value (to_map response) "code") })

unfoldable pub on_members : Answer (List Value) → Guild → Guild
on_members (failed e) g = set_error e g
on_members (ok l) g = set_error "" (on_store (set_guild_members l) g)

-- the callback of the call for the participants of a voice channel
unfoldable pub on_preview : String → Answer (List Value) → Guild → Guild
on_preview channel (failed e) g = g
on_preview channel (ok l) g = on_store (set_voice_participants_for_channel channel l) g

-- the loop over the channels: the first text channel with an id, and the calls for the voice
-- channels, each behind the earlier ones
abbrev type_of : Value → String
type_of v = json_string (value (to_map v) "type")

unfoldable pub first_text_channel : List Value → String
first_text_channel [] = ""
first_text_channel (v ∷ l) =
    let rest = first_text_channel l in
    if type_of v == "TEXT" && not (is_empty (id_of_item v)) then id_of_item v else rest

unfoldable pub send_previews : List Value → Guild → Guild
send_previews [] g = g
send_previews (v ∷ l) g =
    let one = send (ApiCall.list_voice_participants (id_of_item v)) (preview (id_of_item v)) g in
    send_previews l (if type_of v == "VOICE" then one else g)

-- setCurrentChannelId with what the slot of Application on its signal does to the store; the slot
-- then loads the channel, which is `on_channel_changed` of Chat.
unfoldable pub choose_channel : String → AppStore → AppStore
choose_channel id s =
    if s.current_channel_id == id
    then s
    else if is_empty id
    then set_current_channel_id id s
    else set_current_dm_thread_id "" (set_current_channel_id id s)

unfoldable pub on_channels : Answer (List Value) → Guild → Guild
on_channels (failed e) g = set_error e g
on_channels (ok l) g =
    let previewed = send_previews l (on_store (set_channels l) g) in
    let told = record previewed {
      gateway = subscribe_channels (map id_of_item l) previewed.gateway;
    } in
    set_error "" (
      if is_empty told.store.current_channel_id && not (is_empty (first_text_channel l))
      then on_store (choose_channel (first_text_channel l)) told
      else told)

abbrev as_array : Answer Value → Answer (List Value)
as_array (ok v) = ok (to_list v)
as_array (failed e) = failed e

unfoldable pub resume : Handler → Answer Value → Guild → Guild
resume guilds a g = on_guilds (as_array a) g
resume guild_made a g = on_guild_made a g
resume channel_made a g = on_channel_made a g
resume invite a g = on_invite a g
resume invite_joined a g = on_guild_made a g
resume dm_threads a g = on_dm_threads (as_array a) g
resume dm_made a g = on_dm_made a g
resume channels a g = on_channels (as_array a) g
resume members a g = on_members (as_array a) g
resume (preview channel) a g = on_preview channel (as_array a) g

unfoldable pub create_invite : Guild → Guild
create_invite g =
    if is_empty g.store.current_guild_id
    then g
    else send (ApiCall.create_invite g.store.current_guild_id) invite g

unfoldable pub create_dm_thread : List String → String → Guild → Guild
create_dm_thread [] name g = g
create_dm_thread (p ∷ ps) name g =
    send (ApiCall.create_dm_thread (p ∷ ps) name) dm_made (set_busy true g)

module _ (trimmed : String → String) where
  unfoldable pub create_guild : String → Guild → Guild
  create_guild name g =
      if is_empty (trimmed name)
      then g
      else send (ApiCall.create_guild (trimmed name)) guild_made (set_busy true g)

  unfoldable pub create_channel : String → String → Guild → Guild
  create_channel name type g =
      let guild = g.store.current_guild_id in
      if is_empty guild || is_empty (trimmed name)
      then g
      else send (ApiCall.create_channel guild (trimmed name) type) channel_made (set_busy true g)

  unfoldable pub join_invite : String → Guild → Guild
  join_invite code g =
      if is_empty (trimmed code)
      then g
      else send (ApiCall.join_invite (trimmed code)) invite_joined (set_busy true g)
