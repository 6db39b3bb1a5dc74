-- ===== src/Store.antt =====
-- client/src/store/AppStore: the state that the screens show, its setters and `clear_session`.
-- `emitted` lists the change signals, newest first: a signal is part of what a setter does.
pub mod Messages
pub mod Participants
use mathlib.Core.Bool.{Bool-discrete}
use voxter.Common.{
  String, Bool, true, false, List, [], ◌∷◌, ite, ◌==◌, is_empty, string_dec, if◌then◌else◌,
}
use voxter.Variant.{Value, Fields, end, fields_dec, value_dec}

pub data Signal : Type 0 where
  authenticated_changed current_user_changed guilds_changed guild_members_changed : Signal
  channels_changed messages_changed dm_threads_changed voice_participants_changed : Signal
  voice_participants_by_channel_changed current_guild_id_changed : Signal
  current_channel_id_changed current_dm_thread_id_changed : Signal

-- m_voiceParticipantsByChannel: only `set_entry` of Participants adds to it, so each value is a list.
pub data ChannelMap : Type 0 where
  none_left : ChannelMap
  channel : String → List Value → ChannelMap → ChannelMap

pub record AppStore : Type 0 where
  pub authenticated : Bool
  pub current_user : Fields
  pub guilds : List Value
  pub guild_members : List Value
  pub channels : List Value
  pub messages : List Value
  pub dm_threads : List Value
  pub voice_participants : List Value
  pub voice_participants_by_channel : ChannelMap
  pub current_guild_id : String
  pub current_channel_id : String
  pub current_dm_thread_id : String
  pub emitted : List Signal

pub list_dec : Discrete (List Value)
list_dec = hlevel value_dec

unfoldable pub init : AppStore
init = record {
  authenticated = false;
  current_user = end;
  guilds = [];
  guild_members = [];
  channels = [];
  messages = [];
  dm_threads = [];
  voice_participants = [];
  voice_participants_by_channel = none_left;
  current_guild_id = "";
  current_channel_id = "";
  current_dm_thread_id = "";
  emitted = [];
}

abbrev pub emit : Signal → AppStore → AppStore
emit sig s = record s { emitted = sig ∷ s.emitted }

unfoldable pub set_authenticated : Bool → AppStore → AppStore
set_authenticated b s =
    ite (Bool-discrete s.authenticated b) s
      (emit authenticated_changed (record s { authenticated = b }))

unfoldable pub set_current_user : Fields → AppStore → AppStore
set_current_user user s =
    ite (fields_dec s.current_user user) s
      (emit current_user_changed (record s { current_user = user }))

unfoldable pub set_guilds : List Value → AppStore → AppStore
set_guilds l s = emit guilds_changed (record s { guilds = l })

unfoldable pub set_guild_members : List Value → AppStore → AppStore
set_guild_members l s = emit guild_members_changed (record s { guild_members = l })

unfoldable pub set_channels : List Value → AppStore → AppStore
set_channels l s = emit channels_changed (record s { channels = l })

unfoldable pub set_messages : List Value → AppStore → AppStore
set_messages l s = emit messages_changed (record s { messages = l })

unfoldable pub set_dm_threads : List Value → AppStore → AppStore
set_dm_threads l s = emit dm_threads_changed (record s { dm_threads = l })

unfoldable pub set_voice_participants : List Value → AppStore → AppStore
set_voice_participants l s =
    ite (list_dec s.voice_participants l) s
      (emit voice_participants_changed (record s { voice_participants = l }))

unfoldable pub set_current_guild_id : String → AppStore → AppStore
set_current_guild_id id s =
    if s.current_guild_id == id
    then s
    else emit current_guild_id_changed (record s { current_guild_id = id })

unfoldable pub set_current_channel_id : String → AppStore → AppStore
set_current_channel_id id s =
    if s.current_channel_id == id
    then s
    else emit current_channel_id_changed (record s { current_channel_id = id })

unfoldable pub set_current_dm_thread_id : String → AppStore → AppStore
set_current_dm_thread_id id s =
    if s.current_dm_thread_id == id
    then s
    else emit current_dm_thread_id_changed (record s { current_dm_thread_id = id })

unfoldable pub clear_session : AppStore → AppStore
clear_session s = record {
  authenticated = false;
  current_user = end;
  guilds = [];
  guild_members = [];
  channels = [];
  messages = [];
  dm_threads = [];
  voice_participants = [];
  voice_participants_by_channel = none_left;
  current_guild_id = "";
  current_channel_id = "";
  current_dm_thread_id = "";
  emitted =
      current_dm_thread_id_changed ∷ current_channel_id_changed ∷ current_guild_id_changed
      ∷ voice_participants_by_channel_changed ∷ voice_participants_changed ∷ dm_threads_changed
      ∷ messages_changed ∷ channels_changed ∷ guild_members_changed ∷ guilds_changed
      ∷ current_user_changed ∷ authenticated_changed ∷ s.emitted;
}
