-- ===== src/App/Start/Guilds.antt =====
-- The answers with the guilds and the channels.
use voxter.Common.{◌≡◌, ◌≢◌, refl, ◌∙◌, ap, zero, suc, String, true, List, [], ◌∷◌, arith}
use voxter.Variant.{Value, to_list}
use voxter.Api.{ApiCall, ok}
use voxter.Store.{
  AppStore, set_guilds, set_channels, set_current_guild_id, set_current_channel_id,
  set_current_dm_thread_id,
}
use voxter.Guild
use voxter.Guild.{
  load_guilds, load_dm_threads, on_guilds, first_id, select_guild, load_channels,
  load_guild_members, on_channels, first_text_channel, send_previews, choose_channel, id_of_item,
}
use voxter.Guild.Channels.{store-send_previews}
use voxter.Chat
use voxter.Chat.{load_channel_messages}
use voxter.App.{App, with_guild, with_chat, take_nth}
use voxter.App.Run.{World, guild_answers, act, on_guild_answer}
use voxter.App.Start.Session.{with_guild-still}

pub record Picked (l : List Value) (g h : Guild.Guild) : Type 0 where
  pub shown : h.store.guilds ≡ l
  pub authenticated : h.store.authenticated ≡ g.store.authenticated
  pub picked : h.store.current_guild_id ≡ first_id l
  pub no_channel : h.store.current_channel_id ≡ g.store.current_channel_id
  pub asked :
      h.pending
      ≡ (ApiCall.list_guild_presence (first_id l), Guild.members)
        ∷ (ApiCall.list_channels (first_id l), Guild.channels)
        ∷ g.pending

pub on_guilds-Picked :
    (l : List Value) (g : Guild.Guild)
    → g.store.current_guild_id ≡ ""
    → first_id l ≢ ""
    → Picked l g (on_guilds (ok l) g)
unfolding on_guilds select_guild load_channels load_guild_members set_guilds set_current_guild_id
    first_id Guild.set_error
on_guilds-Picked [] g e n = absurd (n refl)
on_guilds-Picked (v ∷ l) g e n = record {
  shown = ground (arith, e, n);
  authenticated = ground (arith, e, n);
  picked = ground (arith, e, n);
  no_channel = ground (arith, e, n);
  asked = ground (arith, e, n);
}

record Opened (channel : String) (g h : Guild.Guild) : Type 0 where
  authenticated : h.store.authenticated ≡ g.store.authenticated
  guild : h.store.current_guild_id ≡ g.store.current_guild_id
  opened : h.store.current_channel_id ≡ channel

on_channels-Opened :
    (l : List Value) (g : Guild.Guild)
    → g.store.current_channel_id ≡ ""
    → first_text_channel l ≢ ""
    → Opened (first_text_channel l) g (on_channels (ok l) g)
unfolding on_channels choose_channel set_current_channel_id set_current_dm_thread_id set_channels
    Guild.set_error
on_channels-Opened l g e n =
    let s = store-send_previews l (record g { store = set_channels l g.store }) in
    record {
      authenticated = ground (arith, e, n, s);
      guild = ground (arith, e, n, s);
      opened = ground (arith, e, n, s);
    }

pub on_guilds_answer :
    (world : World) (b : App) (gs : Value) (first : ApiCall × Guild.Handler) (call : ApiCall)
    (rest : List (ApiCall × Guild.Handler))
    → b.guild.pending ≡ first ∷ (call, Guild.guilds) ∷ rest
    → b.store.current_guild_id ≡ ""
    → first_id (to_list gs) ≢ ""
    → let c = act world (guild_answers (suc zero) (ok gs)) b in
      let g = first_id (to_list gs) in
      (c.store.authenticated ≡ b.store.authenticated)
      × (c.store.current_guild_id ≡ g)
      × (c.store.current_channel_id ≡ b.store.current_channel_id)
      × (c.guild.pending
          ≡ (ApiCall.list_guild_presence g, Guild.members)
            ∷ (ApiCall.list_channels g, Guild.channels)
            ∷ first
            ∷ rest)
      × (c.chat ≡ b.chat)
unfolding act on_guild_answer take_nth Guild.resume
on_guilds_answer world b gs first call rest e none_open n =
    let f =
      λ (g : Guild.Guild). on_guilds (ok (to_list gs)) (record g { pending = first ∷ rest }) in
    let h =
      on_guilds-Picked (to_list gs)
        (record b.guild { store = b.store; gateway = b.gateway; pending = first ∷ rest }) none_open
        n in
    rw e (
      rw (with_guild-still f b h.no_channel)
        (h.authenticated, h.picked, h.no_channel, h.asked, refl))

-- a step of the guilds that opens a channel
with_guild-opened :
    (f : Guild.Guild → Guild.Guild) (a : App) (channel : String)
    → (f (record a.guild { store = a.store; gateway = a.gateway })).store.current_channel_id
      ≡ channel
    → a.store.current_channel_id ≡ ""
    → channel ≢ ""
    → let r = f (record a.guild { store = a.store; gateway = a.gateway }) in
      ((with_guild f a).store ≡ r.store)
      × ((with_guild f a).chat.pending
          ≡ (ApiCall.list_messages channel "" "", Chat.channel_page true) ∷ a.chat.pending)
unfolding with_guild with_chat load_channel_messages
with_guild-opened f a channel e o n = ground (arith, e, o, n)

pub on_channels_answer :
    (world : World) (c : App) (cs : Value) (first : ApiCall × Guild.Handler) (call : ApiCall)
    (rest : List (ApiCall × Guild.Handler))
    → c.guild.pending ≡ first ∷ (call, Guild.channels) ∷ rest
    → c.store.current_channel_id ≡ ""
    → first_text_channel (to_list cs) ≢ ""
    → let d = act world (guild_answers (suc zero) (ok cs)) c in
      let channel = first_text_channel (to_list cs) in
      (d.store.authenticated ≡ c.store.authenticated)
      × (d.store.current_guild_id ≡ c.store.current_guild_id)
      × (d.store.current_channel_id ≡ channel)
      × (d.chat.pending
          ≡ (ApiCall.list_messages channel "" "", Chat.channel_page true) ∷ c.chat.pending)
unfolding act on_guild_answer take_nth Guild.resume
on_channels_answer world c cs first call rest e none_open n =
    let h =
      on_channels-Opened (to_list cs)
        (record c.guild { store = c.store; gateway = c.gateway; pending = first ∷ rest }) none_open
        n in
    let f =
      λ (g : Guild.Guild). on_channels (ok (to_list cs)) (record g { pending = first ∷ rest }) in
    let w = with_guild-opened f c (first_text_channel (to_list cs)) h.opened none_open n in
    rw e (
      ap (λ (s : AppStore). s.authenticated) w.0 ∙ h.authenticated,
      ap (λ (s : AppStore). s.current_guild_id) w.0 ∙ h.guild,
      ap (λ (s : AppStore). s.current_channel_id) w.0 ∙ h.opened,
      w.1,
    )
