-- ===== src/App/Start.antt =====
-- What follows a sign-in: the slot on sessionReady, GuildViewModel's callbacks and the slot on
-- currentChannelIdChanged, until the messages of a channel are asked for.
pub mod Session
pub mod Guilds
use voxter.Common.{◌≡◌, ◌≢◌, refl, ◌∙◌, ap, zero, suc, String, Bool, true, List, [], ◌∷◌, arith}
use voxter.Variant.{Value, Fields, to_list, to_map}
use voxter.Api.{ApiCall, ok}
use voxter.Store.{
  AppStore, set_current_user, set_authenticated, set_guilds, set_channels, set_current_guild_id,
  set_current_channel_id, set_current_dm_thread_id,
}
use voxter.Auth
use voxter.Auth.{Auth, on_signed_in, apply_auth_response}
use voxter.Guild
use voxter.Guild.{
  load_guilds, load_dm_threads, on_guilds, first_id, select_guild, load_channels,
  load_guild_members, on_channels, first_text_channel, send_previews, choose_channel, id_of_item,
}
use voxter.Guild.Channels.{store-send_previews}
use voxter.Chat
use voxter.Chat.{load_channel_messages}
use voxter.App.{App, with_auth, with_guild, with_chat, on_session_ready, take_nth}
use voxter.App.Run.{
  World, auth_answers, guild_answers, act, run, resume_auth, on_auth_answer, on_guild_answer,
}
use voxter.App.Start.Session.{Signed, on_answer-Ready}
use voxter.App.Start.Guilds.{on_guilds_answer, on_channels_answer}

-- Where no guild and no channel is open and the server accepts a sign-in, the client asks for the
-- guilds by itself; once it has them, for the channels of the first one; and once it has those, it
-- opens the first text channel and asks for its messages. So where the first guild has an id and
-- some text channel has one, the three answers alone bring a user who signs in to a channel, with
-- the call for its messages the latest one in flight.
pub sign_in_opens_channel :
    (world : World) (a : App) (r gs cs : Value) (call : ApiCall)
    (rest : List (ApiCall × Auth.Handler))
    → a.auth.pending ≡ (call, Auth.Handler.signing_in) ∷ rest
    → a.store.current_guild_id ≡ ""
    → a.store.current_channel_id ≡ ""
    → first_id (to_list gs) ≢ ""
    → first_text_channel (to_list cs) ≢ ""
    → let d =
        run world
          (auth_answers zero (ok r)
            ∷ guild_answers (suc zero) (ok gs)
            ∷ guild_answers (suc zero) (ok cs)
            ∷ [])
          a in
      let channel = first_text_channel (to_list cs) in
      (d.store.authenticated ≡ true)
      × (d.store.current_guild_id ≡ first_id (to_list gs))
      × (d.store.current_channel_id ≡ channel)
      × (d.chat.pending
          ≡ (ApiCall.list_messages channel "" "", Chat.channel_page true) ∷ a.chat.pending)
unfolding run
sign_in_opens_channel world a r gs cs call rest e no_guild no_channel g t =
    let b = act world (auth_answers zero (ok r)) a in
    let signed = on_answer-Ready world a r call rest e in
    let c = act world (guild_answers (suc zero) (ok gs)) b in
    let picked = on_guilds_answer world b gs _ _ _ signed.1 (signed.0.no_guild ∙ no_guild) g in
    let opened =
      on_channels_answer world c cs _ _ _ picked.3 (picked.2 ∙ signed.0.no_channel ∙ no_channel)
        t in
    (
      opened.0 ∙ picked.0 ∙ signed.0.signed_in,
      opened.1 ∙ picked.1,
      opened.2,
      opened.3
          ∙ ap
              (λ (x : Chat.Chat).
                (
                  ApiCall.list_messages (first_text_channel (to_list cs)) "" "",
                  Chat.channel_page true,
                )
                ∷ x.pending)
              (picked.4 ∙ signed.2),
    )
