-- ===== src/App/Start/Session.antt =====
-- The answer to a sign-in, and the slot on sessionReady.
use voxter.Common.{◌≡◌, refl, ◌∙◌, ap, zero, Bool, true, List, ◌∷◌, arith}
use voxter.Variant.{Value, Fields, to_map}
use voxter.Api.{ApiCall, ok}
use voxter.Store.{AppStore, set_current_user, set_authenticated}
use voxter.Auth
use voxter.Auth.{Auth, on_signed_in, apply_auth_response}
use voxter.Guild
use voxter.Guild.{
  load_guilds, load_dm_threads, on_guilds, first_id, select_guild, load_channels,
  load_guild_members, on_channels, first_text_channel, send_previews, choose_channel, id_of_item,
}
use voxter.App.{App, with_auth, with_guild, on_session_ready, take_nth}
use voxter.App.Run.{World, auth_answers, act, resume_auth, on_auth_answer}

-- a step of the guilds that opens no channel
pub with_guild-still :
    (f : Guild.Guild → Guild.Guild) (a : App)
    → (f (record a.guild { store = a.store; gateway = a.gateway })).store.current_channel_id
      ≡ a.store.current_channel_id
    → let r = f (record a.guild { store = a.store; gateway = a.gateway }) in
      with_guild f a ≡ record a { store = r.store; gateway = r.gateway; guild = r }
unfolding with_guild
with_guild-still f a e = ground (arith, e)

abbrev with_guilds_asked : App → App
with_guilds_asked a = record a {
  guild = record a.guild {
    store = a.store;
    gateway = a.gateway;
    busy = true;
    pending = (ApiCall.list_guilds, Guild.guilds) ∷ a.guild.pending;
  };
}

-- The lists are asked for, and nothing else happens.
on_session_ready_lem :
    (a : App)
    → on_session_ready a ≡ record a {
      guild = record a.guild {
        store = a.store;
        gateway = a.gateway;
        busy = true;
        pending =
            (ApiCall.list_dm_threads, Guild.dm_threads)
            ∷ (ApiCall.list_guilds, Guild.guilds)
            ∷ a.guild.pending;
      };
    }
unfolding on_session_ready load_guilds load_dm_threads
on_session_ready_lem a =
    ap (with_guild load_dm_threads) (with_guild-still load_guilds a refl)
    ∙ with_guild-still load_dm_threads (with_guilds_asked a) refl

authenticated-set_authenticated :
    (b : Bool) (s : AppStore) → (set_authenticated b s).authenticated ≡ b
unfolding set_authenticated
authenticated-set_authenticated b s = ground arith

pub record Signed (s t : AppStore) : Type 0 where
  pub signed_in : t.authenticated ≡ true
  pub no_guild : t.current_guild_id ≡ s.current_guild_id
  pub no_channel : t.current_channel_id ≡ s.current_channel_id

on_signed_in-Signed :
    (world : World) (r : Fields) (u : Auth)
    → Signed u.store (on_signed_in world.codec (ok r) u).store
unfolding on_signed_in apply_auth_response Auth.set_error
on_signed_in-Signed world r u = record {
  signed_in = authenticated-set_authenticated true _;
  no_guild = unfold set_authenticated set_current_user in ground arith;
  no_channel = unfold set_authenticated set_current_user in ground arith;
}

-- the state after the answer, and what it asks for
pub on_answer-Ready :
    (world : World) (a : App) (r : Value) (call : ApiCall) (rest : List (ApiCall × Auth.Handler))
    → a.auth.pending ≡ (call, Auth.Handler.signing_in) ∷ rest
    → let b = act world (auth_answers zero (ok r)) a in
      Signed a.store b.store
      × (b.guild.pending
          ≡ (ApiCall.list_dm_threads, Guild.dm_threads)
            ∷ (ApiCall.list_guilds, Guild.guilds)
            ∷ a.guild.pending)
      × (b.chat ≡ a.chat)
unfolding act on_auth_answer resume_auth with_auth take_nth
on_answer-Ready world a r call rest e =
    rw e (rw (on_session_ready_lem _) (on_signed_in-Signed world (to_map r) _, refl, refl))
