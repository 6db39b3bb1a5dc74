-- ===== src/App/Place.antt =====
-- What keeps a channel and a direct thread from being open together, among the guilds' callbacks.
pub mod Own
pub mod Exclusive
pub mod Answers
pub mod Moves
use voxter.Common.{
  ℕ, ◌≡◌, ◌≢◌, refl, ◌∙◌, ap, sym, subst, ◌⊎◌, inl, inr, zero, suc, String, Bool, true, false, not,
  ◌&&◌, ◌||◌, List, [], ◌∷◌, Option, none, some, map, arith, ◌==◌, is_empty, if◌then◌else◌,
  string_dec, All, Option-cases,
}
use voxter.Variant.{Value, Fields, to_list, to_map, fields_dec}
use voxter.Api.{ApiCall, Answer, ok, failed}
use voxter.Store.{
  AppStore, set_current_user, set_authenticated, set_guilds, set_channels, set_dm_threads,
  set_guild_members, set_messages, set_current_guild_id, set_current_channel_id,
  set_current_dm_thread_id, clear_session,
}
use voxter.Store.Messages.{upsert_message, remove_message}
use voxter.Store.Participants.{set_voice_participants_for_channel}
use voxter.Auth
use voxter.Auth.{Auth, on_signed_in, on_restored, apply_auth_response, logout, bootstrap_session}
use voxter.Guild
use voxter.Guild.{
  load_guilds, load_dm_threads, on_guilds, first_id, select_guild, load_channels,
  load_guild_members, on_channels, first_text_channel, send_previews, choose_channel, on_guild_made,
  on_channel_made, on_dm_made, on_invite, on_members, on_preview, on_dm_threads,
}
use voxter.Guild.Channels.{store-send_previews}
use voxter.Chat
use voxter.Voice.Place.{Elsewhere, elsewhere, elsewhere-set_for_channel}
use voxter.Voice.Place.Run.{at-event, at-step}

-- where the user is
pub record Place : Type 0 where
  pub guild : String
  pub channel : String
  pub thread : String

unfoldable pub place : AppStore → Place
place s = record {
  guild = s.current_guild_id;
  channel = s.current_channel_id;
  thread = s.current_dm_thread_id;
}

pub place-elsewhere : (s t : AppStore) → elsewhere s ≡ elsewhere t → place s ≡ place t
unfolding elsewhere place
place-elsewhere s t e =
    ap (λ (x : Elsewhere). record { guild = x.guild; channel = x.channel; thread = x.thread }) e

-- no channel is open, or no direct thread
abbrev pub IsExclusive : AppStore → Type 0
IsExclusive s = (s.current_channel_id ≡ "") ⊎ (s.current_dm_thread_id ≡ "")

pub by_place : (s t : AppStore) → place s ≡ place t → IsExclusive t → IsExclusive s
unfolding place
by_place s t e (inl c) = inl (ap (λ (p : Place). p.channel) e ∙ c)
by_place s t e (inr d) = inr (ap (λ (p : Place). p.thread) e ∙ d)

-- The guilds.

pub on_channels-IsExclusive :
    (a : Answer (List Value)) (g : Guild.Guild)
    → IsExclusive g.store
    → IsExclusive (on_channels a g).store
unfolding on_channels choose_channel set_current_channel_id set_current_dm_thread_id set_channels
    Guild.set_error
on_channels-IsExclusive (failed e) g h = h
on_channels-IsExclusive (ok l) g h =
    ground (arith, h, store-send_previews l (record g { store = set_channels l g.store }))

pub on_preview-IsExclusive :
    (c : String) (a : Answer (List Value)) (g : Guild.Guild)
    → IsExclusive g.store
    → IsExclusive (on_preview c a g).store
unfolding on_preview
on_preview-IsExclusive c (failed e) g h = h
on_preview-IsExclusive c (ok l) g h =
    by_place _ _ (place-elsewhere _ _ (elsewhere-set_for_channel c l g.store)) h

pub select_guild-IsExclusive :
    (id : String) (g : Guild.Guild) → IsExclusive g.store → IsExclusive (select_guild id g).store
unfolding select_guild load_channels load_guild_members set_current_guild_id
select_guild-IsExclusive id g h = ground (arith, h)

pub on_guilds-IsExclusive :
    (a : Answer (List Value)) (g : Guild.Guild)
    → IsExclusive g.store
    → IsExclusive (on_guilds a g).store
unfolding on_guilds set_guilds Guild.set_error load_channels load_guild_members
on_guilds-IsExclusive (failed e) g h = h
on_guilds-IsExclusive (ok []) g h = ground (arith, h)
on_guilds-IsExclusive (ok (v ∷ l)) g h = ground (
  arith,
  h,
  select_guild-IsExclusive (first_id (v ∷ l))
      (record g { busy = false; store = set_guilds (v ∷ l) g.store }) h,
)

pub guild_resume-IsExclusive :
    (k : Guild.Handler) (a : Answer Value) (g : Guild.Guild)
    → IsExclusive g.store
    → IsExclusive (Guild.resume k a g).store
unfolding Guild.resume on_guild_made on_channel_made on_dm_made on_invite on_members on_dm_threads
    load_guilds load_dm_threads load_channels set_dm_threads set_guild_members Guild.set_error
guild_resume-IsExclusive Guild.guilds a g h = on_guilds-IsExclusive _ g h
guild_resume-IsExclusive Guild.guild_made (ok v) g h = h
guild_resume-IsExclusive Guild.guild_made (failed e) g h = h
guild_resume-IsExclusive Guild.channel_made (ok v) g h = ground (arith, h)
guild_resume-IsExclusive Guild.channel_made (failed e) g h = h
guild_resume-IsExclusive Guild.invite (ok v) g h = h
guild_resume-IsExclusive Guild.invite (failed e) g h = h
guild_resume-IsExclusive Guild.invite_joined (ok v) g h = h
guild_resume-IsExclusive Guild.invite_joined (failed e) g h = h
guild_resume-IsExclusive Guild.dm_threads (ok v) g h = h
guild_resume-IsExclusive Guild.dm_threads (failed e) g h = h
guild_resume-IsExclusive Guild.dm_made (ok v) g h = h
guild_resume-IsExclusive Guild.dm_made (failed e) g h = h
guild_resume-IsExclusive Guild.channels a g h = on_channels-IsExclusive _ g h
guild_resume-IsExclusive Guild.members (ok v) g h = h
guild_resume-IsExclusive Guild.members (failed e) g h = h
guild_resume-IsExclusive (Guild.preview c) a g h = on_preview-IsExclusive c _ g h
