-- ===== src/Guild/Channels.antt =====
-- What the channels of a guild do to the client.
use mathlib.Core.List.{reverse-cons, append_assoc}
use voxter.Common.{
  ◌≡◌, refl, ◌∙◌, Bool, true, false, not, ◌&&◌, List, [], ◌∷◌, ◌++◌, arith, map, reverse, ◌==◌,
  is_empty, if◌then◌else◌,
}
use voxter.Variant.{Value}
use voxter.Api.{ApiCall, ok}
use voxter.Store.{set_channels, set_current_channel_id, set_current_dm_thread_id}
use voxter.Gateway.{send_ids, is_connected_state, subscribe_channels, send_event}
use voxter.Guild.{
  Guild, Handler, preview, send, on_store, type_of, id_of_item, first_id, first_text_channel,
  send_previews, choose_channel, on_channels, set_error,
}

-- The entries of a list that pass a test, in their order.
abbrev pub keep : (Value → Bool) → List Value → List Value
keep p [] = []
keep p (v ∷ l) = let rest = keep p l in if p v then v ∷ rest else rest

abbrev pub is_text_channel : Value → Bool
is_text_channel v = type_of v == "TEXT" && not (is_empty (id_of_item v))

abbrev pub is_voice_channel : Value → Bool
is_voice_channel v = type_of v == "VOICE"

-- The call for the participants of a voice channel, with its callback.
abbrev pub preview_of : Value → ApiCall × Handler
preview_of v = (ApiCall.list_voice_participants (id_of_item v), preview (id_of_item v))

-- The turn of the loop for a channel.
abbrev asked : Bool → Value → Guild → Guild
asked b v g =
    if b
    then send (ApiCall.list_voice_participants (id_of_item v)) (preview (id_of_item v)) g
    else g

-- It changes nothing but the calls in flight.
store-asked : (b : Bool) (v : Value) (g : Guild) → (asked b v g).store ≡ g.store
store-asked true v g = refl
store-asked false v g = refl

gateway-asked : (b : Bool) (v : Value) (g : Guild) → (asked b v g).gateway ≡ g.gateway
gateway-asked true v g = refl
gateway-asked false v g = refl

pending-asked :
    (b : Bool) (v : Value) (l : List Value) (g : Guild)
    → reverse (map preview_of l) ++ (asked b v g).pending
      ≡ reverse (map preview_of (if b then v ∷ l else l)) ++ g.pending
pending-asked true v l g = simp (reverse-cons, append_assoc)
pending-asked false v l g = refl

pub store-send_previews : (l : List Value) (g : Guild) → (send_previews l g).store ≡ g.store
unfolding send_previews
store-send_previews [] g = refl
store-send_previews (v ∷ l) g =
    store-send_previews l (asked (is_voice_channel v) v g) ∙ store-asked (is_voice_channel v) v g

gateway-send_previews : (l : List Value) (g : Guild) → (send_previews l g).gateway ≡ g.gateway
unfolding send_previews
gateway-send_previews [] g = refl
gateway-send_previews (v ∷ l) g =
    gateway-send_previews l (asked (is_voice_channel v) v g)
    ∙ gateway-asked (is_voice_channel v) v g

pending-send_previews :
    (l : List Value) (g : Guild)
    → (send_previews l g).pending ≡ reverse (map preview_of (keep is_voice_channel l)) ++ g.pending
unfolding send_previews
pending-send_previews [] g = refl
pending-send_previews (v ∷ l) g =
    pending-send_previews l (asked (is_voice_channel v) v g)
    ∙ pending-asked (is_voice_channel v) v (keep is_voice_channel l) g

first_text_channel-eq : (l : List Value) → first_text_channel l ≡ first_id (keep is_text_channel l)
unfolding first_text_channel first_id
first_text_channel-eq [] = refl
first_text_channel-eq (v ∷ l) = ground (arith, first_text_channel-eq l)

-- The channels of a guild are shown as they came, and the participants of each of its voice channels
-- are asked for, in their order. The gateway notes the ids of all of them, and no others, as those
-- that it wants; it asks for them at once if its socket is connected, and for nothing otherwise. If
-- no channel was open, the first text channel with an id is opened; an open channel stays open, also
-- one of another guild.
pub on_channels_lem :
    (l : List Value) (g : Guild)
    → let after = on_channels (ok l) g in
      (after.store.channels ≡ l)
      × (after.pending ≡ reverse (map preview_of (keep is_voice_channel l)) ++ g.pending)
      × (after.gateway.desired_channel_ids ≡ map id_of_item l)
      × (after.gateway.commands ≡ (
          if is_connected_state g.gateway.socket
          then send_ids "subscribe_channels" (map id_of_item l) ∷ g.gateway.commands
          else g.gateway.commands))
      × (after.store.current_channel_id ≡ (
          if is_empty g.store.current_channel_id
          then first_id (keep is_text_channel l)
          else g.store.current_channel_id))
      × (after.error ≡ "")
unfolding on_channels set_channels choose_channel set_current_channel_id set_current_dm_thread_id
    set_error subscribe_channels send_event
on_channels_lem l g = ground (
  arith,
  store-send_previews l (on_store (set_channels l) g),
  pending-send_previews l (on_store (set_channels l) g),
  gateway-send_previews l (on_store (set_channels l) g),
  first_text_channel-eq l,
)
