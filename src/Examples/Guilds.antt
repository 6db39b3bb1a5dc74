-- ===== src/Examples/Guilds.antt =====
-- The guilds at concrete inputs.
use voxter.Common.{◌≡◌, String, true, false, [], ◌∷◌, string_dec}
use voxter.Variant
use voxter.Variant.{Value, text, field, end, value, value_or, to_map, to_string, json_string}
use voxter.Api.{ok}
use voxter.Gateway
use voxter.Gateway.{connected_state, send_ids}
use voxter.Store
use voxter.Guild.{Guild, on_channels}
use voxter.Guild.Channels.{on_channels_lem}

abbrev pub channel : String → String → Value
channel id type = Variant.map (field "id" (text id) (field "type" (text type) end))

abbrev pub member : String → Value
member id = Variant.map (field "id" (text id) end)

abbrev pub guild : Guild
guild = record {
  store = record Store.init {
    current_guild_id = "g";
    guild_members = member "u" ∷ member "w" ∷ [];
  };
  gateway = Gateway.init;
  busy = false;
  error = "";
  last_invite_code = "";
  pending = [];
}

-- The same with a socket that is connected.
abbrev online : Guild
online = record guild {
  gateway = record guild.gateway { socket = connected_state; is_connected = true };
}

on_channels_lem_example :
    (on_channels
      (ok (channel "lounge" "VOICE" ∷ channel "news" "TEXT" ∷ []))
      online).gateway.commands
    ≡ send_ids "subscribe_channels" ("lounge" ∷ "news" ∷ []) ∷ []
unfolding Gateway.init value value_or to_map json_string string_dec
on_channels_lem_example =
    (on_channels_lem (channel "lounge" "VOICE" ∷ channel "news" "TEXT" ∷ []) online).3
