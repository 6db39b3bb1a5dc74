-- ===== src/Guild/Events.antt =====
-- client/src/viewmodels/GuildViewModel: what it does with an event of the gateway.
use voxter.Common.{
  String, not, ◌&&◌, ◌||◌, List, [], ◌∷◌, Option, none, some, ◌==◌, is_empty, if◌then◌else◌,
}
use voxter.Variant
use voxter.Variant.{Value, Fields, text, value, insert, json_string, to_map}
use voxter.Store.{set_guild_members}
use voxter.Store.Messages.{message_id}
use voxter.Guild.{Guild, on_store, load_guild_members}

-- the loop of presence_update: none, if no member has the id
unfoldable pub set_presence : String → String → List Value → Option (List Value)
set_presence user status [] = none
set_presence user status (m ∷ ms) =
    let rest = set_presence user status ms in
    if message_id m == user
    then some (Variant.map (insert "presence" (text status) (to_map m)) ∷ ms)
    else elim rest [ none ↦ none | some r ↦ some (m ∷ r) ]

unfoldable pub on_presence : String → String → Guild → Guild
on_presence user status g = elim (set_presence user status g.store.guild_members) [
  | none ↦ g
  | some l ↦ on_store (set_guild_members l) g
]

unfoldable pub handle_gateway_event : String → Fields → Guild → Guild
handle_gateway_event event payload g =
    let here = json_string (value payload "guildId") == g.store.current_guild_id in
    let user = json_string (value payload "userId") in
    if event == "guild_member_join" && here
    then load_guild_members g
    else if not (event == "presence_update") || is_empty user
    then g
    else on_presence user (json_string (value payload "status")) g
