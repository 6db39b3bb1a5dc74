-- ===== src/Gateway/Messages.antt =====
-- GatewayClient's slot on textMessageReceived: the event that a text of the socket brings. The JSON
-- parser is a parameter, which is `none` for a text that is no JSON.
use voxter.Common.{String, Option, none, some}
use voxter.Variant.{Value, Fields, map, value, json_string, to_map}

-- only an object is an event
unfoldable pub event_of : Value → Option (String × Fields)
event_of (map object) = some (json_string (value object "t"), to_map (value object "d"))
event_of _ = none

unfoldable pub on_text_message : (String → Option Value) → String → Option (String × Fields)
on_text_message from_json text = elim (from_json text) [ none ↦ none | some v ↦ event_of v ]
