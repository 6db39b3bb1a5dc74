-- ===== src/Examples/Calls.antt =====
-- A voice call from the start of the program until the user is heard.
use voxter.Common.{
  ℕ, ◌+◌, ◌≤◌, if◌then◌else◌, is_empty, ◌≡◌, ◌⊎◌, String, true, false, List, [], ◌∷◌, none, refl,
  contains, ◌==◌, differ, string_dec,
}
use voxter.Variant.{Value, text, field, end, map}
use voxter.Api.{ok, failed}
use voxter.Api.Errors.{is_too_many_requests_error, lowered_names}
use voxter.Store.{AppStore, init}
use voxter.Voice.{Host, Voice, AudioSettings, voice_activity}
use voxter.Voice.Connection.{room_ready}
use voxter.Voice.Boot.{SavedSettings, new_voice, set_up}
use voxter.Voice.Run.{Input, joins, answers, answer, retry_timer, livekit_reports, run}
use voxter.Voice.{fetching}
use voxter.Voice.Fetch.{hash_value, on_fetched, store_participants}
use voxter.Voice.Fetch.Merging.{refreshes, refreshes_merge}
use voxter.Voice.Calls.{calls, enters, leaves, abandons, fetches}
use voxter.Voice.Refused.{refused_asked_again}
use voxter.Voice.Traffic.{calls_exclude_each_other}
use voxter.Voice.Secrecy.{MayBeHeard, sends_only_when_allowed}

abbrev pub host : Host
host = record {
  now = 0;
  audio_inputs = ("mic", "Microphone") ∷ [];
  audio_outputs = [];
  format_supported = true;
  microphone_starts = true;
  mute_fault = none;
  stream_fault = none;
}

abbrev pub store : AppStore
store = record init { current_guild_id = "g" }

abbrev pub saved : AudioSettings
saved = record {
  input_device_id = "";
  output_device_id = "";
  microphone_volume = 100;
  activation_mode = voice_activity;
  ptt_hotkey = "V";
  ptt_hotkey_enabled = true;
}

abbrev settings : SavedSettings
settings = record {
  input_device_id = "";
  output_device_id = "";
  microphone_volume = none;
  activation_mode = none;
  ptt_hotkey = none;
  ptt_hotkey_enabled = none;
}

abbrev grant : Value
grant = map (field "token" (text "t") (field "url" (text "wss://sfu") end))

-- The user joins, the server grants, and LiveKit has the room ready.
abbrev call : List Input
call =
    joins "c" ∷ answers 0 (ok (map end)) ∷ answers 0 (ok grant) ∷ livekit_reports 1 room_ready ∷ []

abbrev same : String → String
same s = s

abbrev one : String → ℕ
one _ = 1

abbrev talking : Voice
talking = run same call (set_up same one settings (new_voice host store saved))

sends_only_when_allowed_example : (talking.engine.transmitting_now ≡ false) ⊎ MayBeHeard talking
sends_only_when_allowed_example =
    sends_only_when_allowed same same one host store saved settings call

-- The server gives no token for "c", and the user joins "d".
abbrev again : List Input
again = joins "c" ∷ answers 0 (ok (map end)) ∷ answers 0 (failed "no") ∷ joins "d" ∷ []

abbrev joining_again : Voice
joining_again = run same again (set_up same one settings (new_voice host store saved))

calls_exclude_each_other_example :
    (calls enters joining_again.pending + calls leaves joining_again.pending
      ≤ 1 + calls abandons joining_again.pending)
    × (calls (fetches "c") joining_again.pending ≤ 1)
    × (calls enters joining_again.pending
        ≡ (if is_empty joining_again.view.joining_channel_id then 0 else 1))
    × (calls leaves joining_again.pending
        ≡ (if joining_again.view.leave_in_progress then 1 else 0)
          + calls abandons joining_again.pending)
calls_exclude_each_other_example =
    calls_exclude_each_other same same one host store saved settings again "c"

-- The participants of a channel are on their way.
abbrev asking : Voice
asking =
    let v = new_voice host store saved in
    record v {
      view = record v.view {
        participant_fetch_in_flight = "c" ∷ [];
        pending_participant_fetch_force = [];
      };
    }

refreshes_merge_example :
    let after = refreshes "c" (true ∷ false ∷ true ∷ []) asking in
    let w = on_fetched (λ s. s) "c" true (ok []) after in
    (after.pending ≡ asking.pending)
    × (w.pending ≡ fetching "c" ("c" == asking.view.active_channel_id) ∷ asking.pending)
    × (contains w.view.participant_fetch_in_flight "c" ≡ true)
    × (hash_value w.view.pending_participant_fetch_force "c" false ≡ false)
    × (w.store ≡ (store_participants "c" true [] asking).store)
    × (w.view.error ≡ "")
unfolding hash_value string_dec
refreshes_merge_example =
    refreshes_merge (λ s. s) "c" true [] (true ∷ false ∷ true ∷ []) asking (differ "c" "" refl) refl
      refl

-- what the server says, in small letters
abbrev refusal : String
refusal = "too many requests. please wait 1-2 seconds and try again."

-- Their call is the only one.
abbrev only : Voice
only = record asking { pending = fetching "c" true ∷ [] }

refused_asked_again_example :
    let no = failed refusal in
    let w = run same (answers 0 no ∷ []) only in
    let u = run same (answers 0 no ∷ retry_timer "c" ∷ []) only in
    (w.pending ≡ [])
    × (w.retry_timers ≡ "c" ∷ only.retry_timers)
    × (w.store ≡ only.store)
    × (w.view.error ≡ only.view.error)
    × (u.pending ≡ fetching "c" ("c" == only.view.active_channel_id) ∷ [])
    × (contains u.view.participant_fetch_in_flight "c" ≡ true)
    × (u.store ≡ only.store)
    × (u.view.error ≡ only.view.error)
unfolding answer is_too_many_requests_error string_dec
refused_asked_again_example =
    refused_asked_again same 0 "c" refusal true only [] refl lowered_names (differ "c" "" refl)
