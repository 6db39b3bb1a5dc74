-- ===== src/Voice/Boot.antt =====
-- The start of the voice part: the two constructors, VoiceViewModel::setup and
-- restoreAudioSettings.
use voxter.Common.{ℕ, ℤ, pos, String, Bool, true, false, [], Option, none, some}
use voxter.Store.{AppStore}
use voxter.Voice.{Host, Engine, no_track, ViewModel, Voice, AudioSettings, voice_activity, on_view}
use voxter.Voice.Bridge.{dispatch_audio_settings}
use voxter.Voice.Devices.{
  build_device_list, recompute_audio_device_lists, request_audio_devices,
  normalize_microphone_volume, normalize_activation_mode, normalize_ptt_hotkey,
}

-- What QSettings holds: a setting that was never saved is missing.
pub record SavedSettings : Type 0 where
  pub input_device_id : String
  pub output_device_id : String
  pub microphone_volume : Option ℤ
  pub activation_mode : Option String
  pub ptt_hotkey : Option String
  pub ptt_hotkey_enabled : Option Bool

abbrev default {ℓ} : {A : Type ℓ} → A → Option A → A
default d none = d
default d (some a) = a

unfoldable pub new_engine : Host → Engine
new_engine host = record {
  input_devices = build_device_list "Microphone" host.audio_inputs;
  output_devices = build_device_list "Speaker" host.audio_outputs;
  selected_input_device_id = "";
  selected_output_device_id = "";
  guild_id = "";
  channel_id = "";
  sfu_url = "";
  sfu_token = "";
  microphone_gain = 100;
  muted = false;
  deafened = false;
  transmit_enabled = false;
  started = false;
  connected = false;
  transmitting_now = false;
  deafened_now = false;
  generation = 0;
  error = "";
  has_source = false;
  local_track = no_track;
  capturing = false;
  input_buffer = [];
  remote_tracks = [];
  remote_playbacks = [];
}

unfoldable pub new_view_model : ViewModel
new_view_model = record {
  connected = false;
  muted = false;
  deafened = false;
  leave_in_progress = false;
  joining_channel_id = "";
  participant_fetch_in_flight = [];
  last_participant_fetch_at_ms = [];
  pending_participant_fetch_force = [];
  active_channel_id = "";
  error = "";
  input_devices = [];
  output_devices = [];
  selected_input_device_id = "";
  selected_output_device_id = "";
  microphone_volume = 100;
  activation_mode = voice_activity;
  ptt_hotkey = "V";
  ptt_hotkey_enabled = true;
  ptt_pressed = false;
  audio_permission_probe_active = false;
}

unfoldable pub new_voice : Host → AppStore → AudioSettings → Voice
unfolding new_engine new_view_model
new_voice host store saved = recompute_audio_device_lists (record {
  host = host;
  engine = new_engine host;
  view = new_view_model;
  store = store;
  pending = [];
  retry_timers = [];
  saved = saved;
})

module _ (clean : String → String) (size : String → ℕ) where
  unfoldable pub restore_audio_settings : SavedSettings → Voice → Voice
  restore_audio_settings s = on_view (λ m. record m {
    selected_input_device_id = s.input_device_id;
    selected_output_device_id = s.output_device_id;
    microphone_volume = normalize_microphone_volume (default (pos 100) s.microphone_volume);
    activation_mode = normalize_activation_mode (default "VOICE_ACTIVITY" s.activation_mode);
    ptt_hotkey = normalize_ptt_hotkey clean size (default "V" s.ptt_hotkey);
    ptt_hotkey_enabled = default true s.ptt_hotkey_enabled;
  })

  -- VoiceViewModel::setup
  unfoldable pub set_up : SavedSettings → Voice → Voice
  unfolding restore_audio_settings
  set_up s v =
      dispatch_audio_settings
        (recompute_audio_device_lists (request_audio_devices (restore_audio_settings s v)))
