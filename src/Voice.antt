-- ===== src/Voice.antt =====
-- client/src/services/NativeVoiceEngine and client/src/viewmodels/VoiceViewModel: their state.
-- The engine's signals reach the view model at once, so both stand in one state, `Voice`, and an
-- engine function that emits a signal calls the view model's slot.
-- `Host` is what the client reads of its environment: the clock, the audio devices, and what the
-- calls of Qt and LiveKit would answer now.
pub mod Media
pub mod Bridge
pub mod Fetch
pub mod Session
pub mod Events
pub mod Devices
pub mod Connection
pub mod Run
pub mod Core
pub mod Machine
pub mod Privacy
pub mod Effects
pub mod Sending
pub mod Replies
pub mod Reach
pub mod Boot
pub mod Secrecy
pub mod Calls
pub mod Untouched
pub mod Answered
pub mod Exclusion
pub mod Traffic
pub mod Capture
pub mod Playback
pub mod Place
pub mod Resolve
pub mod Refused
pub mod Abandoned
use voxter.Common.{ℕ, String, Bool, true, false, List, [], ◌∷◌, Option, none, some}
use voxter.Variant.{Value}
use voxter.Store.{AppStore}
use voxter.Api.{ApiCall}

pub record Host : Type 0 where
  pub now : ℕ
  -- QMediaDevices::audioInputs and audioOutputs: the id, encoded for the client, and the label
  pub audio_inputs : List (String × String)
  pub audio_outputs : List (String × String)
  -- whether the selected microphone takes the capture format, and whether it starts
  pub format_supported : Bool
  pub microphone_starts : Bool
  -- the message of an exception that LiveKit throws on a mute or unmute
  pub mute_fault : Option String
  -- the same for the stream of a remote track
  pub stream_fault : Option String

-- The local track is there or not, and muted or not.
pub data LocalTrack : Type 0 where
  no_track muted_track live_track : LocalTrack

pub record Engine : Type 0 where
  pub input_devices : List Value
  pub output_devices : List Value
  pub selected_input_device_id : String
  pub selected_output_device_id : String
  pub guild_id : String
  pub channel_id : String
  pub sfu_url : String
  pub sfu_token : String
  -- in hundredths
  pub microphone_gain : ℕ
  pub muted : Bool
  pub deafened : Bool
  pub transmit_enabled : Bool
  pub started : Bool
  pub connected : Bool
  pub transmitting_now : Bool
  pub deafened_now : Bool
  -- a 64-bit counter
  pub generation : ℕ
  pub error : String
  -- m_livekitAudioSource, m_localAudioTrack and m_inputDevice
  pub has_source : Bool
  pub local_track : LocalTrack
  pub capturing : Bool
  pub input_buffer : List ℕ
  -- m_remoteTracks with their participants, and m_remotePlaybacks
  pub remote_tracks : List (String × String)
  pub remote_playbacks : List String

pub data ActivationMode : Type 0 where
  voice_activity push_to_talk : ActivationMode

-- A call of the API whose callback has not run yet, with what the callback holds.
pub data Pending : Type 0 where
  switching : String → String → String → Pending
  joining : String → String → Pending
  token : String → String → Pending
  abandoning : String → Pending
  leaving : String → String → Pending
  muting : String → Bool → Bool → Pending
  deafening : String → Bool → Bool → Pending
  fetching : String → Bool → Pending

pub record ViewModel : Type 0 where
  pub connected : Bool
  pub muted : Bool
  pub deafened : Bool
  pub leave_in_progress : Bool
  pub joining_channel_id : String
  pub participant_fetch_in_flight : List String
  pub last_participant_fetch_at_ms : List (String × ℕ)
  pub pending_participant_fetch_force : List (String × Bool)
  pub active_channel_id : String
  pub error : String
  pub input_devices : List Value
  pub output_devices : List Value
  pub selected_input_device_id : String
  pub selected_output_device_id : String
  pub microphone_volume : ℕ
  pub activation_mode : ActivationMode
  pub ptt_hotkey : String
  pub ptt_hotkey_enabled : Bool
  pub ptt_pressed : Bool
  pub audio_permission_probe_active : Bool

pub record AudioSettings : Type 0 where
  pub input_device_id : String
  pub output_device_id : String
  pub microphone_volume : ℕ
  pub activation_mode : ActivationMode
  pub ptt_hotkey : String
  pub ptt_hotkey_enabled : Bool

pub record Voice : Type 0 where
  pub host : Host
  pub engine : Engine
  pub view : ViewModel
  pub store : AppStore
  -- the calls in flight, the latest first, and the channels that a 900 ms timer will refresh
  pub pending : List Pending
  pub retry_timers : List String
  -- what QSettings holds under voice
  pub saved : AudioSettings

abbrev pub on_engine : (Engine → Engine) → Voice → Voice
on_engine f v = record v { engine = f v.engine }

abbrev pub on_view : (ViewModel → ViewModel) → Voice → Voice
on_view f v = record v { view = f v.view }

abbrev pub on_store : (AppStore → AppStore) → Voice → Voice
on_store f v = record v { store = f v.store }

abbrev pub call : Pending → Voice → Voice
call p v = record v { pending = p ∷ v.pending }
