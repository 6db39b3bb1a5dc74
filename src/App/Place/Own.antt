-- ===== src/App/Place/Own.antt =====
-- A step of the voice part in the client: its own step, or none.
use voxter.Common.{◌≡◌, refl}
use voxter.Voice.Run.{
  Input, step, host_changes, store_changes, livekit_reports, retry_timer, audio_inputs_change,
  audio_outputs_change, gateway_event, answers, joins, leaves, toggles_mute, toggles_deafen,
  asks_for_devices, refreshes, presses_ptt, chooses_input, chooses_output, chooses_mode,
  chooses_volume, microphone_ready,
}
use voxter.Voice.Place.{elsewhere}
use voxter.Voice.Place.Run.{IsOwn, at-step}
use voxter.App.{App, with_voice}
use voxter.App.Run.{World, voice_step}

own_step :
    (world : World) (i : Input)
    → IsOwn i
    → (a : App) → elsewhere (with_voice (step world.to_lower i) a).store ≡ elsewhere a.store
unfolding with_voice
own_step world i o a = at-step world.to_lower i (record a.voice { store = a.store }) o

-- It changes nothing of the store but the participants.
pub elsewhere-voice_step :
    (world : World) (i : Input) (a : App)
    → elsewhere (voice_step world i a).store ≡ elsewhere a.store
unfolding voice_step
elsewhere-voice_step world (store_changes s) a = refl
elsewhere-voice_step world (host_changes x) a = own_step world (host_changes x) tt a
elsewhere-voice_step world (livekit_reports n r) a = own_step world (livekit_reports n r) tt a
elsewhere-voice_step world (retry_timer c) a = own_step world (retry_timer c) tt a
elsewhere-voice_step world audio_inputs_change a = own_step world audio_inputs_change tt a
elsewhere-voice_step world audio_outputs_change a = own_step world audio_outputs_change tt a
elsewhere-voice_step world (microphone_ready r b) a = own_step world (microphone_ready r b) tt a
elsewhere-voice_step world (gateway_event e p) a = own_step world (gateway_event e p) tt a
elsewhere-voice_step world (answers n r) a = own_step world (answers n r) tt a
elsewhere-voice_step world (joins c) a = own_step world (joins c) tt a
elsewhere-voice_step world leaves a = own_step world leaves tt a
elsewhere-voice_step world toggles_mute a = own_step world toggles_mute tt a
elsewhere-voice_step world toggles_deafen a = own_step world toggles_deafen tt a
elsewhere-voice_step world asks_for_devices a = own_step world asks_for_devices tt a
elsewhere-voice_step world (refreshes c b) a = own_step world (refreshes c b) tt a
elsewhere-voice_step world (presses_ptt b) a = own_step world (presses_ptt b) tt a
elsewhere-voice_step world (chooses_input x) a = own_step world (chooses_input x) tt a
elsewhere-voice_step world (chooses_output x) a = own_step world (chooses_output x) tt a
elsewhere-voice_step world (chooses_mode m) a = own_step world (chooses_mode m) tt a
elsewhere-voice_step world (chooses_volume n) a = own_step world (chooses_volume n) tt a
