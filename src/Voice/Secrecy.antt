-- ===== src/Voice/Secrecy.antt =====
-- The client never sends sound against the settings of its user.
use voxter.Common.{
  ℕ, ◌≡◌, refl, sym, ap, ◌∙◌, ◌⊎◌, inl, inr, String, Bool, true, false, not, ◌&&◌, List, arith,
  is_empty, Bool-cases, if◌then◌else◌,
}
use voxter.Store.{AppStore}
use voxter.Voice.{Host, Voice, AudioSettings, ActivationMode, voice_activity, push_to_talk}
use voxter.Voice.Bridge.{is_push_to_talk}
use voxter.Voice.Devices.{recompute_audio_device_lists, request_audio_devices}
use voxter.Voice.Core.{Core, core, core-dispatch}
use voxter.Voice.Privacy.{Quiet, dispatch-IsPrivate}
use voxter.Voice.Effects.{core-recompute, core-request_audio_devices}
use voxter.Voice.Sending.{Private, by_core}
use voxter.Voice.Boot.{
  SavedSettings, new_voice, set_up, restore_audio_settings, new_engine, new_view_model,
}
use voxter.Voice.Run.{Input, run}
use voxter.Voice.Reach.{run-Private}

-- What has to hold for sound to leave the client.
pub record MayBeHeard (v : Voice) : Type 0 where
  pub started : v.engine.started ≡ true
  pub connected : v.view.connected ≡ true
  pub in_channel : is_empty v.view.active_channel_id ≡ false
  pub not_muted : v.view.muted ≡ false
  pub not_deafened : v.view.deafened ≡ false
  pub pressed : (v.view.activation_mode ≡ voice_activity) ⊎ (v.view.ptt_pressed ≡ true)

mode_cases :
    (m : ActivationMode) (p open_line : Bool)
    → (if is_push_to_talk m then open_line && p else open_line) ≡ true
    → (open_line ≡ true) × ((m ≡ voice_activity) ⊎ (p ≡ true))
mode_cases voice_activity p o h = (h, inl refl)
mode_cases push_to_talk p o h = ground arith

-- A quiet core that sends is started and may transmit.
sending :
    (c : Core)
    → Quiet c
    → c.transmitting_now ≡ true
    → (c.started ≡ true) × (c.transmit_enabled ≡ true)
sending c q t = ground arith

sending-MayBeHeard : (v : Voice) → Private v → v.engine.transmitting_now ≡ true → MayBeHeard v
sending-MayBeHeard v h t =
    let open_line =
      v.view.connected
      && not (is_empty v.view.active_channel_id)
      && not v.view.muted
      && not v.view.deafened in
    let sent = sending (core v) h.quiet t in
    let asked =
      mode_cases v.view.activation_mode v.view.ptt_pressed open_line
        (sym h.same_transmit ∙ sent.1) in
    let open_eq = asked.0 in
    record {
      started = sent.0;
      connected = ground arith;
      in_channel = ground arith;
      not_muted = ground arith;
      not_deafened = ground arith;
      pressed = asked.1;
    }

new_voice_silent :
    (host : Host) (store : AppStore) (saved : AudioSettings)
    → (core (new_voice host store saved)).transmitting_now ≡ false
unfolding new_voice new_engine new_view_model
new_voice_silent host store saved = ap (λ c. c.transmitting_now) (core-recompute _)

module _ (to_lower clean : String → String) (size : String → ℕ) where
  boot-Private :
      (host : Host) (store : AppStore) (saved : AudioSettings) (s : SavedSettings)
      → Private (set_up clean size s (new_voice host store saved))
  unfolding set_up restore_audio_settings
  boot-Private host store saved s =
      by_core (core-dispatch (recompute_audio_device_lists (request_audio_devices restored)))
        (dispatch-IsPrivate _ (inl silent))
    where
      restored : Voice
      restored = restore_audio_settings clean size s (new_voice host store saved)

      silent :
          (core (recompute_audio_device_lists (request_audio_devices restored))).transmitting_now
          ≡ false
      silent =
          ap (λ c. c.transmitting_now)
            (core-recompute (request_audio_devices restored) ∙ core-request_audio_devices restored)
          ∙ new_voice_silent host store saved

  -- From the start of the program, whatever the user, the server, LiveKit and the devices do, the
  -- engine sends no sound, or it is started, the view model is connected to a channel and neither
  -- muted nor deafened, and in push-to-talk mode the key is pressed.
  pub sends_only_when_allowed :
      (host : Host) (store : AppStore) (saved : AudioSettings) (s : SavedSettings) (is : List Input)
      → let v = run to_lower is (set_up clean size s (new_voice host store saved)) in
        (v.engine.transmitting_now ≡ false) ⊎ MayBeHeard v
  sends_only_when_allowed host store saved s is =
      let v = run to_lower is (set_up clean size s (new_voice host store saved)) in
      let h = run-Private to_lower is _ (boot-Private host store saved s) in
      elim (Bool-cases v.engine.transmitting_now) [
        | inl t ↦ inr (sending-MayBeHeard v h t)
        | inr f ↦ inl f
      ]
