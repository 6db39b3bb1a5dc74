-- ===== src/Voice/Resolve.antt =====
-- client/src/services/NativeVoiceEngine, the ids of devices: encodeDeviceId, decodeDeviceId and
-- resolveInputDevice, which resolveOutputDevice repeats for the outputs. Base64 in its URL form is a
-- parameter.
use voxter.Common.{
  ℕ, ◌≡◌, ◌≢◌, refl, sym, subst, ap, ◌∙◌, ◌⊎◌, inl, inr, if_pos, if_neg, String, true, not, ◌||◌,
  List, [], ◌∷◌, arith, ite, ◌==◌, is_empty, if◌then◌else◌, string_dec, Bool-cases,
}
use native.Mathlib.Decide.{ℕ_discrete}
use voxter.Variant.{to_map, to_string, value, value_or, insert}
use voxter.Voice.Devices.{
  has_device, list_contains_device_id, build_device_list, list_devices, device,
}

-- QAudioDevice: its id as bytes, and its description
pub record AudioDevice : Type 0 where
  pub id : List ℕ
  pub description : String

pub record DeviceCodec : Type 0 where
  pub to_base64_url : List ℕ → String
  pub from_base64_url : String → List ℕ

-- QByteArray's ==
pub bytes_dec : Discrete (List ℕ)
bytes_dec = hlevel ℕ_discrete

device_id : (id label : String) → to_string (value (to_map (device id label)) "id") ≡ id
unfolding device to_string value value_or to_map insert string_dec
device_id id label = refl

module _ (codec : DeviceCodec) where
  unfoldable pub encode_device_id : List ℕ → String
  encode_device_id raw = codec.to_base64_url raw

  unfoldable pub decode_device_id : String → List ℕ
  decode_device_id id = if is_empty id then [] else codec.from_base64_url id

  -- the loop over the devices
  unfoldable pub find_device : List ℕ → AudioDevice → List AudioDevice → AudioDevice
  find_device raw fallback [] = fallback
  find_device raw fallback (d ∷ ds) =
      let rest = find_device raw fallback ds in ite (bytes_dec d.id raw) d rest

  unfoldable pub resolve_device : String → AudioDevice → List AudioDevice → AudioDevice
  unfolding find_device decode_device_id
  resolve_device selected fallback ds =
      if is_empty selected then fallback else find_device (decode_device_id selected) fallback ds

  -- the devices as the list for the screens reads them
  unfoldable pub encoded : List AudioDevice → List (String × String)
  encoded [] = []
  encoded (d ∷ ds) = (encode_device_id d.id, d.description) ∷ encoded ds

  abbrev pub IsOneOf : AudioDevice → List AudioDevice → Type 0
  IsOneOf d [] = ⊥
  IsOneOf d (e ∷ ds) = (d ≡ e) ⊎ IsOneOf d ds

  -- a device with the id, if the list for the screens names one
  listed :
      (unnamed id : String) (ds : List AudioDevice)
      → has_device (list_devices unnamed (encoded ds)) id ≡ true
      → (d : AudioDevice) × IsOneOf d ds × (encode_device_id d.id ≡ id)
  unfolding has_device list_devices encoded
  listed unnamed id [] h = absurd (ground (arith, h))
  listed unnamed id (d ∷ ds) h =
      let code = encode_device_id d.id in
      let label = if is_empty d.description then unnamed else d.description in
      elim (Bool-cases (is_empty code || not (code == id))) [
        | inl other ↦
            let (e, member, named) =
              listed unnamed id ds (ground (arith, h, other, device_id code label)) in
            (e, inr member, named)
        | inr here ↦ (d, inl refl, ground (arith, here))
      ]

  in_rest :
      (raw : List ℕ) (c d : AudioDevice) (ds : List AudioDevice)
      → c.id ≢ raw
      → d.id ≡ raw
      → IsOneOf d (c ∷ ds)
      → IsOneOf d ds
  in_rest raw c d ds n e (inl same) = absurd (n (ap (λ (x : AudioDevice). x.id) (sym same) ∙ e))
  in_rest raw c d ds n e (inr member) = member

  find_device-IsOneOf :
      (raw : List ℕ) (fallback : AudioDevice) (ds : List AudioDevice) (d : AudioDevice)
      → IsOneOf d ds
      → d.id ≡ raw
      → IsOneOf (find_device raw fallback ds) ds × ((find_device raw fallback ds).id ≡ raw)
  unfolding find_device
  find_device-IsOneOf raw fallback [] d h e = elim h [ ]
  find_device-IsOneOf raw fallback (c ∷ ds) d h e = elim (bytes_dec c.id raw) [
    | yes p ↦
        subst (λ (x : AudioDevice). IsOneOf x (c ∷ ds) × (x.id ≡ raw))
          (sym (if_pos (bytes_dec c.id raw) p c (find_device raw fallback ds))) (inl refl, p)
    | no n ↦
        let (member, same) = find_device-IsOneOf raw fallback ds d (in_rest raw c d ds n e h) e in
        subst (λ (x : AudioDevice). IsOneOf x (c ∷ ds) × (x.id ≡ raw))
          (sym (if_neg (bytes_dec c.id raw) n c (find_device raw fallback ds))) (inr member, same)
  ]

  -- Where Base64 can be undone, the device that is used for an id that the list for the screens
  -- names is one of the devices there are, with that id: what the user chose.
  pub resolve_device-listed :
      ((raw : List ℕ) → codec.from_base64_url (codec.to_base64_url raw) ≡ raw)
      → (unnamed id : String) (fallback : AudioDevice) (ds : List AudioDevice) → id ≢ ""
      → list_contains_device_id (build_device_list unnamed (encoded ds)) id ≡ true
      → IsOneOf (resolve_device id fallback ds) ds
        × (encode_device_id (resolve_device id fallback ds).id ≡ id)
  unfolding list_contains_device_id build_device_list has_device resolve_device decode_device_id
      encode_device_id
  resolve_device-listed undone unnamed id fallback ds some_id h =
      let (d, member, named) =
        listed unnamed id ds (ground (arith, h, some_id, device_id "" "System Default")) in
      let raw : d.id ≡ codec.from_base64_url id =
        sym (undone d.id) ∙ ap codec.from_base64_url named in
      let (one, same) = find_device-IsOneOf (codec.from_base64_url id) fallback ds d member raw in
      let used : resolve_device id fallback ds
          ≡ find_device (codec.from_base64_url id) fallback ds =
        ground (arith, some_id) in
      subst (λ (x : AudioDevice). IsOneOf x ds × (codec.to_base64_url x.id ≡ id)) (sym used)
        (one, ap codec.to_base64_url (same ∙ sym raw) ∙ named)
