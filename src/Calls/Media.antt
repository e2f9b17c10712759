-- ===== src/Calls/Media.antt =====
-- What a signal of modules/calls.go may carry: the payload checks of its handler.
use qgramm.Common.{
  String, Bool, true, false, not, ◌&&◌, Option, none, some, length, str_eq, leb, if◌then◌else◌,
  Outcome, ok, require, row_or, ◌>>=◌, ◌>>◌, str_len,
}
use qgramm.Store.{Identity}
use qgramm.Calls.Types.{Kind, ice, ℤ, pos, negsuc, Payload, SignalInput, Wire, is_media}

abbrev pub is_blank : String → Bool
is_blank s = str_eq s ""

abbrev pub is_some {ℓ} : {A : Type ℓ} → Option A → Bool
is_some none = false
is_some (some a) = true

abbrev valid_line : Option ℤ → Bool
valid_line none = true
valid_line (some (pos n)) = leb n 128
valid_line (some (negsuc n)) = false

-- The checks of a decrypted payload, for an ICE candidate and for a session description.
unfoldable pub valid_payload : Bool → Payload → Outcome (Unit {0})
valid_payload is_ice p = do
  require (leb (str_len p.sdp_mid) 128 && valid_line p.sdp_line) 400 "invalid signal"
  if is_ice
      then require (not (is_blank p.candidate) && leb (str_len p.candidate) 4096 && is_blank p.sdp)
          400 "invalid ICE candidate"
      else require (not (is_blank p.sdp) && leb (str_len p.sdp) 58000 && is_blank p.candidate) 400
          "invalid session description"

abbrev is_ice_kind : Kind → Bool
is_ice_kind ice = true
is_ice_kind k = false

-- The payload that the signal may carry: opaque MLS, an envelope for one device, or nothing.
unfoldable pub media_notice :
    Wire → Identity → String → String → Kind → SignalInput → Outcome (Option Payload)
media_notice w id chat mode k input =
    if is_media k && str_eq mode "e2ee"
    then (do
      raw ← row_or (w.decode_base64 input.mls) 400 "opaque MLS signaling required"
      require
          (leb 1 (length raw)
            && leb (length raw) 45000
            && not (is_some input.envelope)
            && is_blank input.to_device)
          400 "opaque MLS signaling required"
      ok none)
    else if is_media k
    then (do
      env ← row_or input.envelope 400 "encrypted signaling and recipient device required"
      require
          (is_blank input.mls
            && leb 1 (str_len input.to_device)
            && leb (str_len input.to_device) 128)
          400 "encrypted signaling and recipient device required"
      raw ← row_or (w.open_envelope env chat id input.operation) 400 "invalid signal envelope"
      require (leb (length raw) 60000) 400 "invalid signal envelope"
      p ← row_or (w.decode_payload raw) 400 "invalid signal payload"
      valid_payload (is_ice_kind k) p
      ok (some p))
    else (do
      require (not (is_some input.envelope) && is_blank input.mls && is_blank input.to_device) 400
          "unexpected signal payload"
      ok none)
