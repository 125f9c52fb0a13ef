-- ===== src/Mme/SetKey.antt =====
-- hpav_cm_set_key_encrypted_sndrcv (hpav_test/libhpav/hpav_mme.c): a CM_SET_KEY.REQ as the payload
-- of a CM_ENCRYPTED_PAYLOAD.IND.
use tulum_utils.Base.{ℕ, Bytes, slice, [], ◌∷◌, List, Option, none, some, String}
use tulum_utils.Errors.{ErrorStack}
use tulum_utils.Frame.Layout.{EthFrame}
use tulum_utils.Frame.Build.{build_frames}
use tulum_utils.Frame.Defrag.{defrag_frames}
use tulum_utils.Channel.Pcap.{Pcap}
use tulum_utils.Channel.Run.{Run, returns, ◌>>=◌, lift}
use tulum_utils.Channel.Exchange.{Exchange, Outcome, sndrcv}
use tulum_utils.Channel.Kinds.{never}
use tulum_utils.Mme.Encode.{encode_mme}
use tulum_utils.Mme.Decode.{Answer, smart_copy, decode_mme}
use tulum_utils.Mme.Encrypted.{
  CryptoLib, EncryptedPayload, encrypt_with_dak, decrypt, encode_cm_encrypted_payload_ind,
  smart_copy_cm_encrypted_payload_ind,
}

abbrev pub mmtype_cm_set_key_req : ℕ
mmtype_cm_set_key_req = 0x6008

-- sizeof(struct hpav_cm_set_key_cnf), less the pointer and the address.
abbrev pub cm_set_key_cnf_size : ℕ
cm_set_key_cnf_size = 14

-- The new key of a CM_SET_KEY.REQ.
abbrev pub new_key : Bytes → Bytes
new_key request = slice 22 16 request

-- The exchange of encrypted messages.
abbrev pub cm_encrypted_payload : Option EncryptedPayload → Exchange (Answer EncryptedPayload)
cm_encrypted_payload request = record {
  encode = encode_cm_encrypted_payload_ind request;
  answer_type = 0x6006;
  enough = never;
  decode = decode_mme smart_copy_cm_encrypted_payload_ind;
}

-- Only the first answer is decrypted.
abbrev pub first_payload : List (Answer EncryptedPayload) → Option EncryptedPayload
first_payload [] = none
first_payload (a ∷ _) = some a.fields

-- The answer is decrypted, put together and decoded, whatever the exchange returned.
unfoldable pub finish_set_key :
    CryptoLib
    → EthFrame
    → Bytes
    → String
    → Outcome (Answer EncryptedPayload)
    → Run (Outcome (Answer Bytes))
finish_set_key lib heap request device_password o = do
  rx_frames ← lift (decrypt lib heap (first_payload o.response) device_password (new_key request))
  rx_mme_packets ← lift (defrag_frames rx_frames)
  response ← lift (decode_mme (smart_copy cm_set_key_cnf_size) rx_mme_packets)
  returns (record { rc = o.rc; response = response; sent = o.sent; errors = o.errors })

-- `request` is the bytes of the struct, and `heap` the decrypted frame as malloc has left it.
unfoldable pub cm_set_key_encrypted_sndrcv :
    CryptoLib
    → EthFrame
    → Pcap
    → ℕ
    → Bytes
    → Bytes
    → Bytes
    → ℕ
    → ℕ
    → String
    → ErrorStack
    → Run (Outcome (Answer Bytes))
cm_set_key_encrypted_sndrcv lib heap pcap fuel mac_addr sta_mac_addr request timeout_ms
      num_fragments device_password errors =
    do
      tx_frames ←
          lift (build_frames (encode_mme mmtype_cm_set_key_req request sta_mac_addr mac_addr) 0)
      tx_encrypted_mme ← lift (encrypt_with_dak lib tx_frames device_password)
      outcome ←
          sndrcv (cm_encrypted_payload tx_encrypted_mme) pcap fuel mac_addr sta_mac_addr timeout_ms
            num_fragments errors
      finish_set_key lib heap request device_password outcome
