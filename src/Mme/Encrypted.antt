-- ===== src/Mme/Encrypted.antt =====
-- CM_ENCRYPTED_PAYLOAD.IND: encryption of a frame and decryption of the answer
-- (hpav_test/libhpav/hpav_mme.c). AES in CBC mode, the checksum of zlib and the random bytes of
-- OpenSSL are arguments.
pub mod Padding
pub mod Transport
use tulum_utils.Base.{
  ℕ, ◌+◌, ◌-◌, ◌*◌, ◌/◌, ◌%◌, ◌==◌, if◌then◌else◌, Bytes, byte_at, le16, le16_at, le32, ◌∷◌, ◌++◌,
  [], List, Option, none, some, ◌>>=◌, String, copy_out, copy_onto, slice,
}
use tulum_utils.Frame.Layout.{EthFrame, MmePacket, Timeval}
use tulum_utils.Mme.Encode.{packet_of, whole_header}
use tulum_utils.Mme.Decode.{SmartCopy}
use tulum_utils.Mme.Security.{generate_dak}

-- A struct hpav_cm_encrypted_payload_ind, less the chain.
pub record EncryptedPayload : Type 0 where
  pub peks : ℕ
  pub avln_status : ℕ
  pub pid : ℕ
  pub prn : ℕ
  pub pmn : ℕ
  pub aes_iv : Bytes
  pub mme_length : ℕ
  pub encrypted_data_length : ℕ
  pub encrypted_data : Bytes

-- What the program calls of OpenSSL and zlib: the key and the initialisation vector come first;
-- `rand_bytes n size` is the call number n of RAND_bytes.
pub record CryptoLib : Type 0 where
  pub sha256 : Bytes → Bytes
  pub aes_cbc_encrypt : Bytes → Bytes → Bytes → Bytes
  pub aes_cbc_decrypt : Bytes → Bytes → Bytes → Bytes
  pub crc32 : Bytes → ℕ
  pub rand_bytes : ℕ → ℕ → Bytes

abbrev pub initial_aes_iv : Bytes
initial_aes_iv =
    0xFE ∷ 0xDC ∷ 0xBA ∷ 0x98 ∷ 0x76 ∷ 0x54 ∷ 0x32 ∷ 0x10 ∷ 0xFE ∷ 0xDC ∷ 0xBA ∷ 0x98 ∷ 0x76 ∷ 0x54
    ∷ 0x32 ∷ 0x10 ∷ []

-- The draw of a random size, from call 0, is overwritten by 5.
abbrev pub rand_filler_size : ℕ
rand_filler_size = 5

-- The bytes around the frame, without the padding.
abbrev pub unpadded_size : EthFrame → ℕ
unpadded_size f = rand_filler_size + f.frame_size + 9

unfoldable pub padding_size : EthFrame → ℕ
padding_size f = (16 - unpadded_size f % 16) % 16

-- The identifiers of a CM_SET_KEY.REQ in a frame.
abbrev pub pid_of : EthFrame → ℕ
pid_of f = byte_at f.wire 28

abbrev pub prn_of : EthFrame → ℕ
prn_of f = le16_at f.wire 29

abbrev pub pmn_of : EthFrame → ℕ
pmn_of f = byte_at f.wire 31

-- The frame behind the filler, whose size is the last byte. `heap` is the new frame as malloc has left
-- it; its time is not set. A payload without bytes, or one that is too short, faults.
unfoldable pub unpacked : EthFrame → EncryptedPayload → Bytes → Option EthFrame
unpacked heap rx decrypted_payload = do
  last ←
      if rx.encrypted_data_length == 0
      then none
      else copy_out (rx.encrypted_data_length - 1) 1 decrypted_payload
  mme ← copy_out (byte_at last 0) rx.mme_length decrypted_payload
  wire ← copy_onto mme heap.wire
  some (record heap { wire = wire; frame_size = rx.mme_length })

unfoldable pub decrypt_nokey : EthFrame → Option EncryptedPayload → Option (List EthFrame)
decrypt_nokey heap none = some []
decrypt_nokey heap (some rx) = do frame ← unpacked heap rx rx.encrypted_data; some (frame ∷ [])

module _ (lib : CryptoLib) where
  -- The bytes to encrypt, around the bytes of the frame.
  unfoldable pub data_to_encrypt : EthFrame → Bytes → Bytes
  data_to_encrypt f mme =
      lib.rand_bytes 1 rand_filler_size
      ++ (mme
          ++ (le32 (lib.crc32 mme)
              ++ (pid_of f ∷ [])
              ++ le16 (prn_of f)
              ++ (pmn_of f ∷ [])
              ++ lib.rand_bytes 2 (padding_size f)
              ++ rand_filler_size ∷ []))

  -- Null for a null frame; a frame that states more bytes than it has makes the copy fault. The
  -- two lengths are unsigned short.
  unfoldable pub encrypt_with_dak : List EthFrame → String → Option (Option EncryptedPayload)
  encrypt_with_dak [] device_password = some none
  encrypt_with_dak (f ∷ _) device_password = do
    mme ← copy_out 0 f.frame_size f.wire
    some (
        some (record {
          peks = 0;
          avln_status = 0;
          pid = pid_of f;
          prn = prn_of f;
          pmn = pmn_of f;
          aes_iv = initial_aes_iv;
          mme_length = f.frame_size % 65536;
          encrypted_data_length = (unpadded_size f + padding_size f) % 65536;
          encrypted_data =
              lib.aes_cbc_encrypt (generate_dak lib.sha256 device_password) initial_aes_iv
                (data_to_encrypt f mme);
        }))

  unfoldable pub decrypt_with_key :
      EthFrame → Option EncryptedPayload → Bytes → Option (List EthFrame)
  decrypt_with_key heap none decrypt_key = some []
  decrypt_with_key heap (some rx) decrypt_key = do
    encrypted ← copy_out 0 rx.encrypted_data_length rx.encrypted_data
    frame ← unpacked heap rx (lib.aes_cbc_decrypt decrypt_key rx.aes_iv encrypted)
    some (frame ∷ [])

  unfoldable pub decrypt_with_dpw :
      EthFrame → Option EncryptedPayload → String → Option (List EthFrame)
  decrypt_with_dpw heap rx device_password =
      decrypt_with_key heap rx (generate_dak lib.sha256 device_password)

  unfoldable pub decrypt_with_nmk :
      EthFrame → Option EncryptedPayload → Bytes → Option (List EthFrame)
  decrypt_with_nmk heap rx nmk = decrypt_with_key heap rx nmk

  -- HPAV_CM_ENCRYPTED_PAYLOAD_WITH_DAK, _WITH_NMK and _UNECRYPTED
  unfoldable pub decrypt :
      EthFrame → Option EncryptedPayload → String → Bytes → Option (List EthFrame)
  decrypt heap none dpw nmk = some []
  decrypt heap (some rx) dpw nmk =
      if rx.peks == 0
      then decrypt_with_dpw heap (some rx) dpw
      else if rx.peks == 1
      then decrypt_with_nmk heap (some rx) nmk
      else if rx.peks == 15
      then decrypt_nokey heap (some rx)
      else some []

abbrev pub mmtype_cm_encrypted_payload_ind : ℕ
mmtype_cm_encrypted_payload_ind = 0x6006

abbrev pub unencrypted_size : ℕ
unencrypted_size = 24

-- The fields that are mapped to network data, as they lie in the struct.
unfoldable pub unencrypted_bytes : EncryptedPayload → Bytes
unencrypted_bytes e =
    e.peks ∷ e.avln_status ∷ e.pid ∷ (le16 e.prn ++ e.pmn ∷ (e.aes_iv ++ le16 e.mme_length))

-- A null request is read all the same.
unfoldable pub encode_cm_encrypted_payload_ind :
    Option EncryptedPayload → Bytes → Bytes → Option MmePacket
encode_cm_encrypted_payload_ind none sta_mac_addr src_mac_addr = none
encode_cm_encrypted_payload_ind (some request) sta_mac_addr src_mac_addr = do
  encrypted ← copy_out 0 request.encrypted_data_length request.encrypted_data
  some (
      packet_of
        (whole_header mmtype_cm_encrypted_payload_ind ++ (unencrypted_bytes request ++ encrypted))
        sta_mac_addr src_mac_addr)

unfoldable pub smart_copy_cm_encrypted_payload_ind : SmartCopy EncryptedPayload
smart_copy_cm_encrypted_payload_ind mme_data mme_data_size = do
  fixed ← copy_out 0 unencrypted_size mme_data
  let size = (mme_data_size + (4294967296 - unencrypted_size)) % 65536
  encrypted ← copy_out unencrypted_size size mme_data
  some (record {
    peks = byte_at fixed 0;
    avln_status = byte_at fixed 1;
    pid = byte_at fixed 2;
    prn = le16_at fixed 3;
    pmn = byte_at fixed 5;
    aes_iv = slice 6 16 fixed;
    mme_length = le16_at fixed 22;
    encrypted_data_length = size;
    encrypted_data = encrypted;
  })
