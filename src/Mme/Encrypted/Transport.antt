-- ===== src/Mme/Encrypted/Transport.antt =====
-- An encrypted payload on its way through encoder, frame, reassembly and decoder.
use tulum_utils.Base.{
  ℕ, ◌+◌, ◌-◌, ◌%◌, ◌≤◌, ◌<◌, ◌≡◌, refl, ap, ◌∙◌, arith, Bytes, le16, le16_at, ◌∷◌, ◌++◌, [], some,
  ◌>>=◌, copy_out_lem, slice, length, length-append, append-nil, take, take_all, take-append,
  drop-append, get_or-append_right, replicate,
}
use tulum_utils.Frame.Layout.{MmePacket}
use tulum_utils.Frame.Build.{build_frames}
use tulum_utils.Frame.Defrag.{defrag_frames}
use tulum_utils.Frame.Defrag.RoundTrip.{padded, padded_size, defrag-build_frames}
use tulum_utils.Mme.Encode.{packet_of, whole_header}
use tulum_utils.Mme.Decode.{decode_packet, decode_packets, decode_mme}
use tulum_utils.Mme.Encrypted.{
  EncryptedPayload, mmtype_cm_encrypted_payload_ind, unencrypted_bytes,
  encode_cm_encrypted_payload_ind, smart_copy_cm_encrypted_payload_ind,
}

-- The fields fit, and the data has the size that is stated.
pub record IsPayload (e : EncryptedPayload) : Type 0 where
  pub prn_fits : e.prn < 65536
  pub length_fits : e.mme_length < 65536
  pub iv_sized : length e.aes_iv ≡ 16
  pub data_sized : length e.encrypted_data ≡ e.encrypted_data_length

module _ (e : EncryptedPayload) (whole : IsPayload e) where
  length-unencrypted_bytes : length (unencrypted_bytes e) ≡ 24
  unfolding unencrypted_bytes
  length-unencrypted_bytes =
      omega (arith, length-append e.aes_iv (le16 e.mme_length), whole.iv_sized)

  -- The fields as they are read from the first 24 bytes.
  prn_read : le16_at (unencrypted_bytes e) 3 ≡ e.prn
  unfolding unencrypted_bytes
  prn_read = omega (arith, whole.prn_fits)

  iv_read : slice 6 16 (unencrypted_bytes e) ≡ e.aes_iv
  unfolding unencrypted_bytes
  iv_read = take-append 16 e.aes_iv (le16 e.mme_length) whole.iv_sized

  mme_length_read : le16_at (unencrypted_bytes e) 22 ≡ e.mme_length
  unfolding unencrypted_bytes
  mme_length_read =
      let low =
        get_or-append_right e.aes_iv (le16 e.mme_length) 16 0 0 (omega (arith, whole.iv_sized)) in
      let high =
        get_or-append_right e.aes_iv (le16 e.mme_length) 17 1 0 (omega (arith, whole.iv_sized)) in
      omega (arith, low, high, whole.length_fits)

  copied :
      (size : ℕ)
      → size ≡ 24 + e.encrypted_data_length
      → e.encrypted_data_length < 65536
      → smart_copy_cm_encrypted_payload_ind (unencrypted_bytes e ++ e.encrypted_data) size ≡ some e
  unfolding smart_copy_cm_encrypted_payload_ind
  copied size sized small =
      let fixed = unencrypted_bytes e in
      let all = fixed ++ e.encrypted_data in
      let both = length-append fixed e.encrypted_data in
      let first : slice 0 24 all ≡ fixed =
        take-append 24 fixed e.encrypted_data length-unencrypted_bytes in
      let left : (size + (4294967296 - 24)) % 65536 ≡ e.encrypted_data_length = omega arith in
      let rest : slice 24 e.encrypted_data_length all ≡ e.encrypted_data =
        ap (take e.encrypted_data_length)
          (drop-append 24 fixed e.encrypted_data length-unencrypted_bytes)
        ∙ take_all e.encrypted_data_length e.encrypted_data (omega (arith, whole.data_sized)) in
      rw
        (
          copy_out_lem 0 24 all (omega (arith, length-unencrypted_bytes)),
          first,
          left,
          copy_out_lem 24 e.encrypted_data_length all
              (omega (arith, length-unencrypted_bytes, whole.data_sized)),
          rest,
          prn_read,
          iv_read,
          mme_length_read,
        )
        (unfold unencrypted_bytes in refl)

  module _ (sta src : Bytes) (sta_sized : length sta ≡ 6) (src_sized : length src ≡ 6)
      (least : 17 ≤ e.encrypted_data_length) (most : e.encrypted_data_length ≤ 1471) where
    abbrev message : Bytes
    message = unencrypted_bytes e ++ e.encrypted_data

    abbrev packet : MmePacket
    packet = packet_of (whole_header mmtype_cm_encrypted_payload_ind ++ message) sta src

    length-message : length message ≡ 24 + e.encrypted_data_length
    length-message = omega (
      arith,
      length-append (unencrypted_bytes e) e.encrypted_data,
      length-unencrypted_bytes,
      whole.data_sized,
    )

    encoded : encode_cm_encrypted_payload_ind (some e) sta src ≡ some packet
    unfolding encode_cm_encrypted_payload_ind
    encoded =
        rw
          (
            copy_out_lem 0 e.encrypted_data_length e.encrypted_data
                (omega (arith, whole.data_sized)),
            take_all e.encrypted_data_length e.encrypted_data (omega (arith, whole.data_sized)),
          )
          refl

    unpadded : padded packet 60 ≡ packet
    unpadded =
        let same : padded_size packet 60 ≡ packet.data_size = ground (arith, length-message) in
        let none_added : padded_size packet 60 - packet.data_size ≡ 0 = omega arith in
        rw (none_added, same) (unfold replicate in rw (append-nil message) refl)

    decoded :
        decode_packets smart_copy_cm_encrypted_payload_ind 5 (packet ∷ [])
        ≡ some (record { fields = e; sta_mac_addr = src } ∷ [])
    unfolding decode_packets decode_packet
    decoded =
        let left : (packet.data_size + (4294967296 - 5)) % 4294967296 ≡ length message =
          omega (arith, length-message) in
        rw (left, copied (length message) length-message (omega arith)) refl

-- An encrypted payload whose fields fit in the struct, with 17 to 1471 bytes of data, is received
-- as it was sent: encoded, framed, put together and decoded it comes back, with the address of its
-- sender.
pub decode-encode_cm_encrypted_payload_ind :
    (e : EncryptedPayload) (sta src : Bytes)
    → IsPayload e
    → length sta ≡ 6
    → length src ≡ 6
    → 17 ≤ e.encrypted_data_length
    → e.encrypted_data_length ≤ 1471
    → (encode_cm_encrypted_payload_ind (some e) sta src
        >>= (λ p. build_frames p 60)
        >>= defrag_frames
        >>= decode_mme smart_copy_cm_encrypted_payload_ind)
      ≡ some (record { fields = e; sta_mac_addr = src } ∷ [])
unfolding decode_mme
decode-encode_cm_encrypted_payload_ind e sta src whole hs hm least most =
    let p = packet e whole sta src hs hm least most in
    let sized = length-message e whole sta src hs hm least most in
    rw
      (
        encoded e whole sta src hs hm least most,
        defrag-build_frames p 60 (record { sized = refl; dst_sized = hs; src_sized = hm })
            (omega arith) (omega arith) refl (omega arith),
        unpadded e whole sta src hs hm least most,
        decoded e whole sta src hs hm least most,
      )
      refl
