-- ===== src/Mme/Copies/RoundTrip.antt =====
-- Answers laid out as a station sends them are read back.
use tulum_utils.Base.{
  ℕ, ◌+◌, ◌-◌, ◌*◌, ◌≤◌, ◌<◌, ◌≡◌, refl, ap, ◌∙◌, arith, Bytes, le16, le32, le16_at, le32_at, ◌∷◌,
  ◌++◌, [], some, none, copy_out_lem, length, length-append, take-append, drop-append,
  drop-replicate, length-replicate, copy_onto_lem, copy_out_fault, append-nil, sym, replicate,
}
use tulum_utils.Mme.Copies.{
  read, read_byte, read_u16, read_u32, NwInfo, smart_copy_nw_info, Snr, smart_copy_snr, Tonemap,
  smart_copy_tonemap, left_size,
}

read-append : (n : ℕ) (a b : Bytes) → length a ≡ n → read n (a ++ b) ≡ some (a, b)
unfolding read
read-append n a b h =
    rw
      (
        copy_out_lem 0 n (a ++ b) (omega (arith, length-append a b)),
        take-append n a b h,
        drop-append n a b h,
      )
      refl

read_short : (n : ℕ) (b : Bytes) → length b < n → read n (b ++ []) ≡ none
unfolding read
read_short n b h = rw (append-nil b, copy_out_fault 0 n b (omega arith)) refl

read_all : (b : Bytes) → read (length b) b ≡ some (b, [])
read_all b = ap (read (length b)) (sym (append-nil b)) ∙ read-append (length b) b [] refl

read_byte-cons : (x : ℕ) (b : Bytes) → read_byte (x ∷ b) ≡ some (x, b)
unfolding read_byte
read_byte-cons x b = rw (read-append 1 (x ∷ []) b refl) refl

read_u16-le16 : (w : ℕ) (b : Bytes) → w < 65536 → read_u16 (le16 w ++ b) ≡ some (w, b)
unfolding read_u16
read_u16-le16 w b h =
    let e : le16_at (le16 w) 0 ≡ w = omega arith in rw (read-append 2 (le16 w) b refl, e) refl

read_u32-le32 : (w : ℕ) (b : Bytes) → w < 4294967296 → read_u32 (le32 w ++ b) ≡ some (w, b)
unfolding read_u32
read_u32-le32 w b h =
    let e : le32_at (le32 w) 0 ≡ w = omega arith in rw (read-append 4 (le32 w) b refl, e) refl

-- The arrays have the sizes that the counts state.
pub record IsNwInfo (r : NwInfo) : Type 0 where
  pub nid_sized : length r.nid ≡ 7
  pub mac_sized : length r.cco_mac_addr ≡ 6
  pub entries_sized : length r.nwinfo ≡ r.num_nws * 16

-- The layout of VS_GET_NW_INFO.CNF, with what follows it.
abbrev pub nw_info_bytes : NwInfo → Bytes → Bytes
nw_info_bytes r rest =
    r.nid ++ (r.snid ∷ r.cco_tei ∷ (r.cco_mac_addr ++ (r.num_nws ∷ (r.nwinfo ++ rest))))

-- Network information whose arrays have the sizes that it states is read back from its layout as it
-- was, whatever follows it, and whatever number of bytes is passed.
pub smart_copy-nw_info_bytes :
    (r : NwInfo) (rest : Bytes) (size : ℕ)
    → IsNwInfo r
    → smart_copy_nw_info (nw_info_bytes r rest) size ≡ some r
unfolding smart_copy_nw_info
smart_copy-nw_info_bytes r rest size h =
    rw
      (
        read-append 7 r.nid _ h.nid_sized,
        read_byte-cons r.snid _,
        read_byte-cons r.cco_tei _,
        read-append 6 r.cco_mac_addr _ h.mac_sized,
        read_byte-cons r.num_nws _,
        read-append (r.num_nws * 16) r.nwinfo rest h.entries_sized,
      )
      refl

-- The fields fit, and the lists have the sizes of the struct and of the count.
pub record IsSnr (r : Snr) : Type 0 where
  pub intervals_sized : length r.int_data ≡ r.int_length * 2
  pub list_sized : length r.snr_list ≡ 1024
  pub ber_fits : r.tm_ber < 65536

-- The layout of VS_GET_SNR.CNF, with what follows it.
abbrev pub snr_bytes : Snr → Bytes → Bytes
snr_bytes r rest =
    r.result
    ∷ r.int_id
    ∷ r.int_length
    ∷ (r.int_data ++ (le16 r.tm_ber ++ (r.carrier_group ∷ (r.snr_list ++ rest))))

-- Signal-to-noise ratios with the intervals that they state and a full list of 1024 carriers are
-- read back from their layout as they were, whatever follows it.
pub smart_copy-snr_bytes :
    (r : Snr) (rest : Bytes) (size : ℕ) → IsSnr r → smart_copy_snr (snr_bytes r rest) size ≡ some r
unfolding smart_copy_snr
smart_copy-snr_bytes r rest size h =
    rw
      (
        read_byte-cons r.result _,
        read_byte-cons r.int_id _,
        read_byte-cons r.int_length _,
        read-append (r.int_length * 2) r.int_data _ h.intervals_sized,
        read_u16-le16 r.tm_ber _ h.ber_fits,
        read_byte-cons r.carrier_group _,
        read-append 1024 r.snr_list rest h.list_sized,
      )
      refl

-- An answer with fewer than the 1024 bytes that the struct has for the list makes the copy fault.
pub smart_copy_snr_short :
    (r : Snr) (size : ℕ)
    → length r.int_data ≡ r.int_length * 2
    → r.tm_ber < 65536
    → length r.snr_list < 1024
    → smart_copy_snr (snr_bytes r []) size ≡ none
unfolding smart_copy_snr
smart_copy_snr_short r size h fits short =
    rw
      (
        read_byte-cons r.result _,
        read_byte-cons r.int_id _,
        read_byte-cons r.int_length _,
        read-append (r.int_length * 2) r.int_data _ h,
        read_u16-le16 r.tm_ber _ fits,
        read_byte-cons r.carrier_group _,
        read_short 1024 r.snr_list short,
      )
      refl

pub record IsTonemap (r : Tonemap) : Type 0 where
  pub delta_fits : r.beacon_delta < 4294967296
  pub tmi_sized : length r.tmi_data ≡ r.tmi_length
  pub intervals_sized : length r.int_data ≡ r.int_length * 10
  pub rate_fits : r.tm_phy_rate < 4294967296
  pub length_fits : r.tonemap_length < 65536

-- The layout of VS_GET_TONEMAP.CNF, with the modulation list as it is sent.
abbrev pub tonemap_bytes : Tonemap → Bytes → Bytes
tonemap_bytes r modulation =
    r.result
    ∷ (le32 r.beacon_delta
        ++ (r.int_id
            ∷ r.tmi_default
            ∷ r.tmi_length
            ∷ (r.tmi_data
                ++ (r.int_length
                    ∷ (r.int_data
                        ++ (r.tmi
                            ∷ r.tm_rx_gain
                            ∷ r.tm_fec
                            ∷ r.tm_gi
                            ∷ (le32 r.tm_phy_rate
                                ++ (r.carrier_group ∷ (le16 r.tonemap_length ++ modulation)))))))))

length-tonemap_bytes :
    (r : Tonemap) (modulation : Bytes)
    → IsTonemap r
    → length (tonemap_bytes r modulation)
      ≡ 20 + r.tmi_length + r.int_length * 10 + length modulation
length-tonemap_bytes r modulation h =
    let tail =
      r.tmi
      ∷ r.tm_rx_gain
      ∷ r.tm_fec
      ∷ r.tm_gi
      ∷ (le32 r.tm_phy_rate ++ (r.carrier_group ∷ (le16 r.tonemap_length ++ modulation))) in
    omega (
      arith,
      h.tmi_sized,
      h.intervals_sized,
      length-append r.tmi_data (r.int_length ∷ (r.int_data ++ tail)),
      length-append r.int_data tail,
    )

left_lem :
    (r : Tonemap) (modulation : Bytes)
    → IsTonemap r
    → r.tmi_length < 256
    → r.int_length < 256
    → length modulation ≤ 2048
    → left_size (length (tonemap_bytes r modulation)) r.tmi_length r.int_length ≡ length modulation
unfolding left_size
left_lem r modulation h few short fits = omega (arith, length-tonemap_bytes r modulation h)

-- A tone map whose arrays have the sizes that it states, sent with at most 2048 bytes of the
-- modulation list, and with the number of all its bytes passed, is read back as it was, with the
-- list filled up with zeros.
pub smart_copy-tonemap_bytes :
    (r : Tonemap) (modulation : Bytes)
    → IsTonemap r
    → r.tmi_length < 256
    → r.int_length < 256
    → length modulation ≤ 2048
    → smart_copy_tonemap (tonemap_bytes r modulation) (length (tonemap_bytes r modulation))
      ≡ some (record r { modulation_list = modulation ++ replicate (2048 - length modulation) 0 })
unfolding smart_copy_tonemap
smart_copy-tonemap_bytes r modulation h few short fits =
    rw
      (
        read_byte-cons r.result _,
        read_u32-le32 r.beacon_delta _ h.delta_fits,
        read_byte-cons r.int_id _,
        read_byte-cons r.tmi_default _,
        read_byte-cons r.tmi_length _,
        read-append r.tmi_length r.tmi_data _ h.tmi_sized,
        read_byte-cons r.int_length _,
        read-append (r.int_length * 10) r.int_data _ h.intervals_sized,
        read_byte-cons r.tmi _,
        read_byte-cons r.tm_rx_gain _,
        read_byte-cons r.tm_fec _,
        read_byte-cons r.tm_gi _,
        read_u32-le32 r.tm_phy_rate _ h.rate_fits,
        read_byte-cons r.carrier_group _,
        read_u16-le16 r.tonemap_length _ h.length_fits,
        left_lem r modulation h few short fits,
        read_all modulation,
        copy_onto_lem modulation (replicate 2048 0)
            (omega (arith, length-replicate {A = ℕ} 2048 0)),
        drop-replicate {A = ℕ} (length modulation) 2048 0,
      )
      refl
