-- ===== src/Tests/Copies.antt =====
-- Answers of Mstar stations.
use tulum_utils.Base.{
  ℕ, ◌-◌, ◌≡◌, refl, arith, ◌∷◌, ◌++◌, [], some, none, length, replicate, length-replicate,
}
use tulum_utils.Mme.Copies.{NwInfo, Snr, smart_copy_snr, Tonemap, smart_copy_tonemap}
use tulum_utils.Mme.Copies.RoundTrip.{
  snr_bytes, smart_copy_snr_short, tonemap_bytes, smart_copy-tonemap_bytes,
}

abbrev nw_info : NwInfo
nw_info = record {
  nid = replicate 7 1;
  snid = 2;
  cco_tei = 3;
  cco_mac_addr = replicate 6 4;
  num_nws = 2;
  nwinfo = replicate 32 5;
}

-- With a list of `n` carriers.
abbrev snr : ℕ → Snr
snr n = record {
  result = 0;
  int_id = 1;
  int_length = 2;
  int_data = 10 ∷ 0 ∷ 20 ∷ 0 ∷ [];
  tm_ber = 300;
  carrier_group = 3;
  snr_list = replicate n 7;
}

snr_short_example : smart_copy_snr (snr_bytes (snr 500) []) 510 ≡ none
snr_short_example =
    smart_copy_snr_short (snr 500) 510 refl (omega arith)
      (omega (arith, length-replicate {A = ℕ} 500 7))

abbrev tonemap : Tonemap
tonemap = record {
  result = 0;
  beacon_delta = 70000;
  int_id = 1;
  tmi_default = 2;
  tmi_length = 3;
  tmi_data = 4 ∷ 5 ∷ 6 ∷ [];
  int_length = 1;
  int_data = replicate 10 7;
  tmi = 8;
  tm_rx_gain = 9;
  tm_fec = 1;
  tm_gi = 2;
  tm_phy_rate = 1000000;
  carrier_group = 0;
  tonemap_length = 1155;
  modulation_list = [];
}

tonemap_example :
    smart_copy_tonemap
      (tonemap_bytes tonemap (3 ∷ 4 ∷ []))
      (length (tonemap_bytes tonemap (3 ∷ 4 ∷ [])))
    ≡ some (record tonemap { modulation_list = (3 ∷ 4 ∷ []) ++ replicate (2048 - 2) 0 })
tonemap_example =
    smart_copy-tonemap_bytes tonemap (3 ∷ 4 ∷ [])
      (record {
        delta_fits = omega arith;
        tmi_sized = refl;
        intervals_sized = length-replicate 10 7;
        rate_fits = omega arith;
        length_fits = omega arith;
      })
      (omega arith) (omega arith) (omega arith)
