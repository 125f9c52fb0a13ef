-- ===== src/Mme/Copies.antt =====
-- The smart copies that hpav_test/libhpav_mtk/hpav_mtk_mme.c writes out. Each reads its fields one
-- after the other from the bytes behind the header.
pub mod RoundTrip
use tulum_utils.Base.{
  ℕ, ◌+◌, ◌-◌, ◌*◌, ◌/◌, ◌%◌, ◌==◌, ltb, if◌then◌else◌, Bytes, byte_at, le16_at, le32_at, ◌∷◌, ◌++◌,
  [], Option, some, none, ◌>>=◌, copy_out, copy_onto, drop, take, replicate, slice,
}
use tulum_utils.Mme.Decode.{SmartCopy}

-- The next `n` bytes, and those that follow them.
unfoldable pub read : ℕ → Bytes → Option (Bytes × Bytes)
read n mme_data = do field ← copy_out 0 n mme_data; some (field, drop n mme_data)

unfoldable pub read_byte : Bytes → Option (ℕ × Bytes)
read_byte mme_data = do (field, rest) ← read 1 mme_data; some (byte_at field 0, rest)

unfoldable pub read_u16 : Bytes → Option (ℕ × Bytes)
read_u16 mme_data = do (field, rest) ← read 2 mme_data; some (le16_at field 0, rest)

unfoldable pub read_u32 : Bytes → Option (ℕ × Bytes)
read_u32 mme_data = do (field, rest) ← read 4 mme_data; some (le32_at field 0, rest)

-- sizeof(struct hpav_mtk_vs_get_nw_info_entry)
abbrev pub nw_info_entry_size : ℕ
nw_info_entry_size = 16

-- The entries are the bytes of packed structs; a null pointer for no entries is an empty string.
pub record NwInfo : Type 0 where
  pub nid : Bytes
  pub snid : ℕ
  pub cco_tei : ℕ
  pub cco_mac_addr : Bytes
  pub num_nws : ℕ
  pub nwinfo : Bytes

unfoldable pub smart_copy_nw_info : SmartCopy NwInfo
smart_copy_nw_info mme_data mme_data_size = do
  (nid, d) ← read 7 mme_data
  (snid, d) ← read_byte d
  (cco_tei, d) ← read_byte d
  (cco_mac_addr, d) ← read 6 d
  (num_nws, d) ← read_byte d
  (nwinfo, _) ← read (num_nws * nw_info_entry_size) d
  some (record {
    nid = nid;
    snid = snid;
    cco_tei = cco_tei;
    cco_mac_addr = cco_mac_addr;
    num_nws = num_nws;
    nwinfo = nwinfo;
  })

-- sizeof(struct hpav_mtk_tonemap_int_entry)
abbrev pub tonemap_int_entry_size : ℕ
tonemap_int_entry_size = 10

-- HPAV_POSSIBLE_CARRIERS_MAX, from which the sizes of the lists follow.
abbrev pub possible_carriers_max : ℕ
possible_carriers_max = 4096

abbrev pub modulation_list_max_size : ℕ
modulation_list_max_size = possible_carriers_max / 2

abbrev pub snr_list_max_size : ℕ
snr_list_max_size = possible_carriers_max / 4

pub record Tonemap : Type 0 where
  pub result : ℕ
  pub beacon_delta : ℕ
  pub int_id : ℕ
  pub tmi_default : ℕ
  pub tmi_length : ℕ
  pub tmi_data : Bytes
  pub int_length : ℕ
  pub int_data : Bytes
  pub tmi : ℕ
  pub tm_rx_gain : ℕ
  pub tm_fec : ℕ
  pub tm_gi : ℕ
  pub tm_phy_rate : ℕ
  pub carrier_group : ℕ
  pub tonemap_length : ℕ
  pub modulation_list : Bytes

-- The bytes that are left behind the fixed fields and the two arrays, an unsigned int.
unfoldable pub left_size : ℕ → ℕ → ℕ → ℕ
left_size mme_data_size tmi_length int_length =
    (mme_data_size + (4294967296 - (20 + tmi_length + int_length * tonemap_int_entry_size)))
    % 4294967296

-- The signed fields are kept as their bytes. The modulation list is cleared, and takes all the
-- bytes that are left.
unfoldable pub smart_copy_tonemap : SmartCopy Tonemap
smart_copy_tonemap mme_data mme_data_size = do
  (result, d) ← read_byte mme_data
  (beacon_delta, d) ← read_u32 d
  (int_id, d) ← read_byte d
  (tmi_default, d) ← read_byte d
  (tmi_length, d) ← read_byte d
  (tmi_data, d) ← read tmi_length d
  (int_length, d) ← read_byte d
  (int_data, d) ← read (int_length * tonemap_int_entry_size) d
  (tmi, d) ← read_byte d
  (tm_rx_gain, d) ← read_byte d
  (tm_fec, d) ← read_byte d
  (tm_gi, d) ← read_byte d
  (tm_phy_rate, d) ← read_u32 d
  (carrier_group, d) ← read_byte d
  (tonemap_length, d) ← read_u16 d
  (left, _) ← read (left_size mme_data_size tmi_length int_length) d
  modulation_list ← copy_onto left (replicate modulation_list_max_size 0)
  some (record {
    result = result;
    beacon_delta = beacon_delta;
    int_id = int_id;
    tmi_default = tmi_default;
    tmi_length = tmi_length;
    tmi_data = tmi_data;
    int_length = int_length;
    int_data = int_data;
    tmi = tmi;
    tm_rx_gain = tm_rx_gain;
    tm_fec = tm_fec;
    tm_gi = tm_gi;
    tm_phy_rate = tm_phy_rate;
    carrier_group = carrier_group;
    tonemap_length = tonemap_length;
    modulation_list = modulation_list;
  })

-- The interval list is kept as its bytes, two for each entry.
pub record Snr : Type 0 where
  pub result : ℕ
  pub int_id : ℕ
  pub int_length : ℕ
  pub int_data : Bytes
  pub tm_ber : ℕ
  pub carrier_group : ℕ
  pub snr_list : Bytes

unfoldable pub smart_copy_snr : SmartCopy Snr
smart_copy_snr mme_data mme_data_size = do
  (result, d) ← read_byte mme_data
  (int_id, d) ← read_byte d
  (int_length, d) ← read_byte d
  (int_data, d) ← read (int_length * 2) d
  (tm_ber, d) ← read_u16 d
  (carrier_group, d) ← read_byte d
  (snr_list, _) ← read snr_list_max_size d
  some (record {
    result = result;
    int_id = int_id;
    int_length = int_length;
    int_data = int_data;
    tm_ber = tm_ber;
    carrier_group = carrier_group;
    snr_list = snr_list;
  })

pub record PwmStats : Type 0 where
  pub mstatus : ℕ
  pub pwm_freq : ℕ
  pub pwm_duty_cycle : ℕ
  pub pwm_volt : ℕ
  pub pwm_saradc : ℕ

unfoldable pub smart_copy_pwm_stats : SmartCopy PwmStats
smart_copy_pwm_stats mme_data mme_data_size = do
  (mstatus, d) ← read_byte mme_data
  (pwm_freq, d) ← read_u16 d
  (pwm_duty_cycle, d) ← read_u16 d
  (pwm_volt, d) ← read_u16 d
  (pwm_saradc, _) ← read_u16 d
  some (record {
    mstatus = mstatus;
    pwm_freq = pwm_freq;
    pwm_duty_cycle = pwm_duty_cycle;
    pwm_volt = pwm_volt;
    pwm_saradc = pwm_saradc;
  })

pub record PwmConf : Type 0 where
  pub pwm_mode : ℕ
  pub pwm_measures : ℕ
  pub pwm_period : ℕ
  pub pwm_freq_thr : ℕ
  pub pwm_duty_cycle_thr : ℕ
  pub pwm_volt_thr : ℕ
  pub pwm_saradc_lsb : ℕ
  pub pwm_voltage_bias : ℕ

unfoldable pub smart_copy_pwm_conf : SmartCopy PwmConf
smart_copy_pwm_conf mme_data mme_data_size = do
  (pwm_mode, d) ← read_byte mme_data
  (pwm_measures, d) ← read_byte d
  (pwm_period, d) ← read_u16 d
  (pwm_freq_thr, d) ← read_u16 d
  (pwm_duty_cycle_thr, d) ← read_u16 d
  (pwm_volt_thr, d) ← read_u16 d
  (pwm_saradc_lsb, d) ← read_u16 d
  (pwm_voltage_bias, _) ← read_u16 d
  some (record {
    pwm_mode = pwm_mode;
    pwm_measures = pwm_measures;
    pwm_period = pwm_period;
    pwm_freq_thr = pwm_freq_thr;
    pwm_duty_cycle_thr = pwm_duty_cycle_thr;
    pwm_volt_thr = pwm_volt_thr;
    pwm_saradc_lsb = pwm_saradc_lsb;
    pwm_voltage_bias = pwm_voltage_bias;
  })

-- The status of VS_SET_PWM_CONF.CNF.
unfoldable pub smart_copy_set_pwm_conf : SmartCopy ℕ
smart_copy_set_pwm_conf mme_data mme_data_size = do (mstatus, _) ← read_byte mme_data; some mstatus

-- The result of VS_SET_TX_CALI.CNF.
unfoldable pub smart_copy_set_tx_cali : SmartCopy ℕ
smart_copy_set_tx_cali mme_data mme_data_size = do (result, _) ← read_byte mme_data; some result

pub record TxCaliInd : Type 0 where
  pub spectrum_idx : ℕ
  pub result : Bytes

-- SNIF_GP_CAL_NUM_OF_SPECTRUM bytes of results.
unfoldable pub smart_copy_set_tx_cali_ind : SmartCopy TxCaliInd
smart_copy_set_tx_cali_ind mme_data mme_data_size = do
  (spectrum_idx, d) ← read_u16 mme_data
  (result, _) ← read 1155 d
  some (record { spectrum_idx = spectrum_idx; result = result })

-- The offsets of `length` and `data` in VS_FILE_ACCESS.CNF, and the most bytes of data.
abbrev pub file_length_offset : ℕ
file_length_offset = 43

abbrev pub file_data_offset : ℕ
file_data_offset = 45

abbrev pub file_data_max_len : ℕ
file_data_max_len = 1024

-- The bytes of the struct: all that came, copied onto what malloc has left there (`heap`), with the
-- data behind the stated length cleared. Copying more than the struct holds faults.
unfoldable pub smart_copy_file_access : Bytes → SmartCopy Bytes
smart_copy_file_access heap mme_data mme_data_size = do
  (copied, _) ← read mme_data_size mme_data
  new_mme ← copy_onto copied heap
  let size = le16_at new_mme file_length_offset
  some (
      if ltb size file_data_max_len
      then take (file_data_offset + size) new_mme
        ++ (replicate (file_data_max_len - size) 0
            ++ drop (file_data_offset + file_data_max_len) new_mme)
      else new_mme)
