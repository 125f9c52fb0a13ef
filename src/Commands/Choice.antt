-- ===== src/Commands/Choice.antt =====
-- The commands by their names: main with main_fct_name_table, and the commands that choose again by
-- their first word.
use tulum_utils.Base.{
  ℕ, zero, suc, Bool, true, false, if◌then◌else◌, Option, none, some, ◌>>=◌, List, [], ◌∷◌, Bytes,
  bytes_eq, codes,
}
use tulum_utils.Base.Int.{ℤ, pos, negsuc}
use tulum_utils.Interfaces.{If}
use tulum_utils.Commands.{
  Fct, Library, execute_on_channel, list_interfaces, usage, open_interface, for_interfaces,
}

-- The functions of the other files that the tables name, by the name: test_mme_*, test_secu_*, those of
-- conf_file.c and those of test_nvram.c, of which "read" and "write" go to a channel.
pub record Functions (W C : Type 0) : Type 0 where
  pub mme : Bytes → C → Fct W
  pub secu : Bytes → Fct W
  pub conf_on_channel : Bytes → C → Fct W
  pub conf : Bytes → Fct W
  pub nvram_on_channel : Bytes → C → Fct W
  pub nvram : Bytes → Fct W

abbrev pub test_mme_fct_name_table : List Bytes
test_mme_fct_name_table =
    codes "cm_set_key_req"
    ∷ codes "cm_amp_map_req"
    ∷ codes "mtk_vs_get_version_req"
    ∷ codes "mtk_vs_reset_req"
    ∷ codes "mtk_vs_get_tonemask_req"
    ∷ codes "mtk_vs_get_eth_phy_req"
    ∷ codes "mtk_vs_eth_stats_req"
    ∷ codes "mtk_vs_get_status_req"
    ∷ codes "mtk_vs_get_tonemap_req"
    ∷ codes "mtk_vs_get_snr_req"
    ∷ codes "mtk_vs_get_link_stats_req"
    ∷ codes "mtk_vs_get_nw_info_req"
    ∷ codes "mtk_vs_set_capture_state_req"
    ∷ codes "mtk_vs_set_nvram_req"
    ∷ codes "mtk_vs_get_nvram_req"
    ∷ codes "mtk_vs_get_pwm_stats_req"
    ∷ codes "mtk_vs_get_pwm_conf_req"
    ∷ codes "mtk_vs_set_pwm_conf_req"
    ∷ codes "mtk_vs_pwm_generation_req"
    ∷ codes "mtk_vs_spi_stats_req"
    ∷ codes "mtk_vs_set_tx_cali_req"
    ∷ codes "vc_vs_set_sniffer_conf_req"
    ∷ codes "vc_vs_set_remote_access_req"
    ∷ codes "vc_vs_get_remote_access_req"
    ∷ codes "mtk_vs_file_access_req"
    ∷ []

abbrev pub is_in : Bytes → List Bytes → Bool
is_in name [] = false
is_in name (n ∷ names) = if bytes_eq name n then true else is_in name names

-- strcmp(name, ...) == 0 from the end of a table; no name stands twice in one.
abbrev pub find_fct {ℓ} : {A : Type ℓ} → Bytes → List (Bytes × A) → Option A
find_fct name [] = none
find_fct name ((n, f) ∷ table) = elim (find_fct name table) [
  | some g ↦ some g
  | none ↦ if bytes_eq name n then some f else none
]

-- The words for the bootloader and for the image.
abbrev pub bootloader_words : Bytes → Bytes → List Bytes
bootloader_words mac file = mac ∷ codes "bootloader" ∷ codes "input" ∷ file ∷ []

abbrev pub simage_words : Bytes → Bytes → List Bytes
simage_words mac file = mac ∷ codes "simage" ∷ file ∷ codes "input" ∷ file ∷ []

-- A negative result becomes 1.
abbrev pub clamp : ℤ → ℕ
clamp (pos n) = n
clamp (negsuc n) = 1

module _ {W C : Type 0} (L : Library W C) (F : Functions W C) where
  unfoldable pub test_mme : Fct W
  test_mme (name ∷ (c ∷ interface) ∷ args) w =
      if is_in name test_mme_fct_name_table
      then execute_on_channel L (c ∷ interface) (some (F.mme name)) args w
      else usage [] w
  test_mme argv w = usage argv w

  unfoldable pub test_secu : Fct W
  test_secu (name ∷ input ∷ args) w =
      if is_in name (codes "gen_nmk" ∷ codes "gen_dak" ∷ codes "gen_nid" ∷ [])
      then F.secu name (input ∷ args) w
      else usage [] w
  test_secu (name ∷ []) w = if bytes_eq name (codes "encrypt") then F.secu name [] w else usage [] w
  test_secu [] w = usage [] w

  -- The commands "read" and "write" go to a channel, and "parse" and "modify" do not.
  abbrev pub choose : (Bytes → C → Fct W) → (Bytes → Fct W) → Fct W
  choose on_channel local [] w = usage [] w
  choose on_channel local (name ∷ args) w =
      if is_in name (codes "read" ∷ codes "write" ∷ [])
      then elim args [
        | [] ↦ usage [] w
        | interface ∷ rest ↦ execute_on_channel L interface (some (on_channel name)) rest w
      ]
      else if is_in name (codes "parse" ∷ codes "modify" ∷ [])
      then local name args w
      else usage [] w

  unfoldable pub conf_file : Fct W
  conf_file argv w = choose F.conf_on_channel F.conf argv w

  unfoldable pub test_nvram : Fct W
  test_nvram argv w = choose F.nvram_on_channel F.nvram argv w

  unfoldable pub test_reboot : Fct W
  test_reboot (interface ∷ []) w =
      execute_on_channel L interface (some (F.mme (codes "mtk_vs_reset_req"))) [] w
  test_reboot argv w = usage argv w

  abbrev pub find_stations : Option (List If) × W → Option (ℤ × W)
  find_stations (none, w) = some (pos 1, w)
  find_stations (some list, w) =
      for_interfaces L (F.mme (codes "mtk_vs_get_nw_info_req")) list (pos 0) w

  -- The number of words is -1 where there is no interface in them; the function then reads none.
  unfoldable pub test_find_local_sta : Fct W
  test_find_local_sta [] w = find_stations (L.get_interfaces w)
  test_find_local_sta (interface ∷ []) w =
      execute_on_channel L interface (some (F.mme (codes "mtk_vs_get_nw_info_req"))) [] w
  test_find_local_sta argv w = usage argv w

  -- The image follows only a bootloader that has been written.
  unfoldable pub test_fw_upgrade : Fct W
  test_fw_upgrade (interface ∷ mac ∷ bootloader ∷ firmware ∷ []) w =
      let write = execute_on_channel L interface (some (F.mme (codes "mtk_vs_file_access_req"))) in
      write (bootloader_words mac bootloader) w >>= λ result. elim result.0 [
        | pos zero ↦ write (simage_words mac firmware) result.1
        | pos (suc n) ↦ some result
        | negsuc n ↦ some result
      ]
  test_fw_upgrade argv w = usage argv w

  unfoldable pub main_fct_name_table : List (Bytes × Fct W)
  main_fct_name_table =
      (codes "list_if", list_interfaces L)
      ∷ (codes "open_if", open_interface L)
      ∷ (codes "test_mme", test_mme)
      ∷ (codes "test_secu", test_secu)
      ∷ (codes "conf_file", conf_file)
      ∷ (codes "nvram", test_nvram)
      ∷ (codes "reboot", test_reboot)
      ∷ (codes "find_local_sta", test_find_local_sta)
      ∷ (codes "fw_upgrade", test_fw_upgrade)
      ∷ []

  -- The words behind the name of the program.
  unfoldable pub main : List Bytes → W → Option (ℕ × W)
  main [] w = some (2, w)
  main (name ∷ args) w = elim (find_fct name main_fct_name_table) [
    | none ↦ some (2, w)
    | some fct ↦ fct args w >>= λ result. some (clamp result.0, result.1)
  ]
