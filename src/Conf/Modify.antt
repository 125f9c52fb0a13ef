-- ===== src/Conf/Modify.antt =====
-- The commands that change and print a file: conf_file_modify with its table, and conf_file_parse.
use tulum_utils.Base.{
  ℕ, zero, suc, if◌then◌else◌, Option, none, some, ◌>>=◌, List, [], ◌∷◌, Bytes, codes, bytes_eq,
}
use tulum_utils.Base.Int.{ℤ, pos, negsuc}
use tulum_utils.Conf.Json.{Json}
use tulum_utils.Conf.Fields.{
  Context, Outcome, done, failed, modify_mac, modify_enable_nvram, modify_store_key_change,
  modify_nmk, modify_role, modify_avln_hfid, modify_m_hfid, modify_u_hfid, modify_psd_limit,
  modify_spi_slave_clk,
}
use tulum_utils.Conf.Calibration.{modify_psd_cali}
use tulum_utils.Conf.Print.{report}

-- `open_file`, `long_bits` and `garbage` are those of the calibration. `write` is what a file holds after
-- json_serialize_to_file, whose result is not looked at; a file that does not exist is `none`.
module _ (J : Json) (open_file : Bytes → Option Bytes) (long_bits garbage : ℕ)
    (write : J.Text → Option J.Text → Option J.Text) where
  open J use {Text, Doc, Ref, parse, serialize, root, get_object}

  -- struct fct_name_t; a function of the table gives none where it faults.
  abbrev pub Fct : Type 0
  Fct = Context Ref → Bytes → Doc → Option (Outcome Doc)

  safe : (Context Ref → Bytes → Doc → Outcome Doc) → Fct
  safe fct ctx value d = some (fct ctx value d)

  unfoldable pub modify_fct_name_table : List (Bytes × Fct)
  unfolding safe
  modify_fct_name_table =
      (codes "mac", safe (modify_mac J))
      ∷ (codes "enable_nvram", safe (modify_enable_nvram J))
      ∷ (codes "store_key_change", safe (modify_store_key_change J))
      ∷ (codes "nmk", safe (modify_nmk J))
      ∷ (codes "role", safe (modify_role J))
      ∷ (codes "avln_hfid", safe (modify_avln_hfid J))
      ∷ (codes "m_hfid", safe (modify_m_hfid J))
      ∷ (codes "u_hfid", safe (modify_u_hfid J))
      ∷ (codes "psd_limit", safe (modify_psd_limit J))
      ∷ (codes "psd_cali", modify_psd_cali J open_file long_bits garbage)
      ∷ (codes "spi_slave_clk", safe (modify_spi_slave_clk J))
      ∷ []

  -- The loop goes from the end of the table.
  unfoldable pub find_fct : Bytes → List (Bytes × Fct) → Option Fct
  find_fct name [] = none
  find_fct name ((entry, fct) ∷ table) = elim (find_fct name table) [
    | some later ↦ some later
    | none ↦ if bytes_eq name entry then some fct else none
  ]

  -- The three objects, if the document has its root and all of them.
  unfoldable pub context_of : Doc → Option (Context Ref)
  context_of d = do
    inka ← root d
    hpav ← get_object d (some inka) "hpav"
    cp ← get_object d (some inka) "cp"
    phy ← get_object d (some inka) "phy"
    some (record {
      inka_obj = some inka;
      inka_hpav_obj = some hpav;
      inka_cp_obj = some cp;
      inka_phy_obj = some phy;
    })

  -- What a command returns, and what its file holds afterwards.
  pub record Modified : Type 0 where
    pub code : ℤ
    pub file : Option Text

  -- The file is written for a result of 0, and -1 becomes EXIT_USAGE.
  unfoldable pub finish_modify : Option Text → Outcome Doc → Modified
  finish_modify file (done d) = record { code = pos 0; file = write (serialize d) file }
  finish_modify file (failed zero) = record { code = pos 2; file = file }
  finish_modify file (failed (suc n)) = record { code = negsuc (suc n); file = file }

  abbrev pub refuse : Option Text → Option Modified
  refuse file = some (record { code = negsuc 0; file = file })

  unfoldable pub modify_doc : Bytes → Bytes → Option Text → Doc → Option Modified
  modify_doc name value file d = elim (context_of d) [
    | none ↦ refuse file
    | some ctx ↦ elim (find_fct name modify_fct_name_table) [
      | none ↦ refuse file
      | some fct ↦ fct ctx value d >>= λ result. some (finish_modify file result)
    ]
  ]

  -- The arguments behind "modify", and what the file of the first one holds; none is a fault.
  unfoldable pub conf_file_modify : List Bytes → Option Text → Option Modified
  conf_file_modify (filename ∷ name ∷ value ∷ rest) file = elim (file >>= parse) [
    | none ↦ refuse file
    | some d ↦ modify_doc name value file d
  ]
  conf_file_modify _ file = refuse file

  -- What a command returns and prints.
  pub record Printed : Type 0 where
    pub code : ℤ
    pub output : Bytes

  -- A file that is not there or is not JSON gives the usage message.
  unfoldable pub conf_file_parse : List Bytes → Option Text → Printed
  conf_file_parse (filename ∷ rest) file = elim (file >>= parse) [
    | none ↦ record { code = pos 2; output = codes "Usage : hpav_test conf_file parse filename\n" }
    | some d ↦ elim (context_of d) [
      | none ↦ record { code = negsuc 0; output = codes "Failed : file content incorrect!\n" }
      | some ctx ↦ record {
        code = pos 0;
        output = report J ctx.inka_obj ctx.inka_hpav_obj ctx.inka_cp_obj ctx.inka_phy_obj d;
      }
    ]
  ]
  conf_file_parse [] file = record {
    code = pos 2;
    output = codes "Usage : hpav_test conf_file parse filename\n";
  }
