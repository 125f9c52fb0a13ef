-- ===== src/Conf/Transfer.antt =====
-- The commands that fetch the configuration of a station and store it there: conf_file_read and
-- conf_file_write, over accesses to the files of the station.
use tulum_utils.Base.{Bool, if◌then◌else◌, Option, none, some, ◌>>=◌, List, [], ◌∷◌, Bytes, codes}
use tulum_utils.Base.Int.{ℤ, pos, negsuc}
use tulum_utils.Channel.Pcap.{is_zero}
use tulum_utils.Conf.Json.{Json}

-- MTK_LINK_LOCAL_ADDR and the two paths on the device.
abbrev pub link_local_addr : Bytes
link_local_addr = codes "00:13:d7:00:00:01"

abbrev pub inka_conf : Bytes
inka_conf = codes "/inka.conf"

abbrev pub inka_update_conf : Bytes
inka_update_conf = codes "/inka_update.conf"

-- The address on the command line, or the one that every station answers to.
abbrev pub station_of : List Bytes → Bytes
station_of [] = link_local_addr
station_of (mac ∷ rest) = mac

-- The words of an access, with which test_mme_mtk_vs_file_access_req is called.
abbrev pub save_words : Bytes → Bytes → Bytes → List Bytes
save_words station path tmp = station ∷ codes "save" ∷ path ∷ codes "output" ∷ tmp ∷ []

abbrev pub delete_words : Bytes → Bytes → List Bytes
delete_words station path = station ∷ codes "delete" ∷ path ∷ []

abbrev pub write_words : Bytes → Bytes → Bytes → List Bytes
write_words station path name = station ∷ codes "write" ∷ path ∷ codes "input" ∷ name ∷ []

-- `access` is the result of an access by its words. `temps` are the names of the two temporary files, if
-- they can be made, and `fetched` is what a file holds after the accesses. `store` is what the file
-- named on the command line holds after json_serialize_to_file, if that succeeds.
module _ (J : Json) (access : List Bytes → ℤ) (temps : Option (Bytes × Bytes))
    (fetched : Bytes → Option J.Text) (store : Option J.Doc → Option J.Text) where
  open J use {Text, Doc, parse, merge}

  -- The result, the accesses in their order, and the new file if one is written. Both temporary files are
  -- removed in every case.
  pub record Transferred : Type 0 where
    pub code : ℤ
    pub calls : List (List Bytes)
    pub file : Option Text

  abbrev ended : ℤ → List (List Bytes) → Option Text → Transferred
  ended code calls file = record { code = code; calls = calls; file = file }

  abbrev parse_file : Bytes → Option Doc
  parse_file name = fetched name >>= parse

  -- The document, with the updates if the station has any; none if they cannot be merged.
  unfoldable pub merged : Bool → Bytes → Bytes → Option (Option Doc)
  merged inka_update_exist conf update =
      if inka_update_exist
      then elim (merge (parse_file conf) (parse_file update)) [
        | none ↦ none
        | some d ↦ some (some d)
      ]
      else some (parse_file conf)

  unfoldable pub finish_read : List (List Bytes) → Option (Option Doc) → Transferred
  finish_read calls none = ended (negsuc 0) calls none
  finish_read calls (some inka) = elim (store inka) [
    | none ↦ ended (negsuc 0) calls none
    | some text ↦ ended (pos 0) calls (some text)
  ]

  unfoldable pub read_station : Bytes → Bytes × Bytes → Transferred
  read_station station (conf, update) =
      let first = save_words station inka_conf conf in
      let second = save_words station inka_update_conf update in
      if is_zero (access first)
      then finish_read (first ∷ second ∷ []) (merged (is_zero (access second)) conf update)
      else ended (negsuc 0) (first ∷ []) none

  unfoldable pub conf_file_read : List Bytes → Transferred
  conf_file_read [] = ended (pos 2) [] none
  conf_file_read (filename ∷ rest) = elim temps [
    | none ↦ ended (negsuc 0) [] none
    | some names ↦ read_station (station_of rest) names
  ]

  -- The update of the station is deleted first; whether that succeeds is not looked at.
  unfoldable pub conf_file_write : List Bytes → Transferred
  conf_file_write [] = ended (pos 2) [] none
  conf_file_write (filename ∷ rest) =
      let station = station_of rest in
      let first = delete_words station inka_update_conf in
      let second = write_words station inka_conf filename in
      if is_zero (access second)
      then ended (pos 0) (first ∷ second ∷ []) none
      else ended (negsuc 0) (first ∷ second ∷ []) none
