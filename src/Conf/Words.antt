-- ===== src/Conf/Words.antt =====
-- The accesses to files that conf_file_read and conf_file_write ask for, and parse_mtk_vs_file_access.
use tulum_utils.Base.{
  ℕ, ◌<◌, ◌≡◌, refl, true, false, lt→ltb, some, List, [], ◌∷◌, Bytes, codes, bytes_eq, length,
}
use tulum_utils.Access.Command.{
  Access, parse_file_access, find_words, find_file, parse_next_word, with_file,
}
use tulum_utils.Conf.Transfer.{inka_conf, inka_update_conf, save_words, delete_words, write_words}

-- The words behind the address of a station.
abbrev tail : List Bytes → List Bytes
tail [] = []
tail (word ∷ words) = words

-- An access to a general file.
abbrev pub access_to : Bytes → ℕ → ℕ → Bytes → Bytes → Access
access_to name op flag path file_name = record {
  command = record { name = name; op = op; file_type = 2; parse_next = true; file_flag = flag };
  parameter = path;
  file_name = file_name;
  all_flag = false;
}

-- Behind the address, the words to fetch and to store a configuration are read as accesses to save and
-- to write the file of that path, with the given local file, and the words to delete as one to delete it,
-- if the name of the local file is shorter than its array of 128 bytes.
pub parse_file_access-conf :
    (station name : Bytes)
    → length name < 128
    → (parse_file_access (tail (save_words station inka_conf name))
        ≡ some (some (access_to (codes "save") 7 2 inka_conf name)))
      × (parse_file_access (tail (write_words station inka_conf name))
          ≡ some (some (access_to (codes "write") 0 1 inka_conf name)))
      × (parse_file_access (tail (delete_words station inka_update_conf))
          ≡ some (some (access_to (codes "delete") 2 0 inka_update_conf [])))
unfolding parse_file_access find_words find_file parse_next_word with_file bytes_eq
parse_file_access-conf station name h =
    (rw (lt→ltb (length name) 128 h) refl, rw (lt→ltb (length name) 128 h) refl, refl)
