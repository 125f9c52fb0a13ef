-- ===== src/Access/Response.antt =====
-- What process_mtk_vs_file_access_cnf does with the answers to a request, on the local files.
use tulum_utils.Base.{
  ℕ, Bool, true, false, ◌&&◌, ◌||◌, not, ◌==◌, if◌then◌else◌, Option, none, some, ◌>>=◌, List, [],
  ◌∷◌, ◌++◌, Bytes, copy_out, copy_onto,
}
use tulum_utils.Utils.Text.{mactos}

-- struct hpav_mtk_vs_file_access_cnf; `data_bytes` are 1024 bytes.
pub record Response : Type 0 where
  pub mstatus : ℕ
  pub op : ℕ
  pub total_fragments : ℕ
  pub fragment_number : ℕ
  pub data_length : ℕ
  pub data_bytes : Bytes
  pub sta_mac_addr : Bytes

-- The two local files: the one named on the command line, to which answers to "save" are written, and the
-- list of stations. The flags say that a file cannot be opened.
pub record Local : Type 0 where
  pub null : Bool
  pub saved : Bytes
  pub list_null : Bool
  pub sta_list : Bytes

-- The variable fp: null, the open list of stations, or a file that has been closed.
pub data Fp : Type 0 where
  fp_null fp_list fp_closed : Fp

-- What the loop over answers works on: the number `mac` as its eight bytes, fp, and the files.
pub record Work : Type 0 where
  pub mac : Bytes
  pub fp : Fp
  pub files : Local

-- The shifts of `mac`, of which the least byte comes first.
abbrev pub turn_mac : Bytes → Bytes
turn_mac (_ ∷ _ ∷ a ∷ b ∷ c ∷ d ∷ e ∷ f ∷ []) = f ∷ e ∷ d ∷ c ∷ b ∷ a ∷ 0 ∷ 0 ∷ []
turn_mac mac = mac

-- A line of the list of stations; writing to a file that has been closed faults.
unfoldable pub print_mac : Bytes → Work → Option Work
print_mac mac w = elim w.fp [
  | fp_null ↦ some (record w { mac = mac })
  | fp_list ↦ some (record w {
    mac = mac;
    files = record w.files { sta_list = w.files.sta_list ++ mactos mac ++ (10 ∷ []) };
  })
  | fp_closed ↦ none
]

-- The part of a file that an answer to "save" holds. fp then stands for that file, closed.
abbrev pub save_fragment : ℕ → Bytes → Work → Work
save_fragment fragment_number written w =
    if w.files.null then record w { fp = fp_null } else record w {
      fp = fp_closed;
      files = record w.files {
        saved = if fragment_number == 0 then written else w.files.saved ++ written;
      };
    }

-- One answer. Its length is not checked: more than the 1024 bytes of its data, or more than the eight of
-- `mac`, fault. Printing is left out.
unfoldable pub process_response : Response → Work → Option Work
process_response r w =
    if r.op == 7
    then (copy_out 0 r.data_length r.data_bytes >>= λ written.
        some (save_fragment r.fragment_number written w))
    else if r.op == 8
    then (copy_out 0 r.data_length r.data_bytes >>= (λ part. copy_onto part w.mac) >>= λ mac.
        print_mac (turn_mac mac) w)
    else if r.op == 1 || r.op == 3
    then (copy_out 0 r.data_length r.data_bytes >>= λ text. some w)
    else some w

-- The loop over the answers: whether each of them up to the first failure is a success.
unfoldable pub process_chain : List Response → Work → Option (Bool × Work)
process_chain [] w = some (true, w)
process_chain (r ∷ rs) w = elim (r.mstatus == 0) [
  | true ↦ process_response r w >>= process_chain rs
  | false ↦ some (false, w)
]

-- "scan-sta" opens the list of stations, empty, and closes fp at the end; a null pointer or a file that
-- is closed already faults.
abbrev pub open_list : Bool → Local → Fp × Local
open_list scan l =
    if scan && not l.list_null then (fp_list, record l { sta_list = [] }) else (fp_null, l)

abbrev pub close_list : Bool → Work → Option Local
close_list scan w = if scan then (elim w.fp [ fp_list ↦ some w.files | _ ↦ none ]) else some w.files

-- process_mtk_vs_file_access_cnf; `unset` is what the variable mac holds at first.
unfoldable pub process_responses : Bool → Bytes → List Response → Local → Option (Bool × Local)
process_responses scan unset responses l =
    let (fp, files) = open_list scan l in
    process_chain responses (record { mac = unset; fp = fp; files = files }) >>= λ result.
    close_list scan result.1 >>= λ l'. some (result.0, l')
