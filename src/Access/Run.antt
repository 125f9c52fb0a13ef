-- ===== src/Access/Run.antt =====
-- The whole command: test_mme_mtk_vs_file_access_req, for one station or for each station of a list.
use tulum_utils.Base.{
  ℕ, suc, Bool, true, ◌&&◌, leb, ltb, ◌==◌, if◌then◌else◌, Option, none, some, ◌>>=◌, List, [], ◌∷◌,
  Bytes, length, replicate,
}
use tulum_utils.Base.Int.{ℤ, pos, negsuc}
use tulum_utils.Channel.Run.{Run, returns, lift, ◌>>=◌ as ◌>>>◌}
use tulum_utils.Utils.Text.{stomac}
use tulum_utils.Access.Command.{Access, parse_file_access}
use tulum_utils.Access.Transfer.{Request, Reply, access_loop, first_request, fragments_of}
use tulum_utils.Access.Response.{Local}

-- The result, with the requests to each station.
pub record Done : Type 0 where
  pub rv : ℤ
  pub sent : List (List Request)
  pub file : Local

-- The end of the function at this place, before any request to the station.
abbrev ends : ℤ → Local → Run Done
ends rv l = returns (record { rv = rv; sent = []; file = l })

abbrev pub is_zero_mac : Bytes → Bool
is_zero_mac [] = true
is_zero_mac (b ∷ bs) = b == 0 && is_zero_mac bs

-- The addresses in the list of stations; one that cannot be read ends the command, and a 65th has no
-- place in the array.
read_macs : ℕ → List Bytes → Option (Option (List Bytes))
read_macs n [] = some (some [])
read_macs n (word ∷ words) = if leb 64 n then none else elim (stomac word) [
  | none ↦ some none
  | some mac ↦ read_macs (suc n) words >>= λ macs. some (macs >>= λ rest. some (mac ∷ rest))
]

-- `open_file` is what a file to be written holds, if it can be opened; `sta_list` are the words of the
-- list of stations, if there is one; `replies i` are those to the requests to station `i`;
-- `unset` is what the variable mac of process_mtk_vs_file_access_cnf holds at first.
module _ (open_file : Bytes → Option Bytes) (sta_list : Option (List Bytes))
    (replies : ℕ → List Reply) (unset : Bytes) where
  -- What is read for a write, or the result with which the function returns.
  abbrev load : Access → Option Bytes
  load access = elim (open_file access.file_name) [
    | none ↦ none
    | some [] ↦ none
    | some (b ∷ bs) ↦ some (b ∷ bs)
  ]

  abbrev is_write : Access → Bool
  is_write access = access.command.op == 0

  -- The stations from number `i` on; `rv` is the result of the one before.
  unfoldable pub run_stations : Access → List Bytes → ℕ → ℤ → Local → Run Done
  run_stations access [] i rv l = ends rv l
  run_stations access (mac ∷ macs) i rv l =
      if ltb 32 (length access.parameter)
      then ends (negsuc 0) l
      else elim (if is_write access then load access else some []) [
        | none ↦ ends (negsuc 1) l
        | some buf ↦
            access_loop access.command.op (access.command.file_type == 2) unset buf (replies i) 0
              (first_request mac (if is_write access then fragments_of (length buf) else 0)) l
            >>> λ f. run_stations access macs (suc i) f.rv f.file >>> λ d.
                returns (record d { sent = f.sent ∷ d.sent })
      ]

  -- The addresses to go to. Without the list of stations, its null pointer is closed, which faults.
  unfoldable pub stations_of : Access → Bytes → Option (Option (List Bytes))
  unfolding read_macs
  stations_of access dest_mac =
      if access.all_flag then sta_list >>= read_macs 0 else some (some (dest_mac ∷ []))

  unfoldable pub run_access : Bytes → Option Access → Local → Run Done
  run_access dest_mac none l = ends (pos 2) l
  run_access dest_mac (some access) l = lift (stations_of access dest_mac) >>> λ macs. elim macs [
    | none ↦ ends (pos 2) l
    | some list ↦ run_stations access list 0 (pos 0) l
  ]

  -- An address of zeros is none, and the words of the command begin with it.
  unfoldable pub vs_file_access_req : List Bytes → Local → Run Done
  vs_file_access_req [] l = ends (pos 2) l
  vs_file_access_req (word ∷ words) l = elim (stomac word) [
    | none ↦ ends (pos 2) l
    | some mac ↦
        if is_zero_mac mac
        then (lift (parse_file_access (word ∷ words)) >>> λ access.
            run_access (replicate 6 0xFF) access l)
        else (lift (parse_file_access words) >>> λ access. run_access mac access l)
  ]
