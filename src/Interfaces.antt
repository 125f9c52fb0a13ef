-- ===== src/Interfaces.antt =====
-- The network interfaces: hpav_test/libhpav/hpav_if.c as it is compiled for Linux. What libpcap
-- finds and the addresses that the kernel gives are arguments.
pub mod Sorted
pub mod Populate
use tulum_utils.Base.{
  ℕ, zero, suc, ◌+◌, ◌-◌, Bytes, Bool, true, false, not, ◌&&◌, ◌||◌, ltb, ◌==◌, if◌then◌else◌,
  bytes_eq, List, [], ◌∷◌, ◌++◌, Option, none, some, ◌>>=◌, String, codes, length, take, drop,
  select, map,
}
use tulum_utils.Base.Int.{ℤ}
use tulum_utils.Errors.{ErrorStack, add_error, category_network, module_core}
use tulum_utils.Channel.Pcap.{is_zero}

-- A struct hpav_if, less the chain. The name is without its final zero byte.
pub record If : Type 0 where
  pub name : Bytes
  pub description : Option Bytes
  pub mac_addr : Bytes

-- A pcap_if_t, less the chain.
pub record PcapIf : Type 0 where
  pub name : Bytes
  pub description : Option Bytes
  pub flags : ℕ

-- strcmp(a, b) < 0
pub strcmp_lt : Bytes → Bytes → Bool
strcmp_lt [] [] = false
strcmp_lt [] (y ∷ b) = true
strcmp_lt (x ∷ a) [] = false
strcmp_lt (x ∷ a) (y ∷ b) = ltb x y || (x == y && strcmp_lt a b)

-- The order of names: shorter ones first, and by strcmp among those of one length.
unfoldable pub is_before : If → If → Bool
is_before a b =
    ltb (length a.name) (length b.name)
    || (length a.name == length b.name && strcmp_lt a.name b.name)

-- strncmp(prefix, name, strlen(prefix)) == 0
abbrev pub starts_with : Bytes → Bytes → Bool
starts_with prefix name = bytes_eq prefix (take (length prefix) name)

-- `loopback` is PCAP_IF_LOOPBACK.
unfoldable pub is_usable : ℕ → PcapIf → Bool
is_usable loopback i =
    not (bytes_eq (codes "any") i.name)
    && (not (starts_with (codes "nflog") i.name)
        && (not (starts_with (codes "usbmon") i.name) && not (i.flags == loopback)))

unfoldable pub new_interface : PcapIf → If
new_interface i = record {
  name = i.name;
  description = i.description;
  mac_addr = 0 ∷ 0 ∷ 0 ∷ 0 ∷ 0 ∷ 0 ∷ [];
}

-- The loop over `cmp_if`: past the interfaces that the new one is not before.
pub insert_after_first : If → List If → List If
insert_after_first new_if [] = new_if ∷ []
insert_after_first new_if (cmp_if ∷ rest) =
    if is_before new_if cmp_if
    then new_if ∷ cmp_if ∷ rest
    else cmp_if ∷ insert_after_first new_if rest

unfoldable pub insert_interface : If → List If → List If
insert_interface new_if [] = new_if ∷ []
insert_interface new_if (first_if ∷ rest) =
    if is_before new_if first_if
    then new_if ∷ first_if ∷ rest
    else first_if ∷ insert_after_first new_if rest

-- The loop over what libpcap found.
pub copy_interfaces : ℕ → List PcapIf → List If → List If
copy_interfaces loopback [] list = list
copy_interfaces loopback (i ∷ is) list =
    copy_interfaces loopback is
      (if is_usable loopback i then insert_interface (new_interface i) list else list)

-- hpav_get_interface_by_index; the loop does not stop at the interface found.
pub index_loop : ℕ → ℕ → List If → Option If → Option If
index_loop if_num interface_num [] result = result
index_loop if_num interface_num (i ∷ is) result =
    index_loop if_num (suc interface_num) is (if interface_num == if_num then some i else result)

unfoldable pub get_interface_by_index : List If → ℕ → Option If
get_interface_by_index interfaces if_num = index_loop if_num 0 interfaces none

-- hpav_get_interface_by_name: the interface, and the number stored if it was found.
unfoldable pub name_loop : Bytes → ℕ → List If → Option (If × ℕ)
name_loop if_name interface_num [] = none
name_loop if_name interface_num (i ∷ is) =
    if bytes_eq i.name if_name
    then some (i, interface_num)
    else name_loop if_name (suc interface_num) is

unfoldable pub get_interface_by_name : List If → Bytes → Option (If × ℕ)
get_interface_by_name interfaces if_name = name_loop if_name 0 interfaces

-- hpav_get_interface_by_index_or_name. `strtoul` gives the number read and the rest of the text.
-- The result is the interface, whether the argument was an index, and the number stored, if one was.
unfoldable pub get_interface_by_index_or_name :
    (Bytes → ℕ × Bytes) → List If → Bytes → Option If × Bool × Option ℕ
get_interface_by_index_or_name strtoul interfaces arg = elim (strtoul arg).1 [
  | [] ↦ (get_interface_by_index interfaces (strtoul arg).0, true, some (strtoul arg).0)
  | _ ∷ _ ↦ elim (get_interface_by_name interfaces arg) [
    | none ↦ (none, false, none)
    | some (i, n) ↦ (some i, false, some n)
  ]
]

unfoldable pub get_number_of_interfaces : List If → ℕ
get_number_of_interfaces [] = 0
get_number_of_interfaces (i ∷ is) = suc (get_number_of_interfaces is)

-- The interface at `interface_num` unlinked: the list starts behind it, or the one ahead of it is
-- asked for its number and linked past it. If there is none ahead of it, the write faults.
unfoldable pub unlink : List If → ℕ → Option (List If)
unlink list zero = some (drop 1 list)
unlink list (suc previous) = do
  _ ← get_interface_by_index list previous
  some (take (suc previous) list ++ drop (suc (suc previous)) list)

-- The Unix variant of hpav_populate_mac_addr; `hwaddr` is what ioctl writes, and stays zero if it
-- fails. `rest` is the chain from `first_if` on, which lies at `interface_num` in `list`.
pub populate_loop : (Bytes → Bytes) → List If → ℕ → List If → Option (List If)
populate_loop hwaddr list interface_num [] = some list
populate_loop hwaddr list interface_num (first_if ∷ rest) =
    let address = hwaddr first_if.name in
    let kept =
      populate_loop hwaddr
        (take interface_num list
          ++ (record first_if { mac_addr = address } ∷ drop (suc interface_num) list))
        (suc interface_num) rest in
    if bytes_eq address (0 ∷ 0 ∷ 0 ∷ 0 ∷ 0 ∷ 0 ∷ [])
    then (unlink list interface_num >>= λ list'. populate_loop hwaddr list' interface_num rest)
    else kept

unfoldable pub populate_mac_addr : (Bytes → Bytes) → List If → Option (List If)
populate_mac_addr hwaddr list = populate_loop hwaddr list 0 list

-- The code, the list and the error stack. `errbuf_text` is the text of the error of libpcap.
unfoldable pub get_interfaces :
    ℤ → List PcapIf → ℕ → (Bytes → Bytes) → String → ErrorStack → Option (ℕ × List If × ErrorStack)
get_interfaces result pcap_interfaces loopback hwaddr errbuf_text errors =
    if is_zero result
    then elim (populate_mac_addr hwaddr (copy_interfaces loopback pcap_interfaces [])) [
      | none ↦ none
      | some list ↦ some (0, list, errors)
    ]
    else some (
      1,
      [],
      add_error errors category_network module_core 1 (some "pcap_findalldevs failed")
          (some errbuf_text),
    )
