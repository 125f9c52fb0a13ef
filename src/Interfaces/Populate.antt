-- ===== src/Interfaces/Populate.antt =====
-- Interfaces by their index, and the removal of those without an address.
use tulum_utils.Base.{
  ℕ, zero, suc, ◌+◌, ◌<◌, ◌≡◌, refl, sym, ap, ◌∙◌, arith, Bytes, Bool, true, false, not, ◌==◌,
  Bool-cases, inl, inr, List, [], ◌∷◌, ◌++◌, Option, none, some, bytes_eq, length, length-append,
  select, map, get_elem?, drop, append_assoc, take-append,
}
use tulum_utils.Interfaces.{
  If, index_loop, get_interface_by_index, unlink, populate_loop, populate_mac_addr,
}

-- Once past the index, the loop keeps what it has found.
index_loop_past : (n num : ℕ) (is : List If) (r : Option If) → n < num → index_loop n num is r ≡ r
unfolding index_loop
index_loop_past n num [] r h = refl
index_loop_past n num (i ∷ is) r h = ground (arith, index_loop_past n (suc num) is r)

index_loop_lem : (k num : ℕ) (is : List If) → index_loop (num + k) num is none ≡ get_elem? is k
unfolding index_loop
index_loop_lem k num [] = refl
index_loop_lem zero num (i ∷ is) =
    let here : (num == num + 0) ≡ true = ground arith in
    rw here (index_loop_past (num + 0) (suc num) is (some i) (omega arith))
index_loop_lem (suc k) num (i ∷ is) =
    let past : (num == num + suc k) ≡ false = ground arith in
    let e : num + suc k ≡ suc num + k = omega arith in
    rw past (ap (λ z. index_loop z (suc num) is none) e ∙ index_loop_lem k (suc num) is)

-- The interface asked for by its index is the one at that place of the list, and null past the end.
pub get_interface_by_index_lem :
    (interfaces : List If) (n : ℕ) → get_interface_by_index interfaces n ≡ get_elem? interfaces n
unfolding get_interface_by_index
get_interface_by_index_lem interfaces n =
    let e : n ≡ 0 + n = omega arith in
    ap (λ z. index_loop z 0 interfaces none) e ∙ index_loop_lem n 0 interfaces

get_elem?-append {ℓ} :
    {A : Type ℓ} (xs ys : List A) (n : ℕ)
    → n < length xs
    → (a : A) × (get_elem? (xs ++ ys) n ≡ some a)
get_elem?-append [] ys n h = absurd (omega arith)
get_elem?-append (x ∷ xs) ys zero h = (x, refl)
get_elem?-append (x ∷ xs) ys (suc n) h = get_elem?-append xs ys n (omega arith)

drop-append_one {ℓ} :
    {A : Type ℓ} (xs ys : List A) (y : A) (n : ℕ) → length xs ≡ n → drop (suc n) (xs ++ y ∷ ys) ≡ ys
drop-append_one [] ys y n h = ap (λ k. drop (suc k) (y ∷ ys)) (sym h)
drop-append_one (x ∷ xs) ys y zero h = absurd (omega arith)
drop-append_one (x ∷ xs) ys y (suc n) h = drop-append_one xs ys y n (omega arith)

unlink_lem :
    (kept rest : List If) (i : If) (n : ℕ)
    → length kept ≡ n
    → unlink (kept ++ i ∷ rest) n ≡ some (kept ++ rest)
unfolding unlink
unlink_lem [] rest i zero h = refl
unlink_lem (k ∷ kept) rest i zero h = absurd (omega arith)
unlink_lem kept rest i (suc n) h =
    let (previous, found) = get_elem?-append kept (i ∷ rest) n (omega arith) in
    rw
      (
        get_interface_by_index_lem (kept ++ i ∷ rest) n,
        found,
        take-append (suc n) kept (i ∷ rest) h,
        drop-append_one kept rest i (suc n) h,
      )
      refl

abbrev pub has_address : (Bytes → Bytes) → If → Bool
has_address hwaddr i = not (bytes_eq (hwaddr i.name) (0 ∷ 0 ∷ 0 ∷ 0 ∷ 0 ∷ 0 ∷ []))

abbrev pub with_address : (Bytes → Bytes) → If → If
with_address hwaddr i = record i { mac_addr = hwaddr i.name }

-- The interfaces with an address, in their order, each with its address.
abbrev pub addressed : (Bytes → Bytes) → List If → List If
addressed hwaddr list = map (with_address hwaddr) (select (has_address hwaddr) list)

populate_loop_lem :
    (hwaddr : Bytes → Bytes) (kept rest : List If) (n : ℕ)
    → length kept ≡ n
    → populate_loop hwaddr (kept ++ rest) n rest ≡ some (kept ++ addressed hwaddr rest)
unfolding populate_loop
populate_loop_lem hwaddr kept [] n h = refl
populate_loop_lem hwaddr kept (i ∷ rest) n h =
    elim (Bool-cases (bytes_eq (hwaddr i.name) (0 ∷ 0 ∷ 0 ∷ 0 ∷ 0 ∷ 0 ∷ []))) [
      | inl null ↦ rw (null, unlink_lem kept rest i n h) (populate_loop_lem hwaddr kept rest n h)
      | inr valid ↦
          rw (valid, take-append n kept (i ∷ rest) h, drop-append_one kept rest i n h)
            (rw
              (
                ← append_assoc kept (with_address hwaddr i ∷ []) rest,
                ← append_assoc kept (with_address hwaddr i ∷ []) (addressed hwaddr rest),
              )
              (populate_loop_lem hwaddr (kept ++ with_address hwaddr i ∷ []) rest (suc n)
                (omega (arith, length-append kept (with_address hwaddr i ∷ [])))))
    ]

-- hpav_populate_mac_addr leaves exactly the interfaces with an address in the list, in their
-- order, each with its address; no write goes through a null pointer.
pub populate_mac_addr_lem :
    (hwaddr : Bytes → Bytes) (list : List If)
    → populate_mac_addr hwaddr list ≡ some (addressed hwaddr list)
unfolding populate_mac_addr
populate_mac_addr_lem hwaddr list = populate_loop_lem hwaddr [] list 0 refl
