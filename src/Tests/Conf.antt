-- ===== src/Tests/Conf.antt =====
-- A document of one number and one array, which meets what is asked of libjson, and what is done to it.
use mathlib.Core.Option.{some_inj}
use tulum_utils.Base.{
  ℕ, zero, suc, ◌<◌, ◌≡◌, refl, sym, ap, ◌∙◌, arith, ltb, ◌==◌, if◌then◌else◌, Option, none, some,
  List, [], ◌∷◌, ◌++◌, String, Bytes, length, get_or, replace_at, replicate, length-append, All,
  IsByte,
}
use tulum_utils.Base.Int.{pos}
use tulum_utils.Libc.Hex.{lower, hex_bytes}
use tulum_utils.Libc.Decimal.{print_int}
use tulum_utils.Conf.Json.{Json, IsLawful}
use tulum_utils.Conf.Fields.{Context, done, modify_nmk, modify_psd_limit, replace_words}
use tulum_utils.Conf.Print.{parse_nmk, parse_nid, parse_psd_limit}
use tulum_utils.Conf.Keys.{parse_nmk-modify_nmk, nmk_line, auto_line}
use tulum_utils.Conf.Limits.{parse-modify_psd_limit, limit, psd_line}

pub record Doc : Type 0 where
  pub number : ℕ
  pub array : List ℕ

unfoldable pub set : Doc → Option String → String → ℕ → Option Doc
set d none key x = none
set d (some o) key x = some (record d { number = x })

unfoldable pub get : Doc → Option String → String → ℕ
get d none key = 0
get d (some o) key = d.number

unfoldable pub child : Doc → Option String → String → Option String
child d none key = none
child d (some o) key = some key

unfoldable pub size : Doc → Option String → ℕ
size d none = 0
size d (some a) = length d.array

unfoldable pub element : Doc → Option String → ℕ → ℕ
element d none i = 0
element d (some a) i = get_or d.array i 0

unfoldable pub replace : Doc → Option String → ℕ → ℕ → Option Doc
replace d none i x = none
replace d (some a) i x =
    if ltb i (length d.array) then some (record d { array = replace_at i x d.array }) else none

unfoldable pub append : Doc → Option String → ℕ → Option Doc
append d none x = none
append d (some a) x = some (record d { array = d.array ++ (x ∷ []) })

unfoldable pub empty : Doc → Option String → Doc
empty d none = d
empty d (some a) = record d { array = [] }

abbrev pub small_json : Json
small_json = record {
  Text = Doc;
  Doc = Doc;
  Ref = String;
  Double = ℕ;
  of_int = λ n. n;
  to_int = λ n. n;
  parse = some;
  serialize = λ d. d;
  merge = λ d u. u;
  root = λ d. some "inka";
  get_object = child;
  get_array = child;
  get_number = get;
  get_boolean = λ d o k. pos 1;
  get_string = λ d o k. none;
  set_number = set;
  set_boolean = λ d o k b. some d;
  set_string = λ d o k s. some d;
  array_count = size;
  array_number = element;
  replace_number = replace;
  append_number = append;
  clear = empty;
}

get-set :
    (d d' : Doc) (o : Option String) (k : String) (x : ℕ) → set d o k x ≡ some d' → get d' o k ≡ x
unfolding set get
get-set d d' none k x h = cc
get-set d d' (some o) k x h = sym (ap (λ z. z.number) (some_inj.0 h))

child_any : (d d' : Doc) (p : Option String) (j : String) → child d' p j ≡ child d p j
unfolding child
child_any d d' none j = refl
child_any d d' (some p) j = refl

array-set :
    (d d' : Doc) (o : Option String) (k : String) (x : ℕ)
    → set d o k x ≡ some d'
    → d'.array ≡ d.array
unfolding set
array-set d d' none k x h = cc
array-set d d' (some o) k x h = sym (ap (λ z. z.array) (some_inj.0 h))

get_or-replace_at :
    (i j x : ℕ) (xs : List ℕ)
    → i < length xs
    → get_or (replace_at i x xs) j 0 ≡ (if j == i then x else get_or xs j 0)
get_or-replace_at i j x [] h = absurd (omega arith)
get_or-replace_at zero zero x (y ∷ xs) h = refl
get_or-replace_at zero (suc j) x (y ∷ xs) h = ground arith
get_or-replace_at (suc i) zero x (y ∷ xs) h = ground arith
get_or-replace_at (suc i) (suc j) x (y ∷ xs) h =
    get_or-replace_at i j x xs (omega arith) ∙ ground arith

get_or-last :
    (i x : ℕ) (xs : List ℕ)
    → get_or (xs ++ (x ∷ [])) i 0 ≡ (if i == length xs then x else get_or xs i 0)
get_or-last zero x [] = ground arith
get_or-last (suc i) x [] = ground arith
get_or-last zero x (y ∷ xs) = ground arith
get_or-last (suc i) x (y ∷ xs) = get_or-last i x xs ∙ ground arith

replaced :
    (d d' : Doc) (a : String) (i x j : ℕ)
    → replace d (some a) i x ≡ some d'
    → get_or d'.array j 0 ≡ (if j == i then x else get_or d.array j 0)
unfolding replace
replaced d d' a i x j h = grind (arith, get_or-replace_at i j x d.array)

appended :
    (d d' : Doc) (a : String) (x : ℕ)
    → append d (some a) x ≡ some d'
    → d'.array ≡ d.array ++ (x ∷ [])
unfolding append
appended d d' a x h = sym (ap (λ z. z.array) (some_inj.0 h))

pub small_json-IsLawful : IsLawful small_json
unfolding set get child size element replace append empty
small_json-IsLawful = record {
  to_int-of_int = λ n h. refl;
  get-set_number = λ d d' o k x h. get-set d d' o k x h;
  array-set_number = λ d d' o p k j a x h ne e. child_any d d' p j ∙ e;
  number-set_number =
      λ d d' o p k j a i x h ne e. ap (λ xs. get_or xs i 0) (array-set d d' o k x h);
  array-replace_number = λ d d' a i x p j h. child_any d d' p j;
  number-replace_number = λ d d' a i x j h. replaced d d' a i x j h;
  count-clear = λ d a. refl;
  array-clear = λ d a p j. child_any d (empty d (some a)) p j;
  array-append_number = λ d d' a x p j h. child_any d d' p j;
  count-append_number =
      λ d d' a x h. ap length (appended d d' a x h) ∙ omega (arith, length-append d.array (x ∷ []));
  number-append_number =
      λ d d' a x i h. ap (λ xs. get_or xs i 0) (appended d d' a x h) ∙ get_or-last i x d.array;
}

abbrev pub context : Context String
context = record {
  inka_obj = some "inka";
  inka_hpav_obj = some "hpav";
  inka_cp_obj = some "cp";
  inka_phy_obj = some "phy";
}

-- A key in the array.
abbrev sixteen_bytes : Bytes
sixteen_bytes = replicate 16 0xA5

abbrev pub with_array : List ℕ → Doc
with_array ws = record { number = 5; array = ws }

parse_nmk-modify_nmk_example :
    (modify_nmk small_json context
        (hex_bytes lower (58 ∷ []) sixteen_bytes)
        (with_array (replicate 4 1))
      ≡ done (record { number = 0; array = replicate 4 0xA5A5A5A5 }))
    × (parse_nmk small_json (some "hpav") (record { number = 0; array = replicate 4 0xA5A5A5A5 })
        ≡ nmk_line sixteen_bytes)
    × (parse_nid small_json (some "hpav") (record { number = 0; array = replicate 4 0xA5A5A5A5 })
        ≡ auto_line)
unfolding replicate replace_words child replace set
parse_nmk-modify_nmk_example =
    parse_nmk-modify_nmk small_json small_json-IsLawful context sixteen_bytes "nmk"
      (with_array (replicate 4 1)) (with_array (replicate 4 0xA5A5A5A5))
      (record { number = 0; array = replicate 4 0xA5A5A5A5 }) bytes refl refl refl refl
  where
    same : (n : ℕ) → All IsByte (replicate n 0xA5)
    same zero = tt
    same (suc n) = (omega arith, same n)

    bytes : All IsByte sixteen_bytes
    bytes = same 16

parse-modify_psd_limit_example :
    (modify_psd_limit small_json context (print_int (limit 1)) (with_array [])
      ≡ done (record { number = 14; array = [] }))
    × (parse_psd_limit small_json (some "phy") (record { number = 14; array = [] })
        ≡ psd_line (limit 1))
unfolding set
parse-modify_psd_limit_example =
    parse-modify_psd_limit small_json small_json-IsLawful context 1 (with_array [])
      (record { number = 14; array = [] }) (omega arith) refl
