-- ===== src/Conf/Json.antt =====
-- What the program uses of libjson, as a parameter, and the documented behaviour of those calls.
-- A pointer to an object or an array may be null; a call on a null pointer reads nothing, and a
-- change of it fails.
use tulum_utils.Base.{
  ℕ, suc, ◌^◌, ◌<◌, ◌≡◌, ◌≢◌, Bool, Option, some, String, Bytes, ◌==◌, if◌then◌else◌,
}
use tulum_utils.Base.Int.{ℤ}

-- A change gives the changed document, or fails; it is made in place, so a pointer stays valid.
-- A `Double` is a number of C's type double, with the conversions from and to whole numbers.
pub record Json : Type 1 where
  pub Text : Type 0
  pub Doc : Type 0
  pub Ref : Type 0
  pub Double : Type 0
  pub of_int : ℕ → Double
  pub to_int : Double → ℕ
  pub parse : Text → Option Doc
  pub serialize : Doc → Text
  pub merge : Option Doc → Option Doc → Option Doc
  pub root : Doc → Option Ref
  pub get_object : Doc → Option Ref → String → Option Ref
  pub get_array : Doc → Option Ref → String → Option Ref
  pub get_number : Doc → Option Ref → String → Double
  pub get_boolean : Doc → Option Ref → String → ℤ
  pub get_string : Doc → Option Ref → String → Option Bytes
  pub set_number : Doc → Option Ref → String → Double → Option Doc
  pub set_boolean : Doc → Option Ref → String → Bool → Option Doc
  pub set_string : Doc → Option Ref → String → Bytes → Option Doc
  pub array_count : Doc → Option Ref → ℕ
  pub array_number : Doc → Option Ref → ℕ → Double
  pub replace_number : Doc → Option Ref → ℕ → Double → Option Doc
  pub append_number : Doc → Option Ref → Double → Option Doc
  pub clear : Doc → Option Ref → Doc

-- A number that is set, replaced or appended is the one that is read afterwards, and a change of one
-- place leaves the others. A double holds whole numbers up to 2^53.
pub record IsLawful (J : Json) : Type 0 where
  pub to_int-of_int : (n : ℕ) → n < 2 ^ 53 → J.to_int (J.of_int n) ≡ n
  pub get-set_number :
      (d d' : J.Doc) (o : Option J.Ref) (k : String) (x : J.Double)
      → J.set_number d o k x ≡ some d'
      → J.get_number d' o k ≡ x
  pub array-set_number :
      (d d' : J.Doc) (o p : Option J.Ref) (k j : String) (a : J.Ref) (x : J.Double)
      → J.set_number d o k x ≡ some d'
      → k ≢ j
      → J.get_array d p j ≡ some a
      → J.get_array d' p j ≡ some a
  pub number-set_number :
      (d d' : J.Doc) (o p : Option J.Ref) (k j : String) (a : J.Ref) (i : ℕ) (x : J.Double)
      → J.set_number d o k x ≡ some d'
      → k ≢ j
      → J.get_array d p j ≡ some a
      → J.array_number d' (some a) i ≡ J.array_number d (some a) i
  pub array-replace_number :
      (d d' : J.Doc) (a : J.Ref) (i : ℕ) (x : J.Double) (p : Option J.Ref) (j : String)
      → J.replace_number d (some a) i x ≡ some d'
      → J.get_array d' p j ≡ J.get_array d p j
  pub number-replace_number :
      (d d' : J.Doc) (a : J.Ref) (i : ℕ) (x : J.Double) (j : ℕ)
      → J.replace_number d (some a) i x ≡ some d'
      → J.array_number d' (some a) j ≡ (if j == i then x else J.array_number d (some a) j)
  pub count-clear : (d : J.Doc) (a : J.Ref) → J.array_count (J.clear d (some a)) (some a) ≡ 0
  pub array-clear :
      (d : J.Doc) (a : J.Ref) (p : Option J.Ref) (j : String)
      → J.get_array (J.clear d (some a)) p j ≡ J.get_array d p j
  pub array-append_number :
      (d d' : J.Doc) (a : J.Ref) (x : J.Double) (p : Option J.Ref) (j : String)
      → J.append_number d (some a) x ≡ some d'
      → J.get_array d' p j ≡ J.get_array d p j
  pub count-append_number :
      (d d' : J.Doc) (a : J.Ref) (x : J.Double)
      → J.append_number d (some a) x ≡ some d'
      → J.array_count d' (some a) ≡ suc (J.array_count d (some a))
  pub number-append_number :
      (d d' : J.Doc) (a : J.Ref) (x : J.Double) (i : ℕ)
      → J.append_number d (some a) x ≡ some d'
      → J.array_number d' (some a) i
        ≡ (if i == J.array_count d (some a) then x else J.array_number d (some a) i)
