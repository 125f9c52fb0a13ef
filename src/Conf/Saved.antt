-- ===== src/Conf/Saved.antt =====
-- The document that conf_file_modify_psd_cali makes.
use tulum_utils.Base.{
  ℕ, zero, suc, ◌+◌, ◌*◌, ◌^◌, ◌<◌, ◌≡◌, refl, sym, subst, ap, ◌∙◌, arith, ◌==◌, if◌then◌else◌,
  Option, some, >>=-eq-some, List, [], ◌∷◌, Bytes, String, length, All,
}
use mathlib.Core.Option.{some_inj}
use tulum_utils.Conf.Json.{Json, IsLawful}
use tulum_utils.Conf.Fields.{Context, done}
use tulum_utils.Conf.Print.{words_from}
use tulum_utils.Conf.Carriers.{unpack, pack}
use tulum_utils.Conf.Pack.{IsBackoff, unpack-pack, All-unpack, length-unpack, length-pack, All-pack}
use tulum_utils.Conf.Kept.{calibrate_file-AllKept, AllKept-IsBackoff}
use tulum_utils.Conf.Calibration.{calibrate_file, append_words, save_map, modify_psd_cali}

abbrev IsExact : ℕ → Type 0
IsExact n = n < 2 ^ 53

module _ (J : Json) (L : IsLawful J) where
  open J use {Doc, Ref, of_int, to_int, get_array, array_number, array_count, append_number, clear}

  -- What is so after words have been appended to an array.
  record IsAppended (a : Ref) (ws : List ℕ) (d d' : Doc) : Type 0 where
    count : array_count d' (some a) ≡ array_count d (some a) + length ws
    array : (p : Option Ref) (key : String) → get_array d' p key ≡ get_array d p key
    before :
        (i : ℕ)
        → i < array_count d (some a)
        → array_number d' (some a) i ≡ array_number d (some a) i
    words : words_from J d' (some a) (array_count d (some a)) (length ws) ≡ ws

  append_words-IsAppended :
      (file : Bytes → Option Bytes) (bits garbage : ℕ) (a : Ref) (ws : List ℕ) (d d' : Doc)
      → All IsExact ws
      → append_words J file bits garbage (some a) ws d ≡ some d'
      → IsAppended a ws d d'
  unfolding append_words
  append_words-IsAppended file bits garbage a [] d d' exact h =
      let e = some_inj.0 h in
      record {
        count = omega (arith, ap (λ x. array_count x (some a)) e);
        array = λ p key. ap (λ x. get_array x p key) (sym e);
        before = λ i lt. ap (λ x. array_number x (some a) i) (sym e);
        words = refl;
      }
  append_words-IsAppended file bits garbage a (w ∷ ws) d d' exact h =
      let (d1, first, rest) = >>=-eq-some (append_number d (some a) (of_int w)) _ h in
      let r = append_words-IsAppended file bits garbage a ws d1 d' exact.1 rest in
      let c = L.count-append_number d d1 a (of_int w) first in
      let number : (i : ℕ)
          → array_number d1 (some a) i
            ≡ (if i == array_count d (some a) then of_int w else array_number d (some a) i) =
        λ i. L.number-append_number d d1 a (of_int w) i first in
      let size = array_count d (some a) in
      let head : to_int (array_number d' (some a) size) ≡ w =
        ap to_int (r.before size (omega (arith, c)) ∙ number size ∙ ground arith)
        ∙ L.to_int-of_int w exact.0 in
      let tail : words_from J d' (some a) (suc size) (length ws) ≡ ws =
        ap (λ k. words_from J d' (some a) k (length ws)) (sym c) ∙ r.words in
      record {
        count = omega (arith, r.count, c);
        array = λ p key. r.array p key ∙ L.array-append_number d d1 a (of_int w) p key first;
        before = λ i lt. r.before i (omega (arith, c)) ∙ number i ∙ ground arith;
        words = λ i. head i ∷ tail i;
      }

  -- The map that a document holds.
  abbrev pub map_of : Context Ref → Doc → List ℕ
  map_of ctx d =
      let array = get_array d ctx.inka_phy_obj "am_infile" in
      unpack (words_from J d array 0 (array_count d array))

  length-words_from :
      (d : Doc) (array : Option Ref) (i n : ℕ) → length (words_from J d array i n) ≡ n
  length-words_from d array i zero = refl
  length-words_from d array i (suc n) = ap suc (length-words_from d array (suc i) n)

  -- A calibrated map has eight backoffs for each word there was.
  calibrated_map :
      (ctx : Context Ref) (text : Bytes) (bs : List ℕ) (d : Doc)
      → calibrate_file text (map_of ctx d) ≡ some bs
      → All IsBackoff bs
        × (length bs ≡ 8 * array_count d (get_array d ctx.inka_phy_obj "am_infile"))
  calibrated_map ctx text bs d run =
      let array = get_array d ctx.inka_phy_obj "am_infile" in
      let ws = words_from J d array 0 (array_count d array) in
      let (all, same) =
        AllKept-IsBackoff (unpack ws) bs (calibrate_file-AllKept text (unpack ws) bs run)
          (All-unpack ws) in
      (
        all,
        omega (arith, same, length-unpack ws, length-words_from d array 0 (array_count d array)),
      )

  -- Where an unsigned long has 32 bits and tmp_amp_map is 0 before the first word: if the file can be
  -- opened and its lines take the map of the document to another, and the words of that can be stored,
  -- then the command succeeds, and the document holds that other map.
  pub map_of-modify_psd_cali :
      (file : Bytes → Option Bytes) (ctx : Context Ref) (filename text : Bytes) (a : Ref)
      (bs : List ℕ) (d d' : Doc)
      → file filename ≡ some text
      → get_array d ctx.inka_phy_obj "am_infile" ≡ some a
      → calibrate_file text (map_of ctx d) ≡ some bs
      → append_words J file 32 0 (some a) (pack 32 0 (array_count d (some a)) bs) (clear d (some a))
        ≡ some d'
      → (modify_psd_cali J file 32 0 ctx filename d ≡ some (done d')) × (map_of ctx d' ≡ bs)
  unfolding modify_psd_cali
  map_of-modify_psd_cali file ctx filename text a bs d d' opened array run stored =
      let n = array_count d (some a) in
      let (all, same) = calibrated_map ctx text bs d run in
      let same' : length bs ≡ 8 * n = same ∙ ap (λ p. 8 * array_count d p) array in
      let saved : save_map J file 32 0 (some a) n d bs ≡ done d' = rw (save_map, stored) refl in
      let run' =
        subst (λ p. calibrate_file text (unpack (words_from J d p 0 (array_count d p))) ≡ some bs)
          array run in
      let r =
        append_words-IsAppended file 32 0 a (pack 32 0 n bs) (clear d (some a)) d'
          (All-pack n bs all same') stored in
      let array' =
        r.array ctx.inka_phy_obj "am_infile"
        ∙ L.array-clear d a ctx.inka_phy_obj "am_infile"
        ∙ array in
      let count' : array_count d' (some a) ≡ n =
        omega (arith, r.count, L.count-clear d a, length-pack n bs) in
      let words' : words_from J d' (some a) 0 n ≡ pack 32 0 n bs =
        (λ i. words_from J d' (some a) (sym (L.count-clear d a) i) (sym (length-pack n bs) i))
        ∙ r.words in
      (
        rw (modify_psd_cali, opened, array, run') (ap some saved),
        ap (λ p. unpack (words_from J d' p 0 (array_count d' p))) array'
            ∙ ap (λ k. unpack (words_from J d' (some a) 0 k)) count'
            ∙ ap unpack words'
            ∙ unpack-pack n bs all same',
      )
