-- ===== src/Tests/Utils.antt =====
-- Tone maps in their run-length code, and the origin of messages.
use tulum_utils.Base.{◌≡◌, refl, arith, inl, inr, List, ◌∷◌, [], some, replicate}
use tulum_utils.Mme.Encode.{encode_mme, encode_mtk_mme, encode_jiangsu_mme, mstar_oui}
use tulum_utils.Utils.Origin.{
  guess_mme_category, standard_mme, mtk_mme, unknown_vendor_mme, guess_mme_category-encode_mme,
}
use tulum_utils.Utils.Rle.{RleState, rle_start, rle_steps, decode_tonemap}
use tulum_utils.Utils.Rle.Step.{Run, fields, carriers, with_pending}
use tulum_utils.Utils.Rle.Runs.{rle_steps-fields, decode_tonemap_last}
use tulum_utils.Tests.Frames.{host, station}

-- Runs of 20, 1 and 5 carriers.
abbrev runs : List Run
runs = (3, 20) ∷ (4, 1) ∷ (2, 5) ∷ []

rle_steps_example :
    (s : RleState) × (rle_steps rle_start (fields runs) ≡ some s) × (with_pending s ≡ carriers runs)
unfolding replicate
rle_steps_example =
    rle_steps-fields runs
      (
        (omega arith, inr (omega arith, omega arith)),
        ((omega arith, inl refl), ((omega arith, inr (omega arith, omega arith)), tt)),
      )
      (omega arith)

-- The bytes of runs of 20, 1 and 4 carriers; of the last run nothing comes out.
decode_tonemap_example :
    decode_tonemap (0xC3 ∷ 0x0A ∷ 0xA4 ∷ []) 24 ≡ some (carriers ((3, 20) ∷ (0, 1) ∷ []))
decode_tonemap_example =
    decode_tonemap_last (0xC3 ∷ 0x0A ∷ 0xA4 ∷ []) ((3, 20) ∷ (0, 1) ∷ []) 4 4 refl
      ((omega arith, inr (omega arith, omega arith)), ((omega arith, inl refl), tt))
      (omega arith, inr (omega arith, omega arith)) (omega arith) (unfold replicate in omega arith)

guess_mme_category_example :
    (guess_mme_category (encode_mme 0x6008 (1 ∷ []) host station).data_bytes
      ≡ some (record {
        origin = standard_mme;
        mme_category = 3;
        oui = 0 ∷ 0 ∷ 0 ∷ [];
        mme_header_size = 5;
      }))
    × (guess_mme_category (encode_mtk_mme 0xA008 (1 ∷ []) host station).data_bytes
        ≡ some
            (record { origin = mtk_mme; mme_category = 5; oui = mstar_oui; mme_header_size = 8 }))
    × (guess_mme_category (encode_jiangsu_mme 0xA008 (1 ∷ []) host station).data_bytes
        ≡ some (record {
          origin = unknown_vendor_mme;
          mme_category = 5;
          oui = 0 ∷ 0 ∷ 0 ∷ [];
          mme_header_size = 0;
        }))
guess_mme_category_example =
    guess_mme_category-encode_mme 0x6008 0xA008 (1 ∷ []) host station (omega arith) (omega arith)
      (omega arith)
