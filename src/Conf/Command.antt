-- ===== src/Conf/Command.antt =====
-- The command conf_file_modify for "psd_limit", from its words to the file.
use tulum_utils.Base.{ℕ, ◌-◌, ◌≤◌, ◌≡◌, ◌≢◌, ◌⊎◌, Option, none, some, Bytes}
use tulum_utils.Base.Int.{pos, negsuc}
use tulum_utils.Libc.Decimal.{atoi}
use tulum_utils.Conf.Json.{Json}
use tulum_utils.Conf.Fields.{Context}
use tulum_utils.Conf.Print.{parse_psd_limit}
use tulum_utils.Conf.Limits.{limit, psd_line}
use tulum_utils.Conf.Modify.{Modified}

module _ (J : Json) (open_file : Bytes → Option Bytes) (long_bits garbage : ℕ)
    (write : J.Text → Option J.Text → Option J.Text) where
  open J use {Text, Doc, Ref, parse, serialize, set_number, of_int}

  abbrev Result : Type 0
  Result = Modified J open_file long_bits garbage write

  -- The limit number `k`, in the document `d`.
  abbrev pub set_limit : Context Ref → ℕ → Doc → Option Doc
  set_limit ctx k d = set_number d ctx.inka_phy_obj "direct_afe_tx_idx" (of_int (15 - k))

  -- What is left after `value` has been given as the limit: nothing is changed, by a value that is none of
  -- the limits or by a change that libjson refuses, or a document with that limit is handed to `write`.
  abbrev pub IsLimited : Bytes → Option Text → Doc → Context Ref → Result → Type 0
  IsLimited value file d ctx r =
      (((k : ℕ) → k ≤ 15 → atoi value ≢ limit k) × (r.code ≡ pos 2) × (r.file ≡ file))
      ⊎ ((k : ℕ) × (k ≤ 15)
          × (atoi value ≡ limit k)
          × (((set_limit ctx k d ≡ none) × (r.code ≡ negsuc 1) × (r.file ≡ file))
              ⊎ ((d' : Doc) × (set_limit ctx k d ≡ some d')
                  × (r.code ≡ pos 0)
                  × (r.file ≡ write (serialize d') file)
                  × (parse_psd_limit J ctx.inka_phy_obj d' ≡ psd_line (limit k)))))
