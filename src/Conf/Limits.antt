-- ===== src/Conf/Limits.antt =====
-- The limit of the power spectral density: conf_file_modify_psd_limit and conf_file_parse_psd_limit.
use tulum_utils.Base.{
  ℕ, ◌+◌, ◌-◌, ◌*◌, ◌/◌, ◌%◌, ◌^◌, ◌≤◌, ◌≡◌, ◌≢◌, sym, refl, ap, ◌∙◌, inl, inr, ◌⊎◌, arith, none,
  some, [], ◌∷◌, ◌++◌, Bytes, codes, Option-cases,
}
use tulum_utils.Base.Int.{ℤ, pos, negsuc}
use tulum_utils.Libc.Decimal.{print_int, atoi, atoi-print_int}
use tulum_utils.Conf.Json.{Json, IsLawful}
use tulum_utils.Conf.Fields.{Context, done, refused, psd_index, modify_psd_limit, json_result}
use tulum_utils.Conf.Print.{psd_text, as_int, parse_psd_limit, parse_psd_limit_text}

-- The limit number `k`, which is -(50 + 3k).
abbrev pub limit : ℕ → ℤ
limit k = negsuc (49 + 3 * k)

psd_index-limit : (k : ℕ) → k ≤ 15 → psd_index (limit k) ≡ some (15 - k)
unfolding psd_index
psd_index-limit k h = ground arith

psd_index_cases : (n : ℤ) → (psd_index n ≡ none) ⊎ ((k : ℕ) × (k ≤ 15) × (n ≡ limit k))
unfolding psd_index
psd_index_cases (pos n) = inl refl
psd_index_cases (negsuc n) = elim (Option-cases (psd_index (negsuc n))) [
  | inl none_of ↦ inl none_of
  | inr (i, e) ↦ inr ((n - 49) / 3, ground arith, ap negsuc (ground arith))
]

as_int-limit :
    (k : ℕ) → k ≤ 15 → as_int ((2 ^ 32 - 50 + (2 ^ 32 - (15 - (15 - k)) * 3)) % 2 ^ 32) ≡ limit k
as_int-limit k h = ground arith

psd_text-limit : (k : ℕ) → k ≤ 15 → psd_text (15 - k) ≡ print_int (limit k) ++ codes " dBm/Hz"
unfolding psd_text
psd_text-limit k h = rw (as_int-limit k h) (ground arith)

abbrev pub psd_line : ℤ → Bytes
psd_line n =
    codes "PSD Limit                                            : "
    ++ (print_int n ++ codes " dBm/Hz")
    ++ (10 ∷ [])

module _ (J : Json) where
  open J use {Doc, Ref, of_int, to_int, set_number}

  -- A text whose number is no limit is refused, or its number is one of the sixteen limits and its index is set.
  pub modify_psd_limit_cases :
      (ctx : Context Ref) (value : Bytes) (d : Doc)
      → ((modify_psd_limit J ctx value d ≡ refused) × ((k : ℕ) → k ≤ 15 → atoi value ≢ limit k))
        ⊎ ((k : ℕ) × (k ≤ 15)
            × (atoi value ≡ limit k)
            × (modify_psd_limit J ctx value d
                ≡ json_result
                    (set_number d ctx.inka_phy_obj "direct_afe_tx_idx" (of_int (15 - k)))))
  unfolding modify_psd_limit
  modify_psd_limit_cases ctx value d = elim (psd_index_cases (atoi value)) [
    | inl none_of ↦ inl (
      rw (modify_psd_limit, none_of) refl,
      λ k h e. cc (sym none_of ∙ ap psd_index e ∙ psd_index-limit k h),
    )
    | inr (k, h, e) ↦ inr (k, h, e, rw (modify_psd_limit, e, psd_index-limit k h) refl)
  ]

  -- Each of the sixteen limits, given in decimal, is the limit that is printed.
  pub parse-modify_psd_limit :
      (L : IsLawful J) (ctx : Context Ref) (k : ℕ) (d d' : Doc)
      → k ≤ 15
      → set_number d ctx.inka_phy_obj "direct_afe_tx_idx" (of_int (15 - k)) ≡ some d'
      → (modify_psd_limit J ctx (print_int (limit k)) d ≡ done d')
        × (parse_psd_limit J ctx.inka_phy_obj d' ≡ psd_line (limit k))
  unfolding modify_psd_limit
  parse-modify_psd_limit L ctx k d d' h set = (
    rw (modify_psd_limit, atoi-print_int (limit k), psd_index-limit k h, set) refl,
    parse_psd_limit_text J ctx.inka_phy_obj d' (15 - k) (
          ap to_int (L.get-set_number d d' ctx.inka_phy_obj "direct_afe_tx_idx" _ set)
          ∙ L.to_int-of_int (15 - k) (omega arith))
        ∙ ap
            (λ text.
              codes "PSD Limit                                            : " ++ text ++ (10 ∷ []))
            (psd_text-limit k h),
  )
