-- ===== src/Commands/Closed.antt =====
-- The channels that main leaves open, over its commands.
use tulum_utils.Base.{
  ℕ, zero, suc, ◌≡◌, refl, sym, subst, ap, ◌∙◌, ◌>>=◌, Option, none, some, Option-cases, inl, inr,
  >>=-eq-some, List, [], ◌∷◌, Bytes, bytes_eq, codes, All, either,
}
use mathlib.Core.Option.{some_inj}
use tulum_utils.Base.Int.{ℤ, pos, negsuc}
use tulum_utils.Interfaces.{If}
use tulum_utils.Commands.{Fct, Library, execute_on_channel, usage}
use tulum_utils.Commands.Choice.{
  Functions, main, main_fct_name_table, find_fct, is_in, test_mme, test_secu, choose, conf_file,
  test_nvram, test_reboot, test_find_local_sta, find_stations, test_fw_upgrade,
  test_mme_fct_name_table, clamp, bootloader_words, simage_words,
}
use tulum_utils.Commands.Balance.{
  IsCounted, Keeps, kept_at, same, for_interfaces_lem, Keeps-execute_on_channel,
  Keeps-list_interfaces, Keeps-open_interface,
}

find_fct-All {ℓ} :
    {A : Type ℓ} (P : A → Type ℓ) (name : Bytes) (table : List (Bytes × A))
    → All (λ e. P e.1) table
    → (f : A) → find_fct name table ≡ some f
    → P f
find_fct-All P name [] all f h = cc
find_fct-All P name ((n, g) ∷ table) all f h = elim (Option-cases (find_fct name table)) [
  | inl e ↦
      either (bytes_eq name n) (some g) none (P f) (λ k. subst P (some_inj.0 k) all.0) (λ k. cc)
        (sym (rw (find_fct, e) refl) ∙ h)
  | inr (g', e) ↦ find_fct-All P name table all.1 f (e ∙ sym (rw (find_fct, e) refl) ∙ h)
]

module _ {W C : Type 0} (L : Library W C) (F : Functions W C) (count : W → ℕ) where
  -- The functions of the other files leave no other channel open, and close none.
  pub record AreKept : Type 0 where
    pub mme : (name : Bytes) (c : C) → Keeps L count (F.mme name c)
    pub secu : (name : Bytes) → Keeps L count (F.secu name)
    pub conf_on_channel : (name : Bytes) (c : C) → Keeps L count (F.conf_on_channel name c)
    pub conf : (name : Bytes) → Keeps L count (F.conf name)
    pub nvram_on_channel : (name : Bytes) (c : C) → Keeps L count (F.nvram_on_channel name c)
    pub nvram : (name : Bytes) → Keeps L count (F.nvram name)

  module _ (counted : IsCounted L count) (kept : AreKept) where
    abbrev Goal : W → ℤ × W → Type 0
    Goal w r = count r.1 ≡ count w

    on_channel :
        (name : Bytes) (f : C → Fct W)
        → ((c : C) → Keeps L count (f c))
        → Keeps L count (execute_on_channel L name (some f))
    on_channel name f k = Keeps-execute_on_channel L count counted name f k

    Keeps-test_mme : Keeps L count (test_mme L F)
    unfolding Keeps test_mme
    Keeps-test_mme [] w r h = same L count counted w _ r h
    Keeps-test_mme (name ∷ []) w r h = same L count counted w _ r h
    Keeps-test_mme (name ∷ [] ∷ args) w r h = same L count counted w _ r h
    Keeps-test_mme (name ∷ (c ∷ interface) ∷ args) w r h =
        either (is_in name test_mme_fct_name_table)
          (execute_on_channel L (c ∷ interface) (some (F.mme name)) args w) (usage [] w) (Goal w r)
          (λ e.
            kept_at L count _ (on_channel (c ∷ interface) (F.mme name) (kept.mme name)) args w r e)
          (λ e. same L count counted w _ r e) h

    Keeps-test_secu : Keeps L count (test_secu L F)
    unfolding Keeps test_secu
    Keeps-test_secu [] w r h = same L count counted w _ r h
    Keeps-test_secu (name ∷ []) w r h =
        either (bytes_eq name (codes "encrypt")) (F.secu name [] w) (usage [] w) (Goal w r)
          (λ e. kept_at L count _ (kept.secu name) [] w r e) (λ e. same L count counted w _ r e) h
    Keeps-test_secu (name ∷ input ∷ args) w r h =
        either (is_in name (codes "gen_nmk" ∷ codes "gen_dak" ∷ codes "gen_nid" ∷ []))
          (F.secu name (input ∷ args) w) (usage [] w) (Goal w r)
          (λ e. kept_at L count _ (kept.secu name) (input ∷ args) w r e)
          (λ e. same L count counted w _ r e) h

    Keeps-choose :
        (f : Bytes → C → Fct W) (g : Bytes → Fct W)
        → ((name : Bytes) (c : C) → Keeps L count (f name c))
        → ((name : Bytes) → Keeps L count (g name))
        → Keeps L count (choose L F f g)
    unfolding Keeps
    Keeps-choose f g on local [] w r h = same L count counted w _ r h
    Keeps-choose f g on local (name ∷ []) w r h =
        either (is_in name (codes "read" ∷ codes "write" ∷ [])) (usage [] w) _ (Goal w r)
          (λ e. same L count counted w _ r e)
          (λ e.
            either (is_in name (codes "parse" ∷ codes "modify" ∷ [])) (g name [] w) (usage [] w)
              (Goal w r) (λ k. kept_at L count _ (local name) [] w r k)
              (λ k. same L count counted w _ r k) e)
          h
    Keeps-choose f g on local (name ∷ interface ∷ rest) w r h =
        either (is_in name (codes "read" ∷ codes "write" ∷ []))
          (execute_on_channel L interface (some (f name)) rest w) _ (Goal w r)
          (λ e. kept_at L count _ (on_channel interface (f name) (on name)) rest w r e)
          (λ e.
            either (is_in name (codes "parse" ∷ codes "modify" ∷ [])) (g name (interface ∷ rest) w)
              (usage [] w) (Goal w r) (λ k. kept_at L count _ (local name) (interface ∷ rest) w r k)
              (λ k. same L count counted w _ r k) e)
          h

    Keeps-conf_file : Keeps L count (conf_file L F)
    unfolding Keeps conf_file
    Keeps-conf_file argv w r h =
        kept_at L count _ (Keeps-choose F.conf_on_channel F.conf kept.conf_on_channel kept.conf)
          argv w r h

    Keeps-test_nvram : Keeps L count (test_nvram L F)
    unfolding Keeps test_nvram
    Keeps-test_nvram argv w r h =
        kept_at L count _ (Keeps-choose F.nvram_on_channel F.nvram kept.nvram_on_channel kept.nvram)
          argv w r h

    Keeps-test_reboot : Keeps L count (test_reboot L F)
    unfolding Keeps test_reboot
    Keeps-test_reboot [] w r h = same L count counted w _ r h
    Keeps-test_reboot (name ∷ []) w r h =
        kept_at L count _ (on_channel name _ (kept.mme _)) [] w r h
    Keeps-test_reboot (name ∷ b ∷ rest) w r h = same L count counted w _ r h

    find_stations_lem :
        (o : Option (List If) × W) (r : ℤ × W)
        → find_stations L F o ≡ some r
        → count r.1 ≡ count o.1
    find_stations_lem (none, w) r h = same L count counted w _ r h
    find_stations_lem (some list, w) r h =
        for_interfaces_lem L count counted _ (kept.mme _) list (pos 0) w r h

    Keeps-test_find_local_sta : Keeps L count (test_find_local_sta L F)
    unfolding Keeps test_find_local_sta
    Keeps-test_find_local_sta [] w r h =
        find_stations_lem (L.get_interfaces w) r h ∙ counted.listing w
    Keeps-test_find_local_sta (name ∷ []) w r h =
        kept_at L count _ (on_channel name _ (kept.mme _)) [] w r h
    Keeps-test_find_local_sta (name ∷ b ∷ rest) w r h = same L count counted w _ r h

    second_lem :
        (second : Fct W)
        → Keeps L count second
        → (words : List Bytes) (s r : ℤ × W)
        → (elim s.0 [ pos zero ↦ second words s.1 | pos (suc n) ↦ some s | negsuc n ↦ some s ])
          ≡ some r
        → count r.1 ≡ count s.1
    second_lem second k words (pos zero, w) r h = kept_at L count second k words w r h
    second_lem second k words (pos (suc n), w) r h = same L count counted w _ r h
    second_lem second k words (negsuc n, w) r h = same L count counted w _ r h

    Keeps-test_fw_upgrade : Keeps L count (test_fw_upgrade L F)
    unfolding Keeps test_fw_upgrade
    Keeps-test_fw_upgrade (name ∷ mac ∷ bootloader ∷ firmware ∷ []) w r h =
        let write = execute_on_channel L name (some (F.mme (codes "mtk_vs_file_access_req"))) in
        let k : Keeps L count write = on_channel name _ (kept.mme _) in
        let (s, run, rest) = >>=-eq-some (write (bootloader_words mac bootloader) w) _ h in
        second_lem write k (simage_words mac firmware) s r rest
        ∙ kept_at L count write k (bootloader_words mac bootloader) w s run
    Keeps-test_fw_upgrade [] w r h = same L count counted w _ r h
    Keeps-test_fw_upgrade (a ∷ []) w r h = same L count counted w _ r h
    Keeps-test_fw_upgrade (a ∷ b ∷ []) w r h = same L count counted w _ r h
    Keeps-test_fw_upgrade (a ∷ b ∷ c ∷ []) w r h = same L count counted w _ r h
    Keeps-test_fw_upgrade (a ∷ b ∷ c ∷ d ∷ e ∷ rest) w r h = same L count counted w _ r h

    table_lem : All (λ e. Keeps L count e.1) (main_fct_name_table L F)
    unfolding main_fct_name_table
    table_lem = (
      Keeps-list_interfaces L count counted,
      (
        Keeps-open_interface L count counted,
        (
          Keeps-test_mme,
          (
            Keeps-test_secu,
            (
              Keeps-conf_file,
              (
                Keeps-test_nvram,
                (Keeps-test_reboot, (Keeps-test_find_local_sta, (Keeps-test_fw_upgrade, tt))),
              ),
            ),
          ),
        ),
      ),
    )

    pub main-Keeps :
        (argv : List Bytes) (w : W) (result : ℕ × W)
        → main L F argv w ≡ some result
        → count result.1 ≡ count w
    unfolding main
    main-Keeps [] w result h = sym (ap (λ x. count x.1) (some_inj.0 h))
    main-Keeps (name ∷ args) w result h =
        elim (Option-cases (find_fct name (main_fct_name_table L F))) [
          | inl unknown ↦
              let h' : some (2, w) ≡ some result = sym (rw (main, unknown) refl) ∙ h in
              sym (ap (λ x. count x.1) (some_inj.0 h'))
          | inr (fct, found) ↦
              let h' : (fct args w >>= λ r. some (clamp r.0, r.1)) ≡ some result =
                sym (rw (main, found) refl) ∙ h in
              let (s, run, rest) = >>=-eq-some (fct args w) _ h' in
              sym (ap (λ x. count x.1) (some_inj.0 rest))
              ∙ kept_at L count fct (find_fct-All (Keeps L count) name _ table_lem fct found) args w
                  s run
        ]
