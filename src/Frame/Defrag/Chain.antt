-- ===== src/Frame/Defrag/Chain.antt =====
-- The second loop of hpav_defrag_frames, which chains the packets of the groups.
use tulum_utils.Base.{
  false, ◌≡◌, refl, sym, ap, ◌∙◌, ◌∷◌, ◌++◌, [], List, Option, some, none, map, append_assoc,
  append-nil,
}
use tulum_utils.Frame.Layout.{MmePacket}
use tulum_utils.Frame.Defrag.{
  GroupList, PacketChain, empty_chain, link_packet, defrag_grouped_frames, defrag_groups,
}

-- What the groups give, one after the other: a packet, or null.
abbrev pub Results : GroupList → List (Option MmePacket) → Type 0
Results [] [] = Unit
Results ((f ∷ fs) ∷ gs) (r ∷ rs) = (defrag_grouped_frames (f ∷ fs) ≡ some r) × Results gs rs
Results _ _ = ⊥

after : MmePacket → List MmePacket → PacketChain
after p ps = record { packets = p ∷ ps; last_is_null = false }

defrag_groups-packets :
    (gs : GroupList) (p : MmePacket) (before ps : List MmePacket)
    → Results gs (map some ps)
    → defrag_groups gs (after p before) ≡ some (p ∷ (before ++ ps))
unfolding defrag_groups link_packet after
defrag_groups-packets [] p before [] r = ap (λ z. some (p ∷ z)) (sym (append-nil before))
defrag_groups-packets [] p before (q ∷ ps) r = absurd r
defrag_groups-packets ([] ∷ gs) p before [] r = absurd r
defrag_groups-packets ([] ∷ gs) p before (q ∷ ps) r = absurd r
defrag_groups-packets ((f ∷ fs) ∷ gs) p before [] r = absurd r
defrag_groups-packets ((f ∷ fs) ∷ gs) p before (q ∷ ps) r = rw r.0 (
    defrag_groups-packets gs p (before ++ q ∷ []) ps r.1
    ∙ ap (λ z. some (p ∷ z)) (append_assoc before (q ∷ []) ps))

-- If every group gives its packet, the chain holds them all, in the order of the groups.
pub defrag_groups_lem :
    (gs : GroupList) (ps : List MmePacket)
    → Results gs (map some ps)
    → defrag_groups gs empty_chain ≡ some ps
unfolding defrag_groups link_packet
defrag_groups_lem [] [] r = refl
defrag_groups_lem [] (p ∷ ps) r = absurd r
defrag_groups_lem ([] ∷ gs) [] r = absurd r
defrag_groups_lem ([] ∷ gs) (p ∷ ps) r = absurd r
defrag_groups_lem ((f ∷ fs) ∷ gs) [] r = absurd r
defrag_groups_lem ((f ∷ fs) ∷ gs) (p ∷ ps) r =
    rw r.0 (unfold after in defrag_groups-packets gs p [] ps r.1)

defrag_groups-null_fault :
    (gs : GroupList) (p : MmePacket) (before ps : List MmePacket) (r : Option MmePacket)
    (rs : List (Option MmePacket))
    → Results gs (map some ps ++ none ∷ r ∷ rs)
    → defrag_groups gs (after p before) ≡ none
unfolding defrag_groups link_packet after
defrag_groups-null_fault [] p before [] r rs h = absurd h
defrag_groups-null_fault [] p before (q ∷ ps) r rs h = absurd h
defrag_groups-null_fault ([] ∷ gs) p before [] r rs h = absurd h
defrag_groups-null_fault ([] ∷ gs) p before (q ∷ ps) r rs h = absurd h
defrag_groups-null_fault ((f ∷ fs) ∷ []) p before [] r rs h = absurd h.1
defrag_groups-null_fault ((f ∷ fs) ∷ ([] ∷ gs)) p before [] r rs h = absurd h.1
defrag_groups-null_fault ((f ∷ fs) ∷ ((f' ∷ fs') ∷ gs)) p before [] r rs h = rw (h.0, h.1.0) refl
defrag_groups-null_fault ((f ∷ fs) ∷ gs) p before (q ∷ ps) r rs h =
    rw h.0 (defrag_groups-null_fault gs p (before ++ q ∷ []) ps r rs h.1)

-- A null that follows a packet is remembered as the end of the chain: the next group, whatever it
-- gives, is linked behind a null pointer, and the loop faults.
pub defrag_groups_fault :
    (gs : GroupList) (p : MmePacket) (ps : List MmePacket) (r : Option MmePacket)
    (rs : List (Option MmePacket))
    → Results gs (some p ∷ (map some ps ++ none ∷ r ∷ rs))
    → defrag_groups gs empty_chain ≡ none
unfolding defrag_groups link_packet
defrag_groups_fault [] p ps r rs h = absurd h
defrag_groups_fault ([] ∷ gs) p ps r rs h = absurd h
defrag_groups_fault ((f ∷ fs) ∷ gs) p ps r rs h =
    rw h.0 (unfold after in defrag_groups-null_fault gs p [] ps r rs h.1)
