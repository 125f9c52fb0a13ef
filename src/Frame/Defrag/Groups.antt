-- ===== src/Frame/Defrag/Groups.antt =====
-- What the grouping of frames amounts to: hpav_defrag_add_to_group_list and the first loop of
-- hpav_defrag_frames.
use tulum_utils.Base.{
  ℕ, suc, ◌+◌, Bool, true, false, ◌≡◌, ◌≢◌, refl, sym, ap, ◌∙◌, arith, Bool-cases, inl, inr,
  if◌then◌else◌, ◌∷◌, ◌++◌, [], List, Option, none, some, select, append_assoc, append-nil, ◌||◌,
}
use tulum_utils.Frame.Layout.{EthFrame}
use tulum_utils.Frame.Defrag.{
  Group, GroupList, same_key, in_group, find_group, append_at, add_group, add_to_group_list,
  group_frames,
}
use tulum_utils.Frame.Defrag.Key.{same_key_cong, same_key_sym}

-- The group that a frame belongs to; `[]` if there is none.
abbrev pub group_of : EthFrame → GroupList → Group
group_of x [] = []
group_of x (g ∷ gs) = if in_group g x then g else group_of x gs

abbrev pub has_group : EthFrame → GroupList → Bool
has_group x [] = false
has_group x (g ∷ gs) = in_group g x || has_group x gs

-- No group is empty, and no two groups hold frames of one key.
abbrev pub IsSplit : GroupList → Type 0
IsSplit [] = Unit
IsSplit ([] ∷ gs) = ⊥
IsSplit ((first ∷ _) ∷ gs) = (has_group first gs ≡ false) × IsSplit gs

-- The effect of adding a frame, with no search.
put : EthFrame → GroupList → GroupList
put f [] = (f ∷ []) ∷ []
put f (g ∷ gs) = if in_group g f then (g ++ f ∷ []) ∷ gs else g ∷ put f gs

find_group-no_group :
    (f : EthFrame) (gs : GroupList) (i : ℕ) (found : Option ℕ)
    → has_group f gs ≡ false
    → find_group f gs i found ≡ found
unfolding find_group
find_group-no_group f [] i found h = refl
find_group-no_group f (g ∷ gs) i found h = ground (arith, find_group-no_group f gs (suc i) found)

has_group_cong :
    (g f : EthFrame) (gs : GroupList) → same_key g f ≡ true → has_group g gs ≡ has_group f gs
unfolding in_group
has_group_cong g f [] h = refl
has_group_cong g f ([] ∷ gs) h = has_group_cong g f gs h
has_group_cong g f ((x ∷ _) ∷ gs) h =
    ground
      (arith, has_group_cong g f gs h, same_key_cong g f x h, same_key_sym x g, same_key_sym x f)

-- The search finds the place where `put` adds the frame.
find_group-put :
    (f : EthFrame) (gs : GroupList) (i : ℕ) (found : Option ℕ)
    → IsSplit gs
    → has_group f gs ≡ true
    → (k : ℕ) × (find_group f gs i found ≡ some (i + k)) × (append_at k f gs ≡ put f gs)
unfolding find_group append_at put in_group
find_group-put f [] i found s h = absurd (cc)
find_group-put f ([] ∷ gs) i found s h = absurd s
find_group-put f ((x ∷ t) ∷ gs) i found s h = elim (Bool-cases (same_key x f)) [
  | inl here ↦ (
    0,
    ground (arith, find_group-no_group f gs (suc i) (some i), has_group_cong x f gs here),
    ground arith,
  )
  | inr later ↦
      let (k, found_at, same) = find_group-put f gs (suc i) found s.1 (ground arith) in
      (suc k, ground arith, ground arith)
]

add_group-put :
    (f : EthFrame) (g : Group) (gs : GroupList)
    → IsSplit (g ∷ gs)
    → has_group f (g ∷ gs) ≡ false
    → add_group f (g ∷ gs) ≡ some (put f (g ∷ gs))
unfolding add_group put in_group
add_group-put f [] gs s h = absurd s
add_group-put f (x ∷ t) [] s h = ground arith
add_group-put f (x ∷ t) (g' ∷ gs) s h = ground (arith, add_group-put f g' gs s.1)

add_to_group_list-put :
    (f : EthFrame) (g : Group) (gs : GroupList)
    → IsSplit (g ∷ gs)
    → add_to_group_list (g ∷ gs) f ≡ some (put f (g ∷ gs))
unfolding add_to_group_list
add_to_group_list-put f g gs s = elim (Bool-cases (has_group f (g ∷ gs))) [
  | inl old ↦
      let (k, found_at, same) = find_group-put f (g ∷ gs) 0 none s old in
      let start : 0 + k ≡ k = omega arith in rw (add_to_group_list, found_at, start) (ap some same)
  | inr new ↦
      rw (add_to_group_list, find_group-no_group f (g ∷ gs) 0 none new) (add_group-put f g gs s new)
]

has_group-put :
    (x f : EthFrame) (gs : GroupList)
    → IsSplit gs
    → has_group x (put f gs) ≡ (same_key x f || has_group x gs)
unfolding put in_group
has_group-put x f [] s = ground (arith, same_key_sym x f)
has_group-put x f ([] ∷ gs) s = absurd s
has_group-put x f ((y ∷ t) ∷ gs) s =
    ground (arith, has_group-put x f gs s.1, same_key_cong y f x, same_key_sym x f)

put-IsSplit : (f : EthFrame) (gs : GroupList) → IsSplit gs → IsSplit (put f gs)
unfolding put in_group
put-IsSplit f [] s = (refl, tt)
put-IsSplit f ([] ∷ gs) s = absurd s
put-IsSplit f ((y ∷ t) ∷ gs) s = ground (arith, put-IsSplit f gs s.1, has_group-put y f gs s.1)

group_of-no_group : (x : EthFrame) (gs : GroupList) → has_group x gs ≡ false → group_of x gs ≡ []
group_of-no_group x [] h = refl
group_of-no_group x (g ∷ gs) h = ground (arith, group_of-no_group x gs)

group_of-put :
    (x f : EthFrame) (gs : GroupList)
    → IsSplit gs
    → group_of x (put f gs) ≡ group_of x gs ++ (if same_key x f then f ∷ [] else [])
unfolding put in_group
group_of-put x f [] s = ground (arith, same_key_sym x f)
group_of-put x f ([] ∷ gs) s = absurd s
group_of-put x f ((y ∷ t) ∷ gs) s = ground (
  arith,
  group_of-put x f gs s.1,
  same_key_cong y f x,
  same_key_cong y x f,
  same_key_sym x f,
  append-nil (y ∷ t),
  append-nil (group_of x gs),
)

put-ne-nil : (f : EthFrame) (gs : GroupList) → put f gs ≢ []
unfolding put
put-ne-nil f [] e = cc
put-ne-nil f (g ∷ gs) e = ground arith

put_all : GroupList → List EthFrame → GroupList
put_all gs [] = gs
put_all gs (f ∷ fs) = put_all (put f gs) fs

group_frames-put_all :
    (fs : List EthFrame) (gs : GroupList)
    → IsSplit gs
    → gs ≢ []
    → group_frames gs fs ≡ some (put_all gs fs)
unfolding group_frames put_all
group_frames-put_all [] gs s ne = refl
group_frames-put_all (f ∷ fs) [] s ne = absurd (ne refl)
group_frames-put_all (f ∷ fs) (g ∷ gs) s ne =
    rw (add_to_group_list-put f g gs s)
      (group_frames-put_all fs (put f (g ∷ gs)) (put-IsSplit f (g ∷ gs) s) (put-ne-nil f (g ∷ gs)))

put_all-IsSplit : (fs : List EthFrame) (gs : GroupList) → IsSplit gs → IsSplit (put_all gs fs)
unfolding put_all
put_all-IsSplit [] gs s = s
put_all-IsSplit (f ∷ fs) gs s = put_all-IsSplit fs (put f gs) (put-IsSplit f gs s)

group_of-put_all :
    (x : EthFrame) (fs : List EthFrame) (gs : GroupList)
    → IsSplit gs
    → group_of x (put_all gs fs) ≡ group_of x gs ++ select (same_key x) fs
unfolding put_all
group_of-put_all x [] gs s = sym (append-nil (group_of x gs))
group_of-put_all x (f ∷ fs) gs s =
    group_of-put_all x fs (put f gs) (put-IsSplit f gs s)
    ∙ rw (group_of-put x f gs s) (
        append_assoc (group_of x gs) (if same_key x f then f ∷ [] else []) (select (same_key x) fs)
        ∙ ap (λ z. group_of x gs ++ z) (ground arith))

-- The grouping of one frame or more does not fault. No group is empty and no two groups are for
-- one key; and for every frame `x` the group that `x` belongs to is made of the frames received
-- that have the key of `x`, all of them, in the order in which they came.
pub group_frames_lem :
    (f : EthFrame) (fs : List EthFrame)
    → (gs : GroupList) × (group_frames ([] ∷ []) (f ∷ fs) ≡ some gs)
      × IsSplit gs
      × ((x : EthFrame) → group_of x gs ≡ select (same_key x) (f ∷ fs))
group_frames_lem f fs =
    let one : GroupList = (f ∷ []) ∷ [] in
    (
      put_all one fs,
      unfold group_frames add_to_group_list find_group in_group add_group in
          group_frames-put_all fs ((f ∷ []) ∷ []) (refl, tt) (λ e. cc),
      put_all-IsSplit fs one (refl, tt),
      λ x.
          group_of-put_all x fs one (refl, tt)
          ∙ unfold in_group in ground (arith, same_key_sym x f),
    )
