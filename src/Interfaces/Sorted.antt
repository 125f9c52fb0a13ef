-- ===== src/Interfaces/Sorted.antt =====
-- The order and the contents of the list of interfaces.
use tulum_utils.Base.{
  ℕ, ◌+◌, ◌≡◌, refl, arith, Bytes, Bool, true, false, Bool-cases, inl, inr, List, [], ◌∷◌, All,
  length, select, map,
}
use tulum_utils.Interfaces.{
  If, PcapIf, strcmp_lt, is_before, is_usable, new_interface, insert_after_first, insert_interface,
  copy_interfaces,
}

strcmp_lt_trans :
    (a b c : Bytes) → strcmp_lt a b ≡ true → strcmp_lt b c ≡ true → strcmp_lt a c ≡ true
unfolding strcmp_lt
strcmp_lt_trans (x ∷ a) (y ∷ b) (z ∷ c) h k = ground (arith, strcmp_lt_trans a b c)
strcmp_lt_trans [] (y ∷ b) (z ∷ c) h k = refl
strcmp_lt_trans [] [] c h k = cc
strcmp_lt_trans [] (y ∷ b) [] h k = cc
strcmp_lt_trans (x ∷ a) [] c h k = cc
strcmp_lt_trans (x ∷ a) (y ∷ b) [] h k = cc

strcmp_lt_irrefl : (a : Bytes) → strcmp_lt a a ≡ false
unfolding strcmp_lt
strcmp_lt_irrefl [] = refl
strcmp_lt_irrefl (x ∷ a) = ground (arith, strcmp_lt_irrefl a)

is_before_trans : (i j k : If) → is_before i j ≡ true → is_before j k ≡ true → is_before i k ≡ true
unfolding is_before
is_before_trans i j k h g = ground (arith, strcmp_lt_trans i.name j.name k.name)

is_before_irrefl : (i : If) → is_before i i ≡ false
unfolding is_before
is_before_irrefl i = ground (arith, strcmp_lt_irrefl i.name)

-- No interface is before one that stands ahead of it.
abbrev pub IsSorted : List If → Type 0
IsSorted [] = Unit
IsSorted (i ∷ is) = All (λ j. is_before j i ≡ false) is × IsSorted is

not_before :
    (new i j : If) → is_before new i ≡ true → is_before j i ≡ false → is_before j new ≡ false
not_before new i j h k = elim (Bool-cases (is_before j new)) [
  | inl t ↦ cc (is_before_trans j new i t h)
  | inr f ↦ f
]

All-not_before :
    (new i : If) (is : List If)
    → is_before new i ≡ true
    → All (λ j. is_before j i ≡ false) is
    → All (λ j. is_before j new ≡ false) is
All-not_before new i [] h k = tt
All-not_before new i (j ∷ is) h k = (not_before new i j h k.0, All-not_before new i is h k.1)

-- Ahead of the first element of a sorted list.
IsSorted-cons :
    (new i : If) (is : List If)
    → is_before new i ≡ true
    → IsSorted (i ∷ is)
    → IsSorted (new ∷ i ∷ is)
IsSorted-cons new i is h s =
    ((not_before new i i h (is_before_irrefl i), All-not_before new i is h s.0), s)

All-insert :
    (P : If → Type 0) (new : If) (is : List If)
    → P new
    → All P is
    → All P (insert_after_first new is)
unfolding insert_after_first
All-insert P new [] h k = (h, tt)
All-insert P new (i ∷ is) h k = elim (Bool-cases (is_before new i)) [
  | inl b ↦ rw b (h, k)
  | inr b ↦ rw b (k.0, All-insert P new is h k.1)
]

IsSorted-insert_after_first :
    (new : If) (is : List If) → IsSorted is → IsSorted (insert_after_first new is)
unfolding insert_after_first
IsSorted-insert_after_first new [] s = (tt, tt)
IsSorted-insert_after_first new (i ∷ is) s = elim (Bool-cases (is_before new i)) [
  | inl b ↦ rw b (IsSorted-cons new i is b s)
  | inr b ↦
      rw b (
        All-insert (λ j. is_before j i ≡ false) new is b s.0,
        IsSorted-insert_after_first new is s.1,
      )
]

insert_interface-insert_after_first :
    (new : If) (is : List If) → insert_interface new is ≡ insert_after_first new is
unfolding insert_interface insert_after_first
insert_interface-insert_after_first new [] = refl
insert_interface-insert_after_first new (i ∷ is) = refl

IsSorted-insert : (new : If) (is : List If) → IsSorted is → IsSorted (insert_interface new is)
IsSorted-insert new is s =
    rw (insert_interface-insert_after_first new is) (IsSorted-insert_after_first new is s)

select-insert :
    (q : If → Bool) (new : If) (is : List If)
    → length (select q (insert_after_first new is)) ≡ length (select q (new ∷ is))
unfolding insert_after_first
select-insert q new [] = refl
select-insert q new (i ∷ is) = ground (arith, select-insert q new is)

select-insert_interface :
    (q : If → Bool) (new : If) (is : List If)
    → length (select q (insert_interface new is)) ≡ length (select q (new ∷ is))
select-insert_interface q new is =
    rw (insert_interface-insert_after_first new is) (select-insert q new is)

count_added :
    (q : If → Bool) (new : If) (is others : List If) (n : ℕ)
    → n ≡ length (select q others) + length (select q (insert_interface new is))
    → n ≡ length (select q (new ∷ others)) + length (select q is)
count_added q new is others n h = ground (arith, select-insert_interface q new is)

-- Started with a sorted list, the loop over what libpcap found leaves the list sorted by the
-- length of the names, and by strcmp among those of one length; and of the interfaces that pass
-- any test there are as many in it as were there before and are found usable, so that none is lost
-- and none is added twice.
pub copy_interfaces_lem :
    (loopback : ℕ) (found : List PcapIf) (list : List If)
    → IsSorted list
    → IsSorted (copy_interfaces loopback found list)
      × ((q : If → Bool)
          → length (select q (copy_interfaces loopback found list))
            ≡ length (select q (map new_interface (select (is_usable loopback) found)))
              + length (select q list))
unfolding copy_interfaces
copy_interfaces_lem loopback [] list s = (s, λ q. omega arith)
copy_interfaces_lem loopback (i ∷ found) list s = elim (Bool-cases (is_usable loopback i)) [
  | inl usable ↦ rw usable (
      let rest =
        copy_interfaces_lem loopback found (insert_interface (new_interface i) list)
          (IsSorted-insert (new_interface i) list s) in
      (
        rest.0,
        λ q.
            count_added q (new_interface i) list
              (map new_interface (select (is_usable loopback) found)) _ (rest.1 q),
      ))
  | inr unusable ↦ rw unusable (copy_interfaces_lem loopback found list s)
]
