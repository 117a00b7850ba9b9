-- ===== src/Tests/Memory.antt =====
-- A firewall in memory, which shows that the laws of Enforce/Firewall.antt can hold.
use wg_manager.Base.{Bool, true, false, not, ◌&&◌, ◌||◌, some, List, [], ◌∷◌, ◌≡◌, refl, arith}
use wg_manager.Base.{
  Text, text_eq, text_beq_iff, ◌==◌, if◌then◌else◌, elem, is_empty, all, is_space,
}
use wg_manager.Base.{All, IsWord, HasNoSpace, nat_eq, Bool-cases, inl, inr}
use wg_manager.Enforce.Firewall.{Firewall, IsLawful, save_text}

is_word : Text → Bool
is_word w = not (is_empty w) && all (λ c. not (is_space c)) w

all-HasNoSpace : (w : Text) → all (λ c. not (is_space c)) w ≡ true → HasNoSpace w
all-HasNoSpace [] h = tt
all-HasNoSpace (c ∷ w) h = (ground arith, all-HasNoSpace w (ground arith))

HasNoSpace-all : (w : Text) → HasNoSpace w → all (λ c. not (is_space c)) w ≡ true
HasNoSpace-all [] h = refl
HasNoSpace-all (c ∷ w) (h, hs) = rw (h, HasNoSpace-all w hs)

is_word-IsWord : (w : Text) → is_word w ≡ true → IsWord w
unfolding is_word
is_word-IsWord [] h = cc
is_word-IsWord (c ∷ w) h = ((λ q. cc), all-HasNoSpace (c ∷ w) h)

IsWord-is_word : (w : Text) → IsWord w → is_word w ≡ true
unfolding is_word
IsWord-is_word [] h = absurd (h.0 refl)
IsWord-is_word (c ∷ w) h = HasNoSpace-all (c ∷ w) h.1

-- The members of all sets, each with the name of its set.
abbrev pub Sets : Type 0
Sets = List (Text × Text)

members_of : Text → Sets → List Text
unfolding is_word
members_of n [] = []
members_of n ((m, ip) ∷ s) =
    let rest = members_of n s in if m == n && is_word ip then ip ∷ rest else rest

remove : Text → Text → Sets → Sets
remove n i [] = []
remove n i ((m, ip) ∷ s) =
    let rest = remove n i s in if m == n && ip == i then rest else (m, ip) ∷ rest

unfoldable pub memory : Firewall
unfolding members_of remove
memory = record {
  State = Sets;
  create_set = λ n s. s;
  check_drop = λ n d s. false;
  insert_drop = λ n d s. s;
  add_ip = λ n i s. (n, i) ∷ s;
  del_ip = remove;
  list_save = λ n s. some (save_text [] n (members_of n s));
}

pub no_sets : memory.State
unfolding memory
no_sets = []

elem-remove :
    (n i j : Text) (s : Sets)
    → elem j (members_of n (remove n i s)) ≡ (not (j == i) && elem j (members_of n s))
unfolding members_of remove
elem-remove n i j [] = ground arith
elem-remove n i j ((m, ip) ∷ s) =
    ground (arith, elem-remove n i j s, text_beq_iff j i, text_beq_iff ip i, text_beq_iff j ip)

elem-add :
    (n i j : Text) (s : Sets)
    → IsWord i
    → elem j (members_of n ((n, i) ∷ s)) ≡ (is_word j && j == i || elem j (members_of n s))
unfolding members_of
elem-add n i j s w = ground (arith, IsWord-is_word i w, text_beq_iff n n, text_beq_iff j i)

words-cons :
    (ip : Text) (rest : List Text) (b : Bool)
    → All IsWord rest
    → All IsWord (if b && is_word ip then ip ∷ rest else rest)
words-cons ip rest false h = h
words-cons ip rest true h = elim (Bool-cases (is_word ip)) [
  | inl e ↦ rw e (is_word-IsWord ip e, h)
  | inr e ↦ rw e h
]

members_of-words : (n : Text) (s : Sets) → All IsWord (members_of n s)
unfolding members_of
members_of-words n [] = tt
members_of-words n ((m, ip) ∷ s) = words-cons ip (members_of n s) (m == n) (members_of-words n s)

members_of-is_word : (n j : Text) (s : Sets) → elem j (members_of n s) ≡ true → is_word j ≡ true
unfolding members_of
members_of-is_word n j [] h = cc
members_of-is_word n j ((m, ip) ∷ s) h =
    ground (arith, h, members_of-is_word n j s, text_beq_iff j ip)

pub memory-IsLawful : IsLawful memory
unfolding memory
memory-IsLawful = record {
  takes = is_word;
  members = members_of;
  members_taken = members_of-is_word;
  elem-create_set = λ n j s. refl;
  elem-insert_drop = λ n d j s. refl;
  elem-add_ip = λ n i j s w. elem-add n i j s w;
  elem-del_ip = elem-remove;
  members_words = members_of-words;
  options = λ n s. [];
  options_line = λ n s. tt;
  list_save_lem = λ n s. refl;
}
