-- ===== src/Net/Print.antt =====
-- Printed addresses and networks are read back.
use wg_manager.Base.{ℕ, zero, suc, ◌/◌, ◌%◌, ◌^◌, ◌≤◌, ◌<◌, ◌≡◌, ◌≢◌, refl, arith}
use wg_manager.Base.{Bool, true, false, ◌&&◌, Option, none, some, [], ◌∷◌, ◌++◌, Text, nat_eq, ◌==◌}
use wg_manager.Base.{leb, to_dec, split, Lacks, ap, ◌∙◌, sym}
use wg_manager.Base.{split-append, split_line, cut-append, all, some_inj, All-append}
use wg_manager.Base.{HasNoSpace, IsWord, is_space}
use wg_manager.Net.{ip_string, parse_octet, parse_octets, parse_ip, parse_ones, parse_cidr}
use wg_manager.Net.{mask_to}

-- The numbers below a bound pass a test.
passes : (ℕ → Bool) → ℕ → Bool
passes test zero = true
passes test (suc bound) = passes test bound && test bound

passes_at : (test : ℕ → Bool) (bound v : ℕ) → v < bound → passes test bound ≡ true → test v ≡ true
unfolding passes
passes_at test zero v below h = absurd (omega arith)
passes_at test (suc bound) v below h = ground (arith, passes_at test bound v)

abbrev pub is_digit : ℕ → Bool
is_digit c = leb b'0' c && leb c b'9'

abbrev reads_as : Option ℕ → ℕ → Bool
reads_as none v = false
reads_as (some w) v = w == v

reads_as-eq : (o : Option ℕ) (v : ℕ) → reads_as o v ≡ true → o ≡ some v
reads_as-eq none v h = cc
reads_as-eq (some w) v h = ground arith

octet_table :
    passes (λ v. reads_as (parse_octet (to_dec v)) v && all is_digit (to_dec v)) 256 ≡ true
unfolding passes parse_octet to_dec
octet_table = refl

ones_table : passes (λ v. reads_as (parse_ones (to_dec v)) v && all is_digit (to_dec v)) 33 ≡ true
unfolding passes parse_ones to_dec
ones_table = refl

and_left : (a b : Bool) → (a && b) ≡ true → a ≡ true
and_left a b h = ground arith

and_right : (a b : Bool) → (a && b) ≡ true → b ≡ true
and_right a b h = ground arith

octet_fact :
    (v : ℕ) → v < 256 → (reads_as (parse_octet (to_dec v)) v && all is_digit (to_dec v)) ≡ true
octet_fact v h = passes_at _ 256 v h octet_table

pub parse_octet-to_dec : (v : ℕ) → v < 256 → parse_octet (to_dec v) ≡ some v
parse_octet-to_dec v h = reads_as-eq _ v (and_left _ _ (octet_fact v h))

parse_ones-to_dec : (v : ℕ) → v ≤ 32 → parse_ones (to_dec v) ≡ some v
parse_ones-to_dec v h = reads_as-eq _ v (and_left _ _ (passes_at _ 33 v (omega arith) ones_table))

digits-Lacks : (b : ℕ) (s : Text) → is_digit b ≡ false → all is_digit s ≡ true → Lacks b s
digits-Lacks b [] e h = tt
digits-Lacks b (c ∷ s) e h = ((λ q. ground arith), digits-Lacks b s e (ground arith))

octet-Lacks : (b v : ℕ) → is_digit b ≡ false → v < 256 → Lacks b (to_dec v)
octet-Lacks b v e h = digits-Lacks b (to_dec v) e (and_right _ _ (octet_fact v h))

split-ip_string :
    (ip : ℕ)
    → split b'.' (ip_string ip)
      ≡ to_dec (ip / 16777216 % 256)
        ∷ to_dec (ip / 65536 % 256)
        ∷ to_dec (ip / 256 % 256)
        ∷ to_dec (ip % 256)
        ∷ []
unfolding ip_string
split-ip_string ip = rw (
  split-append b'.' (to_dec (ip / 16777216 % 256)) _ (octet-Lacks b'.' _ refl (omega arith)),
  split-append b'.' (to_dec (ip / 65536 % 256)) _ (octet-Lacks b'.' _ refl (omega arith)),
  split-append b'.' (to_dec (ip / 256 % 256)) _ (octet-Lacks b'.' _ refl (omega arith)),
  split_line b'.' (to_dec (ip % 256)) (octet-Lacks b'.' _ refl (omega arith)),
)

-- Every address is read back from its dotted form.
pub parse_ip-ip_string : (ip : ℕ) → ip < 2 ^ 32 → parse_ip (ip_string ip) ≡ some ip
parse_ip-ip_string ip h =
    unfold parse_ip parse_octets in
    rw
      (
        split-ip_string ip,
        parse_octet-to_dec (ip / 16777216 % 256) (omega arith),
        parse_octet-to_dec (ip / 65536 % 256) (omega arith),
        parse_octet-to_dec (ip / 256 % 256) (omega arith),
        parse_octet-to_dec (ip % 256) (omega arith),
      )
      (ap {B = Option ℕ} some (omega arith))

-- Two addresses with one dotted form are one.
pub ip_string-injective : (a b : ℕ) → a < 2 ^ 32 → b < 2 ^ 32 → ip_string a ≡ ip_string b → a ≡ b
ip_string-injective a b ha hb e =
    some_inj (sym (parse_ip-ip_string a ha) ∙ ap parse_ip e ∙ parse_ip-ip_string b hb)

pub ip_string-Lacks : (b ip : ℕ) → is_digit b ≡ false → b ≢ b'.' → Lacks b (ip_string ip)
unfolding ip_string
ip_string-Lacks b ip e ne =
    let dot : b'.' ≢ b = λ q. ne (sym q) in
    All-append _ (to_dec (ip / 16777216 % 256)) _ (octet-Lacks b _ e (omega arith)) (
      dot,
      All-append _ (to_dec (ip / 65536 % 256)) _ (octet-Lacks b _ e (omega arith)) (
        dot,
        All-append _ (to_dec (ip / 256 % 256)) _ (octet-Lacks b _ e (omega arith))
            (dot, octet-Lacks b (ip % 256) e (omega arith)),
      ),
    )

digit_space : (c : ℕ) → is_digit c ≡ true → is_space c ≡ false
unfolding is_space
digit_space c h = ground arith

digits-HasNoSpace : (s : Text) → all is_digit s ≡ true → HasNoSpace s
digits-HasNoSpace [] h = tt
digits-HasNoSpace (c ∷ s) h = (digit_space c (ground arith), digits-HasNoSpace s (ground arith))

octet-HasNoSpace : (v : ℕ) → v < 256 → HasNoSpace (to_dec v)
octet-HasNoSpace v h = digits-HasNoSpace (to_dec v) (and_right _ _ (octet_fact v h))

append-ne-nil : (s : Text) (c : ℕ) (t : Text) → s ++ (c ∷ t) ≢ []
append-ne-nil [] c t h = cc
append-ne-nil (x ∷ s) c t h = cc

pub ip_string-IsWord : (ip : ℕ) → IsWord (ip_string ip)
unfolding ip_string is_space
ip_string-IsWord ip = (
  append-ne-nil (to_dec (ip / 16777216 % 256)) _ _,
  All-append _ (to_dec (ip / 16777216 % 256)) _ (octet-HasNoSpace _ (omega arith)) (
    refl,
    All-append _ (to_dec (ip / 65536 % 256)) _ (octet-HasNoSpace _ (omega arith)) (
      refl,
      All-append _ (to_dec (ip / 256 % 256)) _ (octet-HasNoSpace _ (omega arith))
          (refl, octet-HasNoSpace (ip % 256) (omega arith)),
    ),
  ),
)

-- An address with a prefix length is read back as the address and its network.
pub parse_cidr-ip_string :
    (ip ones : ℕ)
    → ip < 2 ^ 32
    → ones ≤ 32
    → parse_cidr (ip_string ip ++ (b'/' ∷ to_dec ones))
      ≡ some (ip, record { ip = mask_to ones ip; ones = ones })
parse_cidr-ip_string ip ones h k =
    unfold parse_cidr in
    rw (
      cut-append b'/' (ip_string ip) (to_dec ones) (ip_string-Lacks b'/' ip refl (omega arith)),
      parse_ip-ip_string ip h,
      parse_ones-to_dec ones k,
    )
