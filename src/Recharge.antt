-- ===== src/Recharge.antt =====
-- Recharging a user: `rechargePeer` and `readResetCounters` (reset.go), and the command line's
-- `recharge` (main.go).
pub mod Baseline
use wg_manager.Base.{
  ◌≡◌, ℕ, ◌+◌, Bool, true, false, not, ◌&&◌, ◌||◌, Option, none, some, List, [], ◌∷◌,
}
use wg_manager.Base.{
  Text, lit, text_eq, ◌==◌, if◌then◌else◌, is_empty, ℤ, pos, ◌+ℤ◌, Dict, lookup, lookup_or,
}
use wg_manager.Base.{negsuc, max_int64, leb_ℤ}
use wg_manager.Base.{ltb_ℤ, parse_int, fields, split, length, leb, nat_eq}
use wg_manager.Base.{◌⊎◌, inl, inr, refl}
use wg_manager.Store.{Peer, Table, get_peer, update_peer}

-- `float64`, as far as amounts of GB need it. `reaches_max v` is
-- `v >= float64(math.MaxInt64)/(1024*1024*1024)`, and `to_bytes` is `gbToBytes`.
pub record Floats : Type 1 where
  pub Float : Type 0
  pub is_negative : Float → Bool
  pub is_nan : Float → Bool
  pub is_inf : Float → Bool
  pub reaches_max : Float → Bool
  pub to_bytes : Float → ℤ
  -- `v > 0`, and `int(v)`
  pub is_positive : Float → Bool
  pub to_int : Float → ℤ
  -- What a column holds after a sum that does not fit 64 bits, which SQLite takes in float64.
  pub real_sum : ℤ → ℤ → ℤ
  -- `strconv.ParseFloat(s, 64)`: the value, and whether the error is nil
  pub parse : Text → Float × Bool

-- A decoded JSON value, by the types that the handlers ask for.
pub data Json (F : Type 0) : Type 0 where
  bool : Bool → Json F
  number : F → Json F
  string : Text → Json F
  other : Json F

pub record ResetCounters : Type 0 where
  pub rx : ℤ
  pub tx : ℤ
  pub ovpn : ℤ

pub data Result (A : Type 0) : Type 0 where
  ok : A → Result A
  err : Text → Result A

pub ok_inj : {A : Type 0} {a b : A} → ok a ≡ ok b → a ≡ b
ok_inj e = cc

pub Result-cases : {A : Type 0} (r : Result A) → ((a : A) × (r ≡ ok a)) ⊎ ((e : Text) × (r ≡ err e))
Result-cases (ok a) = inl (a, refl)
Result-cases (err e) = inr (e, refl)

infixl 5 ◌>>=◌ ◌>>◌
abbrev pub ◌>>=◌ : {A B : Type 0} → Result A → (A → Result B) → Result B
ok a >>= f = f a
err e >>= f = err e

abbrev pub ◌>>◌ : {B : Type 0} → Result (Unit {0}) → Result B → Result B
m >> k = m >>= λ _. k

-- `if c { return fmt.Errorf(message) }`
abbrev pub fail_if : Bool → Text → Result (Unit {0})
fail_if true message = err message
fail_if false message = ok tt

-- The WireGuard part of `readResetCounters`: each row of the key replaces what was read before.
unfoldable pub counter_row : Text → List Text → ResetCounters → Result ResetCounters
counter_row key [] c = ok c
counter_row key (k ∷ []) c = if k == key then err (lit "invalid WireGuard counter row") else ok c
counter_row key (k ∷ a ∷ []) c =
    if k == key then err (lit "invalid WireGuard counter row") else ok c
counter_row key (k ∷ a ∷ b ∷ []) c =
    let (rx, rx_ok) = parse_int a in
    let (tx, tx_ok) = parse_int b in
    if not (k == key)
    then ok c
    else if not rx_ok || not tx_ok || ltb_ℤ rx (pos 0) || ltb_ℤ tx (pos 0)
    then err (lit "invalid WireGuard byte counters")
    else ok (record c { rx = rx; tx = tx })
counter_row key (k ∷ a ∷ b ∷ d ∷ more) c =
    if k == key then err (lit "invalid WireGuard counter row") else ok c

unfoldable pub counter_rows : Text → List Text → ResetCounters → Result ResetCounters
counter_rows key [] c = ok c
counter_rows key (line ∷ lines) c = do
  c' ← counter_row key (fields line) c
  counter_rows key lines c'

-- `out` is what `wg show <iface> transfer` prints, `none` a failure.
unfoldable pub wg_counters : Option Text → Peer → ResetCounters → Result ResetCounters
wg_counters out p c = if is_empty p.public_key then ok c else elim out [
  | none ↦ err (lit "cannot read WireGuard counters")
  | some text ↦ counter_rows p.public_key (split b'\n' text) c
]

-- The OpenVPN part, on the bytes of the user's common name as `ovpnCounters` found them.
unfoldable pub read_reset_counters : Option Text → (Peer → Result ℤ) → Peer → Result ResetCounters
read_reset_counters out ovpn p = do
  c ← wg_counters out p (record { rx = p.last_rx; tx = p.last_tx; ovpn = p.last_ovpn_bytes })
  if is_empty p.ovpn_cn then ok c else (ovpn p >>= λ n. ok (record c { ovpn = n }))

module _ (fl : Floats) where
  -- `n < 0 || math.IsNaN(n) || math.IsInf(n, 0) || n >= …`
  unfoldable pub is_bad_amount : fl.Float → Bool
  is_bad_amount n = fl.is_negative n || fl.is_nan n || fl.is_inf n || fl.reaches_max n

  unfoldable pub check_amount : Text → Dict (Json fl.Float) → Result (Unit {0})
  check_amount key m = elim (lookup key m) [
    | none ↦ ok tt
    | some v ↦ elim v [
      | number n ↦ fail_if (is_bad_amount n) key
      | bool _ ↦ err key
      | string _ ↦ err key
      | other ↦ err key
    ]
  ]

  unfoldable pub reset_flag : Dict (Json fl.Float) → Result Bool
  reset_flag m = elim (lookup (lit "reset") m) [
    | none ↦ ok false
    | some v ↦ elim v [
      | bool b ↦ ok b
      | number _ ↦ err (lit "reset must be a boolean")
      | string _ ↦ err (lit "reset must be a boolean")
      | other ↦ err (lit "reset must be a boolean")
    ]
  ]

  -- `_, ok := m[key]`
  unfoldable pub has_key : Text → Dict (Json fl.Float) → Bool
  has_key key m = elim (lookup key m) [ none ↦ false | some _ ↦ true ]

  -- `m[key].(float64)`
  unfoldable pub amount : Text → Dict (Json fl.Float) → Option fl.Float
  amount key m = elim (lookup key m) [
    | none ↦ none
    | some v ↦ elim v [ number n ↦ some n | bool _ ↦ none | string _ ↦ none | other ↦ none ]
  ]

  -- `UPDATE peers SET used_bytes=0,used_ovpn_bytes=0,last_rx=?,last_tx=?,last_ovpn_bytes=?`
  unfoldable pub set_baseline : ResetCounters → Peer → Peer
  set_baseline c p = record p {
    used_bytes = pos 0;
    used_ovpn_bytes = pos 0;
    last_rx = c.rx;
    last_tx = c.tx;
    last_ovpn_bytes = c.ovpn;
  }

  unfoldable pub set_quota : Option fl.Float → Peer → Peer
  set_quota none p = p
  set_quota (some v) p = record p { quota_bytes = fl.to_bytes v }

  -- A sum as SQLite takes it: in 64 bits if it fits.
  unfoldable pub sql_sum : ℤ → ℤ → ℤ
  sql_sum a b =
      let s : ℤ = a +ℤ b in
      if leb_ℤ (negsuc max_int64) s && leb_ℤ s (pos max_int64) then s else fl.real_sum a b

  -- `quota_bytes=quota_bytes+?`
  unfoldable pub add_quota : Option fl.Float → Peer → Peer
  unfolding sql_sum
  add_quota none p = p
  add_quota (some v) p = record p { quota_bytes = sql_sum p.quota_bytes (fl.to_bytes v) }

  -- The three statements of the transaction, on the row.
  unfoldable pub recharged : Bool → ResetCounters → Dict (Json fl.Float) → Peer → Peer
  recharged reset c m p =
      let q = if reset then set_baseline c p else p in
      add_quota (amount (lit "add_gb") m) (set_quota (amount (lit "set_gb") m) q)

  -- The checks of `rechargePeer` up to the transaction: whether to reset, and the counters.
  unfoldable pub recharge_plan :
      (Peer → Result ResetCounters) → Dict (Json fl.Float) → Peer → Result (Bool × ResetCounters)
  recharge_plan snapshot m p = do
    reset ← reset_flag m
    check_amount (lit "set_gb") m
    check_amount (lit "add_gb") m
    fail_if (not reset && not (has_key (lit "set_gb") m) && not (has_key (lit "add_gb") m))
        (lit "recharge needs reset, set_gb, or add_gb")
    c ← if reset then snapshot p else ok (record { rx = pos 0; tx = pos 0; ovpn = pos 0 })
    ok (reset, c)

  -- `rechargePeer`; `commits` tells whether the database takes the transaction.
  unfoldable pub recharge_peer :
      Bool → (Peer → Result ResetCounters) → Text → Dict (Json fl.Float) → Table → Result Table
  recharge_peer commits snapshot name m t = elim (get_peer t name) [
    | none ↦ err (lit "no such user")
    | some p ↦ do
      (reset, c) ← recharge_plan snapshot m p
      fail_if (not commits) (lit "database")
      ok (update_peer p.id (recharged reset c m) t)
  ]

  -- A flag of the command line's `recharge`; the error of the conversion is dropped.
  unfoldable pub cli_amount : Text → Dict Text → Option fl.Float
  cli_amount key flags = elim (lookup key flags) [
    | none ↦ none
    | some v ↦ if is_empty v then none else some (fl.parse v).0
  ]

  -- `UPDATE peers SET used_bytes=0,last_rx=0,last_tx=0`
  unfoldable pub cli_reset : Peer → Peer
  cli_reset p = record p { used_bytes = pos 0; last_rx = pos 0; last_tx = pos 0 }

  -- `--reset`, `--set-gb` and `--add-gb`, in this order
  unfoldable pub cli_recharge : Dict Text → Peer → Table → Table
  cli_recharge flags p t =
      let reset : Bool = lookup_or [] (lit "reset") flags == lit "true" in
      let set = set_quota (cli_amount (lit "set-gb") flags) in
      let add = add_quota (cli_amount (lit "add-gb") flags) in
      update_peer p.id (λ q. add (set (if reset then cli_reset q else q))) t
