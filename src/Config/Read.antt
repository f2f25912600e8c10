-- ===== src/Config/Read.antt =====
-- api/internal/config/config.go: reading one setting. `Library` is what the standard library does:
-- strconv.Atoi, strconv.ParseFloat with the order of float64, and url.Parse.
use deins_complete.Prelude.{
  ℕ, zero, suc, ◌*◌, ◌≤◌, ◌≡◌, Bool, Bool-cases, not, ◌&&◌, ◌||◌, Option, none, some, ◌++◌,
  if◌then◌else◌, inl, inr, arith,
}
use deins_complete.Prelude.Int.{ℤ, pos, negsuc, ltb_ℤ, to_ℕ}
use deins_complete.Prelude.Text.{Str, str, str_eq, is_empty}
use deins_complete.Prelude.Result.{Result, ok, err}

pub record Url : Type 0 where
  pub scheme : Str
  pub host : Str

pub record Library (Float : Type 0) : Type 0 where
  pub atoi : Str → Option ℤ
  pub parse_float : Str → Option Float
  pub less : Float → Float → Bool
  pub zero_float : Float
  pub two : Float
  pub tenth : Float
  pub parse_url : Str → Option Url

unfoldable pub value_or_default : Str → Str → Str
value_or_default value fallback = if is_empty value then fallback else value

-- lookup(key) == "true"
abbrev pub flag : (Str → Str) → Str → Bool
flag lookup key = str_eq (lookup key) (str "true")

abbrev pub invalid : Str → Str → Str
invalid key raw = str "invalid " ++ key ++ str " value: " ++ raw

-- if err != nil || value < lo || value > hi { return message }; set(value * unit)
abbrev pub in_range : Str → ℕ → ℕ → ℕ → Option ℤ → Result Str ℕ
in_range message lo hi unit none = err message
in_range message lo hi unit (some value) =
    if ltb_ℤ value (pos lo) || ltb_ℤ (pos hi) value then err message else ok (to_ℕ value * unit)

abbrev pub at_least : Str → ℕ → Option ℤ → Result Str ℕ
at_least message lo none = err message
at_least message lo (some value) = if ltb_ℤ value (pos lo) then err message else ok (to_ℕ value)

-- if raw := lookup(key); raw != "" { ... }
unfoldable pub ranged : (Str → Option ℤ) → (Str → Str) → Str → Str → ℕ → ℕ → ℕ → ℕ → Result Str ℕ
ranged atoi lookup key message lo hi unit default =
    let raw = lookup key in
    if is_empty raw then ok default else in_range (message ++ raw) lo hi unit (atoi raw)

-- The usual message.
abbrev pub invalid_value : Str → Str
invalid_value key = str "invalid " ++ key ++ str " value: "

-- AUTH_TOKEN_VERSION has no upper bound.
unfoldable pub version_of : (Str → Option ℤ) → (Str → Str) → Str → ℕ → Result Str ℕ
version_of atoi lookup key default =
    let raw = lookup key in
    if is_empty raw then ok default else at_least (invalid_value key ++ raw) 1 (atoi raw)

-- A setting that is neither missing nor a Boolean.
unfoldable pub not_a_flag : Str → Bool
not_a_flag raw =
    not (is_empty raw) && not (str_eq raw (str "true")) && not (str_eq raw (str "false"))

abbrev pub Between : ℕ → ℕ → ℕ → Type 0
Between lo hi v = (lo ≤ v) × (v ≤ hi)

mul_le : (a b c : ℕ) → a ≤ b → a * c ≤ b * c
mul_le a b zero h = omega arith
mul_le a b (suc c) h = ground (arith, mul_le a b c h)

in_range-Between :
    (message : Str) (lo hi unit : ℕ) (o : Option ℤ) {v : ℕ}
    → in_range message lo hi unit o ≡ ok v
    → Between (lo * unit) (hi * unit) v
in_range-Between message lo hi unit none h = cc
in_range-Between message lo hi unit (some (pos n)) h =
    ground (arith, mul_le lo n unit, mul_le n hi unit)
in_range-Between message lo hi unit (some (negsuc n)) h = cc

-- A setting is within its range if its default is.
pub ranged-Between :
    (atoi : Str → Option ℤ) (lookup : Str → Str) (key message : Str) (lo hi unit default : ℕ)
    {v : ℕ}
    → Between (lo * unit) (hi * unit) default
    → ranged atoi lookup key message lo hi unit default ≡ ok v
    → Between (lo * unit) (hi * unit) v
unfolding ranged
ranged-Between atoi lookup key message lo hi unit default d h =
    elim (Bool-cases (is_empty (lookup key))) [
      | inl missing ↦ ground arith
      | inr set ↦
          in_range-Between (message ++ lookup key) lo hi unit (atoi (lookup key)) (ground arith)
    ]

at_least_lem :
    (message : Str) (lo : ℕ) (o : Option ℤ) {v : ℕ} → at_least message lo o ≡ ok v → lo ≤ v
at_least_lem message lo none h = cc
at_least_lem message lo (some (pos n)) h = ground arith
at_least_lem message lo (some (negsuc n)) h = cc

-- The token version is positive.
pub version_lem :
    (atoi : Str → Option ℤ) (lookup : Str → Str) (key : Str) {v : ℕ}
    → version_of atoi lookup key 1 ≡ ok v
    → 1 ≤ v
unfolding version_of
version_lem atoi lookup key h = elim (Bool-cases (is_empty (lookup key))) [
  | inl missing ↦ ground arith
  | inr set ↦ at_least_lem (invalid_value key ++ lookup key) 1 (atoi (lookup key)) (ground arith)
]
