-- ===== src/Sdk/Value.antt =====
-- The dynamic values that the SDK receives as `unknown` and builds as request bodies. A number is
-- a non-negative integer or a fraction `units` / 10 ^ `places`; a property that an object lacks reads
-- as `undefined`.
use trust_vault.Prelude.{
  ℕ, zero, suc, ◌+◌, ◌/◌, ◌%◌, ◌^◌, drop, String, Bool, true, false, not, Option, none, some, [],
  ◌++◌, ◌≡◌, refl, Text, text, decimal, truthy_text, ◌==◌, str_eq, eq_iff, if◌then◌else◌, arith,
}

mutual
  pub data Value : Type 0 where
    undefined : Value
    null : Value
    bool : Bool → Value
    num : ℕ → Value
    frac : (units places : ℕ) → Value
    str : Text → Value
    arr : Items → Value
    obj : Fields → Value

  pub data Fields : Type 0 where
    field : String → Value → Fields → Fields
    end : Fields

  pub data Items : Type 0 where
    cons : Value → Items → Items
    nil : Items

-- `Boolean(v)`
abbrev pub truthy : Value → Bool
truthy undefined = false
truthy null = false
truthy (bool b) = b
truthy (num n) = not (n == 0)
truthy (frac units places) = not (units == 0)
truthy (str s) = truthy_text s
truthy (arr xs) = true
truthy (obj fs) = true

-- `v ?? w`
abbrev pub coalesce : Value → Value → Value
coalesce undefined w = w
coalesce null w = w
coalesce v w = v

abbrev pub lookup : String → Fields → Value
lookup k end = undefined
lookup k (field j v fs) = if str_eq j k then v else lookup k fs

-- `v?.k`: a primitive or an array has none of the names that the SDK reads.
abbrev pub member : String → Value → Value
member k (obj fs) = lookup k fs
member k v = undefined

-- `fs.k = v`: an old property keeps its place.
abbrev pub put : String → Value → Fields → Fields
put k v end = field k v end
put k v (field j w fs) = if str_eq j k then field j v fs else field j w (put k v fs)

-- `{ ...fs, ...gs }`
abbrev pub spread : Fields → Fields → Fields
spread fs end = fs
spread fs (field k v gs) = spread (put k v fs) gs

-- An optional property as a value.
abbrev pub opt {ℓ} : {A : Type ℓ} → (A → Value) → Option A → Value
opt f none = undefined
opt f (some a) = f a

-- A fraction in decimals, without zeros at its end: the leading zeros of the part behind the point
-- are restored from a one that is put before it.
unfoldable pub fraction : ℕ → ℕ → Text
fraction units zero = decimal units
fraction units (suc p) =
    let shorter = fraction (units / 10) p in
    let behind = drop 1 (decimal (10 ^ suc p + units % 10 ^ suc p)) in
    if units % 10 == 0 then shorter else decimal (units / 10 ^ suc p) ++ (text "." ++ behind)

unfoldable mutual
  -- `String(v)`
  pub to_string : Value → Text
  to_string undefined = text "undefined"
  to_string null = text "null"
  to_string (bool true) = text "true"
  to_string (bool false) = text "false"
  to_string (num n) = decimal n
  to_string (frac units places) = fraction units places
  to_string (str s) = s
  to_string (arr xs) = join xs
  to_string (obj fs) = text "[object Object]"

  -- The elements with commas between them; `null` and `undefined` print as nothing.
  pub join : Items → Text
  join nil = []
  join (cons v nil) = to_string v
  join (cons v xs) = to_string v ++ (text "," ++ join xs)

pub lookup-put :
    (k j : String) (v : Value) (fs : Fields)
    → lookup j (put k v fs) ≡ (if str_eq k j then v else lookup j fs)
lookup-put k j v end = refl
lookup-put k j v (field i w fs) =
    ground (arith, eq_iff k j, eq_iff i k, eq_iff i j, lookup-put k j v fs)

fraction_tests :
    (fraction 1250 3 ≡ text "1.25") × (fraction 305 2 ≡ text "3.05") × (fraction 70 1 ≡ text "7")
unfolding fraction decimal text
fraction_tests = (refl, refl, refl)
