-- ===== src/Base/Value.antt =====
-- The values that JSON payloads hold, and the Python operations that the backend applies to them.
use Prim.Native.Nat.{ℕ, zero, suc, ◌/◌, ◌%◌}
use Prim.Native.String.{String, ◌++◌ as ◌<>◌}
use mathlib.Core.Path.{◌≡◌, refl}
use mathlib.Core.Bool.{Bool, true, false, not}
use mathlib.Core.Option.{Option, none, some}
use mathlib.Core.List.{List, [], ◌∷◌, map}
use text.Mathlib.Text.{◌==◌}
use text.Mathlib.TextEquality.{eq_iff}
use native.Mathlib.Omega.{arith}
use innovativeproject_pm_gen.Base.Tests.{eqb, if◌then◌else◌}
use innovativeproject_pm_gen.Base.Text.{is_empty, chars}
use innovativeproject_pm_gen.Base.Result.{Result, ok, err}

-- `negsuc n` is -(n + 1).
pub data ℤ : Type 0 where
  pos : ℕ → ℤ
  negsuc : ℕ → ℤ

-- A float stands as its `repr`.
mutual
  pub data Value : Type 0 where
    null : Value
    bool : Bool → Value
    int : ℤ → Value
    float : String → Value
    str : String → Value
    obj : Fields → Value
    arr : Items → Value

  pub data Fields : Type 0 where
    end : Fields
    field : String → Value → Fields → Fields

  pub data Items : Type 0 where
    nil : Items
    cons : Value → Items → Items

-- The exceptions that a badly shaped payload raises.
pub data Fault : Type 0 where
  type_error attribute_error value_error : Fault

-- What Python computes of floats and of nested containers, by their text or value.
pub record Builtins : Type 0 where
  pub repr : Value → String
  pub int_of_float : String → Option ℤ
  pub int_of_text : String → Option ℤ
  pub float_is_zero : String → Bool
  pub float_ms : String → Option ℕ

abbrev pub list_of : Items → List Value
list_of nil = []
list_of (cons v r) = v ∷ list_of r

abbrev pub keys_of : Fields → List Value
keys_of end = []
keys_of (field k v r) = str k ∷ keys_of r

-- `d.get(k)`; a key stands once in a dict.
unfoldable pub get : Fields → String → Option Value
get end k = none
get (field j v r) k = if j == k then some v else get r k

-- `d.get(k)`, with `None` for a key that is not there.
unfoldable pub get_value : Fields → String → Value
unfolding get
get_value d k = elim (get d k) [ none ↦ null | some v ↦ v ]

-- `d.get(k, default)`
unfoldable pub get_default : Fields → String → Value → Value
unfolding get
get_default d k v = elim (get d k) [ none ↦ v | some w ↦ w ]

-- `d[k] = v`
unfoldable pub put : String → Value → Fields → Fields
put k v end = field k v end
put k v (field j w r) = let rest = put k v r in if j == k then field j v r else field j w rest

pub get-put : (k : String) (v : Value) (d : Fields) → get (put k v d) k ≡ some v
unfolding get put
get-put k v end = ground (arith, eq_iff k k)
get-put k v (field j w r) = ground (arith, get-put k v r, eq_iff j k)

pub get-put_ne :
    (k j : String) (v : Value) (d : Fields) → (j == k) ≡ false → get (put j v d) k ≡ get d k
unfolding get put
get-put_ne k j v end h = ground arith
get-put_ne k j v (field i w r) h = ground (arith, get-put_ne k j v r h, eq_iff i j, eq_iff i k)

-- `k in d`
abbrev pub has_key : Fields → String → Bool
has_key d k = elim (get d k) [ none ↦ false | some v ↦ true ]

last_digit : ℕ → String
last_digit n =
    if eqb n 0
    then "0"
    else if eqb n 1
    then "1"
    else if eqb n 2
    then "2"
    else if eqb n 3
    then "3"
    else if eqb n 4
    then "4"
    else if eqb n 5
    then "5"
    else if eqb n 6
    then "6"
    else if eqb n 7
    then "7"
    else if eqb n 8
    then "8"
    else "9"

-- Decimal digits; a number has fewer digits than its successor's value, which is the fuel.
decimal_loop : ℕ → ℕ → String → String
decimal_loop zero n acc = acc
decimal_loop (suc f) n acc =
    let shown = last_digit (n % 10) <> acc in
    let rest = decimal_loop f (n / 10) shown in if eqb (n / 10) 0 then shown else rest

unfoldable pub decimal : ℕ → String
unfolding decimal_loop last_digit
decimal n = decimal_loop (suc n) n ""

abbrev pub show_int : ℤ → String
show_int (pos n) = decimal n
show_int (negsuc n) = "-" <> decimal (suc n)

module _ (b : Builtins) where
  -- `str(v)`
  unfoldable pub str_of : Value → String
  str_of null = "None"
  str_of (bool true) = "True"
  str_of (bool false) = "False"
  str_of (int i) = show_int i
  str_of (float f) = f
  str_of (str s) = s
  str_of (arr xs) = b.repr (arr xs)
  str_of (obj d) = b.repr (obj d)

  -- `bool(v)`
  unfoldable pub truthy : Value → Bool
  truthy null = false
  truthy (bool t) = t
  truthy (int (pos zero)) = false
  truthy (int _) = true
  truthy (float f) = not (b.float_is_zero f)
  truthy (str s) = not (is_empty s)
  truthy (arr nil) = false
  truthy (arr (cons _ _)) = true
  truthy (obj end) = false
  truthy (obj (field _ _ _)) = true

  -- `v or w`
  unfoldable pub or_value : Value → Value → Value
  unfolding truthy
  or_value v w = if truthy v then v else w

  -- `int(v)`
  unfoldable pub int_of : Value → Result Fault ℤ
  int_of null = err type_error
  int_of (bool true) = ok (pos 1)
  int_of (bool false) = ok (pos 0)
  int_of (int i) = ok i
  int_of (float f) = elim (b.int_of_float f) [ none ↦ err value_error | some i ↦ ok i ]
  int_of (str s) = elim (b.int_of_text s) [ none ↦ err value_error | some i ↦ ok i ]
  int_of (arr xs) = err type_error
  int_of (obj d) = err type_error

-- The values that `for x in v` goes through.
unfoldable pub iterate : Value → Result Fault (List Value)
iterate (arr xs) = ok (list_of xs)
iterate (obj d) = ok (keys_of d)
iterate (str s) = ok (map str (chars s))
iterate _ = err type_error

-- A value used as a dict: `.get` of anything else is an `AttributeError`.
unfoldable pub as_dict : Value → Result Fault Fields
as_dict (obj d) = ok d
as_dict _ = err attribute_error

abbrev pub plain_builtins : Builtins
plain_builtins = record {
  repr = λ v. "...";
  int_of_float = λ s. none;
  int_of_text = λ s. none;
  float_is_zero = λ s. s == "0.0";
  float_ms = λ s. none;
}

decimal_test : decimal 4071 ≡ "4071"
unfolding decimal
decimal_test = refl
