-- ===== src/Watch/Values.antt =====
-- The dynamic values (`any`) that a watch observes, and the float64 operations they are read by.
-- Native texts are sequences of code points, so a text is always valid UTF-8.
use mathlib.Core.Option
use ding.Base.{
  ℕ, String, Bool, true, false, ◌&&◌, ◌||◌, Option, none, some, str_eq, if◌then◌else◌, ◌==◌,
}
use ding.Base.Int.{ℤ, int_eq}

-- float64 is not modelled bit by bit: its operations are a parameter.
pub record Floats (F : Type 0) : Type 0 where
  pub ltb : F → F → Bool
  pub eqb : F → F → Bool
  pub add : F → F → F
  pub div : F → F → F
  pub minimum : F → F → F
  pub maximum : F → F → F
  pub of_int : ℤ → F
  pub nan : F
  pub is_nan : F → Bool
  pub is_inf : F → Bool
  pub parse : String → Option F

mutual
  pub data Value (F : Type 0) : Type 0 where
    null : Value F
    boolean : Bool → Value F
    float64 : F → Value F
    int : ℤ → Value F
    int64 : ℤ → Value F
    number : String → Value F
    text : String → Value F
    array : Items F → Value F
    object : Fields F → Value F

  pub data Items (F : Type 0) : Type 0 where
    nil : Items F
    cons : Value F → Items F → Items F

  -- A Go map, in some order of its keys.
  pub data Fields (F : Type 0) : Type 0 where
    end : Fields F
    field : String → Value F → Fields F → Fields F

module _ {F : Type 0} where
  unfoldable pub lookup : String → Fields F → Option (Value F)
  lookup k end = none
  lookup k (field j v fs) = if str_eq j k then some v else lookup k fs

  unfoldable pub size : Fields F → ℕ
  size end = 0
  size (field k v fs) = ℕ.suc (size fs)

abbrev both : {A B C : Type 0} → (A → B → C) → Option A → Option B → Option C
both f (some a) (some b) = some (f a b)
both f _ _ = none

module _ {F : Type 0} (fl : Floats F) where
  open fl use {eqb, is_nan, is_inf, of_int, parse}

  -- reflect.DeepEqual on these values.
  unfoldable mutual
    pub deep_equal : Value F → Value F → Bool
    deep_equal null null = true
    deep_equal (boolean true) (boolean b) = b
    deep_equal (boolean false) (boolean true) = false
    deep_equal (boolean false) (boolean false) = true
    deep_equal (float64 x) (float64 y) = eqb x y
    deep_equal (int x) (int y) = int_eq x y
    deep_equal (int64 x) (int64 y) = int_eq x y
    deep_equal (number x) (number y) = str_eq x y
    deep_equal (text x) (text y) = str_eq x y
    deep_equal (array xs) (array ys) = deep_equal_items xs ys
    deep_equal (object xs) (object ys) = (size xs == size ys) && deep_equal_fields xs ys
    deep_equal _ _ = false

    pub deep_equal_items : Items F → Items F → Bool
    deep_equal_items nil nil = true
    deep_equal_items (cons x xs) (cons y ys) = deep_equal x y && deep_equal_items xs ys
    deep_equal_items _ _ = false

    pub deep_equal_fields : Fields F → Fields F → Bool
    deep_equal_fields end ys = true
    deep_equal_fields (field k x xs) ys =
        elim (lookup k ys) [ none ↦ false | some y ↦ deep_equal x y ] && deep_equal_fields xs ys

  -- json.Marshal followed by json.Unmarshal: numbers become float64, and what JSON cannot write
  -- (a NaN, an infinity, a bad json.Number) is an error.
  unfoldable mutual
    pub json_copy : Value F → Option (Value F)
    json_copy null = some null
    json_copy (boolean b) = some (boolean b)
    json_copy (float64 x) = if is_nan x || is_inf x then none else some (float64 x)
    json_copy (int n) = some (float64 (of_int n))
    json_copy (int64 n) = some (float64 (of_int n))
    json_copy (number s) = Option.map float64 (parse s)
    json_copy (text s) = some (text s)
    json_copy (array xs) = Option.map array (json_copy_items xs)
    json_copy (object xs) = Option.map object (json_copy_fields xs)

    pub json_copy_items : Items F → Option (Items F)
    json_copy_items nil = some nil
    json_copy_items (cons x xs) = both cons (json_copy x) (json_copy_items xs)

    pub json_copy_fields : Fields F → Option (Fields F)
    json_copy_fields end = some end
    json_copy_fields (field k x xs) = both (field k) (json_copy x) (json_copy_fields xs)
