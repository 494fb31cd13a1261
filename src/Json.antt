-- ===== src/Json.antt =====
-- JSON values as Python's `json` gives them, with what the code uses of the runtime: floats,
-- printing of integers, `json.dumps` and `json.loads` are parameters.
use az_capa.Prelude.{
  String, ◌≡◌, Bool, true, false, not, Option, none, some, str_eq, if◌then◌else◌, ◌==◌,
}
use az_capa.Prelude.Int.{ℤ, pos, negsuc}

mutual
  pub data Json (F : Type 0) : Type 0 where
    null : Json F
    bool : Bool → Json F
    int : ℤ → Json F
    float : F → Json F
    str : String → Json F
    arr : Items F → Json F
    obj : Fields F → Json F

  pub data Items (F : Type 0) : Type 0 where
    nil : Items F
    cons : Json F → Items F → Items F

  pub data Fields (F : Type 0) : Type 0 where
    end : Fields F
    field : String → Json F → Fields F → Fields F

-- Floats, and the functions of Python that the program calls on numbers and JSON texts.
pub record Runtime : Type 1 where
  pub Float : Type 0
  pub less : Float → Float → Bool
  pub less_asymm : (x y : Float) → less x y ≡ true → less y x ≡ false
  pub zero_float : Float
  pub one_float : Float
  pub zero-less-one : less zero_float one_float ≡ true
  pub is_zero : Float → Bool
  pub of_int : ℤ → Float
  pub percent_of_int : ℤ → Float
  pub percent_of_float : Float → Float
  pub show_int : ℤ → String
  pub dumps : Json Float → String
  pub loads : String → Json Float

abbrev pub nonzero : ℤ → Bool
nonzero (pos n) = not (n == 0)
nonzero (negsuc n) = true

module _ {F : Type 0} where
  -- `d.get(k)` and `k in d`; a key stands at most once in a dictionary.
  abbrev pub lookup : String → Fields F → Option (Json F)
  lookup k end = none
  lookup k (field j v fs) = if str_eq j k then some v else lookup k fs

  abbrev pub nonempty_items : Items F → Bool
  nonempty_items nil = false
  nonempty_items (cons _ _) = true

  abbrev pub nonempty_fields : Fields F → Bool
  nonempty_fields end = false
  nonempty_fields (field _ _ _) = true

  -- The truth value of a JSON value.
  abbrev pub is_true : (F → Bool) → Json F → Bool
  is_true is_zero null = false
  is_true is_zero (bool b) = b
  is_true is_zero (int i) = nonzero i
  is_true is_zero (float x) = not (is_zero x)
  is_true is_zero (str s) = not (str_eq s "")
  is_true is_zero (arr xs) = nonempty_items xs
  is_true is_zero (obj fs) = nonempty_fields fs
