-- ===== src/Value/Equal.antt =====
-- `==` on the values that `json.loads` gives.
use async_energy_controller.Base.{
  ℕ, suc, ◌-◌, ◌*◌, ◌^◌, Bool, true, false, not, ◌&&◌, Option, none, some, str_eq, ◌==◌,
  if◌then◌else◌,
}
use async_energy_controller.Base.Int.{ℤ, pos, negsuc, eqb_ℤ}
use async_energy_controller.Value.{
  finite, infinite, Value, null, bool, int, float, str, list, dict, Items, nil, cons, Fields, end,
  field, get, has_key,
}

-- The value of a number in units of 2 ^ -1074.
abbrev units : Value → Option ℤ
units (bool b) = some (pos (if b then 2 ^ 1074 else 0))
units (int (pos n)) = some (pos (n * 2 ^ 1074))
units (int (negsuc n)) = some (negsuc (suc n * 2 ^ 1074 - 1))
units (float (finite m)) = some m
units _ = none

abbrev same_number : Option ℤ → Option ℤ → Bool
same_number (some a) (some b) = eqb_ℤ a b
same_number _ _ = false

abbrev size : Fields → ℕ
size end = 0
size (field k v fs) = suc (size fs)

-- `==` of what `json.loads` gives.
unfoldable mutual
  pub py_eq : Value → Value → Bool
  py_eq null null = true
  py_eq (str s) (str t) = str_eq s t
  py_eq (float (infinite a)) (float (infinite b)) = if a then b else not b
  py_eq (list vs) (list ws) = py_eq_items vs ws
  py_eq (dict fs) (dict gs) = (size fs == size gs) && py_eq_fields fs gs
  py_eq v w = same_number (units v) (units w)

  pub py_eq_items : Items → Items → Bool
  py_eq_items nil nil = true
  py_eq_items (cons v vs) (cons w ws) = py_eq v w && py_eq_items vs ws
  py_eq_items nil (cons w ws) = false
  py_eq_items (cons v vs) nil = false

  pub py_eq_fields : Fields → Fields → Bool
  py_eq_fields end gs = true
  py_eq_fields (field k v fs) gs = has_key k gs && py_eq v (get k gs) && py_eq_fields fs gs
