-- ===== src/Value/Dict.antt =====
-- Reading an object of JSON after a write.
use async_energy_controller.Base.{String, ◌≡◌, false, refl, arith, str_eq, str_eq_iff, true}
use async_energy_controller.Value.{Value, Fields, end, field, get, put, has_key}

pub get-put : (k : String) (v : Value) (fs : Fields) → get k (put k v fs) ≡ v
unfolding get put
get-put k v end = ground (arith, (str_eq_iff k k).1 refl)
get-put k v (field j w fs) = ground (arith, get-put k v fs)

pub get-put_other :
    (i k : String) (v : Value) (fs : Fields) → str_eq k i ≡ false → get i (put k v fs) ≡ get i fs
unfolding get put
get-put_other i k v end h = ground arith
get-put_other i k v (field j w fs) h =
    ground (arith, get-put_other i k v fs h, str_eq_iff j k, str_eq_iff j i, str_eq_iff k i)

pub has_key-put_other :
    (i k : String) (v : Value) (fs : Fields)
    → str_eq k i ≡ false
    → has_key i (put k v fs) ≡ has_key i fs
unfolding has_key put
has_key-put_other i k v end h = ground arith
has_key-put_other i k v (field j w fs) h =
    ground (arith, has_key-put_other i k v fs h, str_eq_iff j k, str_eq_iff j i, str_eq_iff k i)

pub has_key-put : (k : String) (v : Value) (fs : Fields) → has_key k (put k v fs) ≡ true
unfolding has_key put
has_key-put k v end = ground (arith, (str_eq_iff k k).1 refl)
has_key-put k v (field j w fs) = ground (arith, has_key-put k v fs)
