-- ===== src/Spool/Order.antt =====
-- The spool is a queue: its rows stand in the order of their ids, a new id is above every id
-- that was ever given, and `pending` reads the rows as they stand.
use async_energy_controller.Base.{
  append-nil, take-append-drop, ℕ, zero, suc, ◌<◌, ◌≤◌, String, ◌≡◌, refl, Option, none, some, List,
  [], ◌∷◌, ◌++◌, map, arith, drop, All, if_ind, ◌==◌, true, map-append, is_some,
}
use async_energy_controller.Base.Int.{ℤ, pos, negsuc}
use async_energy_controller.Value.{Value, PyText}
use async_energy_controller.Spool.{
  Row, Spool, SpoolItem, column, enqueue, delete_rows, remove, order_by_id, limited, row_to_item,
  pending, get_of, list, items_of, null,
}
use async_energy_controller.Value.Encode.{jsonable, is_plain, stored-eq-jsonable}

-- Ids ascend strictly from above `low`, up to `high`.
abbrev pub Ascending : ℕ → ℕ → List Row → Type 0
Ascending low high [] = low ≤ high
Ascending low high (r ∷ rs) = (low < r.id) × Ascending r.id high rs

pub record IsQueue (s : Spool) : Type 0 where
  pub ascending : Ascending 0 s.sequence s.rows

Ascending-le : (low high : ℕ) (rs : List Row) → Ascending low high rs → low ≤ high
Ascending-le low high [] h = h
Ascending-le low high (r ∷ rs) h = omega (arith, Ascending-le r.id high rs h.1)

Ascending-snoc :
    (low high : ℕ) (rs : List Row) (r : Row)
    → Ascending low high rs
    → r.id ≡ suc high
    → Ascending low (suc high) (rs ++ r ∷ [])
Ascending-snoc low high [] r h e = (omega arith, omega arith)
Ascending-snoc low high (x ∷ rs) r h e = (h.0, Ascending-snoc x.id high rs r h.1 e)

Ascending-weaken :
    (low low' high : ℕ) (rs : List Row)
    → low' ≤ low
    → Ascending low high rs
    → Ascending low' high rs
Ascending-weaken low low' high [] le h = omega arith
Ascending-weaken low low' high (r ∷ rs) le h = (omega arith, h.1)

Ascending-delete :
    (i low high : ℕ) (rs : List Row) → Ascending low high rs → Ascending low high (delete_rows i rs)
unfolding delete_rows
Ascending-delete i low high [] h = h
Ascending-delete i low high (r ∷ rs) h =
    let kept = Ascending-delete i r.id high rs h.1 in
    if_ind (Ascending low high) (r.id == i) (delete_rows i rs) (r ∷ delete_rows i rs)
      (Ascending-weaken r.id low high (delete_rows i rs) (omega arith) kept) (h.0, kept)

-- Sorting changes nothing.
order_by_id-eq : (low high : ℕ) (rs : List Row) → Ascending low high rs → order_by_id rs ≡ rs
unfolding order_by_id
order_by_id-eq low high [] h = refl
order_by_id-eq low high (r ∷ []) h = refl
order_by_id-eq low high (r ∷ x ∷ rs) h = rw (order_by_id-eq r.id high (x ∷ rs) h.1) (ground arith)

-- Deleting the first id leaves the rest.
delete_absent :
    (i low high : ℕ) (rs : List Row) → i ≤ low → Ascending low high rs → delete_rows i rs ≡ rs
unfolding delete_rows
delete_absent i low high [] le h = refl
delete_absent i low high (r ∷ rs) le h =
    ground (arith, delete_absent i r.id high rs (omega arith) h.1)

pub remove-head :
    (r : Row) (rs : List Row) (n : ℕ)
    → IsQueue (record { rows = r ∷ rs; sequence = n })
    → remove r.id (record { rows = r ∷ rs; sequence = n }) ≡ record { rows = rs; sequence = n }
unfolding remove delete_rows
remove-head r rs n q = ground (arith, delete_absent r.id r.id n rs (omega arith) q.ascending.1)

pub IsQueue-tail :
    (r : Row) (rs : List Row) (n : ℕ)
    → IsQueue (record { rows = r ∷ rs; sequence = n })
    → IsQueue (record { rows = rs; sequence = n })
IsQueue-tail r rs n q = record {
  ascending = Ascending-weaken r.id 0 n rs (omega arith) q.ascending.1;
}

pub remove-IsQueue : (i : ℕ) (s : Spool) → IsQueue s → IsQueue (remove i s)
unfolding remove
remove-IsQueue i s q = record { ascending = Ascending-delete i 0 s.sequence s.rows q.ascending }

pub pending-eq :
    (limit : Option ℤ) (s : Spool)
    → IsQueue s
    → pending limit s ≡ map row_to_item (limited limit s.rows)
unfolding pending
pending-eq limit s q = rw (order_by_id-eq 0 s.sequence s.rows q.ascending)

Ascending-drop :
    (n low high : ℕ) (rs : List Row) → Ascending low high rs → Ascending low high (drop n rs)
Ascending-drop zero low high rs h = h
Ascending-drop (suc n) low high [] h = h
Ascending-drop (suc n) low high (r ∷ rs) h =
    Ascending-weaken r.id low high (drop n rs) (omega arith) (Ascending-drop n r.id high rs h.1)

-- No id is above the counter.
Ascending-ids :
    (low high : ℕ) (rs : List Row)
    → Ascending low high rs
    → All (λ (i : SpoolItem). i.id < suc high) (map row_to_item rs)
unfolding row_to_item
Ascending-ids low high [] h = tt
Ascending-ids low high (r ∷ rs) h =
    (omega (arith, Ascending-le r.id high rs h.1), Ascending-ids r.id high rs h.1)

abbrev bound_or_null : Option Value → Value
bound_or_null none = null
bound_or_null (some v) = v

bound-eq : (o : Option Value) → is_some o ≡ true → o ≡ some (bound_or_null o)
bound-eq none h = cc
bound-eq (some v) h = refl

-- What the two columns of ids hold; null where they are nothing that sqlite3 can bind.
abbrev pub id_column : PyText → String → Value → Value
id_column texts k entry = bound_or_null (column texts (get_of k entry))

-- sqlite3 can bind the ids of the record: none of them is a list or an object, or an integer beyond 64 bits.
abbrev pub IsBindable : PyText → Value → Type 0
IsBindable texts entry =
    (is_some (column texts (get_of "controller_id" entry)) ≡ true)
    × (is_some (column texts (get_of "run_id" entry)) ≡ true)

-- The row that `enqueue` adds.
abbrev pub new_row : PyText → String → Value → List Value → Spool → Row
new_row texts now entry samples s = record {
  id = suc s.sequence;
  created_at = now;
  controller_id = id_column texts "controller_id" entry;
  run_id = id_column texts "run_id" entry;
  entry = jsonable texts.isoformat entry;
  samples = jsonable texts.isoformat (list (items_of samples));
}

abbrev pub enqueued : PyText → String → Value → List Value → Spool → Spool
enqueued texts now entry samples s = record {
  rows = s.rows ++ new_row texts now entry samples s ∷ [];
  sequence = suc s.sequence;
}

module _ (texts : PyText) (now : String) (entry : Value) (samples : List Value) (s : Spool)
    (plain : is_plain entry ≡ true) (plains : is_plain (list (items_of samples)) ≡ true)
    (bindable : IsBindable texts entry) where
  pub enqueue-eq :
      enqueue texts now entry samples s ≡ some (suc s.sequence, enqueued texts now entry samples s)
  unfolding enqueue
  enqueue-eq =
      rw (stored-eq-jsonable texts.isoformat entry plain, enqueue)
        (rw (stored-eq-jsonable texts.isoformat (list (items_of samples)) plains, enqueue)
          (rw
            (
              bound-eq (column texts (get_of "controller_id" entry)) bindable.0,
              bound-eq (column texts (get_of "run_id" entry)) bindable.1,
            )
            refl))

  -- A report without pydantic models is accepted; the new item stands behind all pending ones,
  -- with the record that the API client would have sent, and under an id above all ids ever given.
  pending-enqueue :
      IsQueue s
      → (enqueue texts now entry samples s
          ≡ some (suc s.sequence, enqueued texts now entry samples s))
        × IsQueue (enqueued texts now entry samples s)
        × (pending none (enqueued texts now entry samples s)
            ≡ pending none s ++ row_to_item (new_row texts now entry samples s) ∷ [])
        × All (λ (i : SpoolItem). i.id < suc s.sequence) (pending none s)
  pending-enqueue q =
      let s' = enqueued texts now entry samples s in
      let q' : IsQueue s' = record {
        ascending = Ascending-snoc 0 s.sequence s.rows _ q.ascending refl;
      } in
      (
        enqueue-eq,
        q',
        rw (pending-eq none s' q', pending-eq none s q) map-append-one,
        rw (pending-eq none s q) (Ascending-ids 0 s.sequence s.rows q.ascending),
      )
    where
      map-append-one :
          map row_to_item (s.rows ++ new_row texts now entry samples s ∷ [])
          ≡ map row_to_item s.rows ++ row_to_item (new_row texts now entry samples s) ∷ []
      map-append-one = map-append row_to_item s.rows _

-- The rows that `LIMIT` cuts off.
abbrev pub beyond_limit : Option ℤ → List Row → List Row
beyond_limit none rs = []
beyond_limit (some (pos n)) rs = drop n rs
beyond_limit (some (negsuc n)) rs = []

pub limited-append :
    (limit : Option ℤ) (rows : List Row) → limited limit rows ++ beyond_limit limit rows ≡ rows
limited-append none rows = append-nil rows
limited-append (some (pos n)) rows = take-append-drop n rows
limited-append (some (negsuc n)) rows = append-nil rows
