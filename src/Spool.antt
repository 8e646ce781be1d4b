-- ===== src/Spool.antt =====
-- `Spool` of `hmasync_controller/spool.py`: the SQLite table as its rows and the counter that
-- AUTOINCREMENT keeps beside it. `Order` has the theorems.
pub mod Order
use async_energy_controller.Base.{
  ℕ, suc, ◌^◌, ◌-◌, ◌&&◌, String, Bool, not, Option, none, some, List, [], ◌∷◌, ◌++◌, map, ◌==◌,
  leb, take, length, if◌then◌else◌,
}
use async_energy_controller.Base.Int.{ℤ, pos, negsuc, leb_ℤ}
use async_energy_controller.Value.{
  Value, null, bool, int, float, str, datetime, nan, list, dict, get, items_of, values_of, PyText,
}
use async_energy_controller.Base.Options.{◌>>=◌}
use async_energy_controller.Value.Encode.{stored}

-- A row, its two JSON columns as the values that `json.loads` makes of them.
pub record Row : Type 0 where
  pub id : ℕ
  pub created_at : String
  pub controller_id : Value
  pub run_id : Value
  pub entry : Value
  pub samples : Value

pub record Spool : Type 0 where
  pub rows : List Row
  pub sequence : ℕ

pub record SpoolItem : Type 0 where
  pub id : ℕ
  pub controller_id : Value
  pub run_id : Value
  pub entry : Value
  pub samples : List Value
  pub created_at : String

abbrev pub empty : Spool
empty = record { rows = []; sequence = 0 }

-- `record.get(key) if isinstance(record, dict) else None`.
abbrev pub get_of : String → Value → Value
get_of k (dict fs) = get k fs
get_of k _ = null

-- What a column of texts holds of a bound value; none where sqlite3 cannot bind it.
unfoldable pub column : PyText → Value → Option Value
column texts null = some null
column texts (float nan) = some null
column texts (str s) = some (str s)
column texts (bool b) = some (str (texts.column_text (bool b)))
column texts (int n) =
    if leb_ℤ (negsuc (2 ^ 63 - 1)) n && leb_ℤ n (pos (2 ^ 63 - 1))
    then some (str (texts.column_text (int n)))
    else none
column texts (float x) = some (str (texts.column_text (float x)))
column texts (datetime t) = some (str (texts.column_text (datetime t)))
column texts _ = none

-- `none` is the `TypeError` of `json.dumps`, or the error of sqlite3 for a controller id or a run id that it
-- cannot bind; the table is left as it is. `now` is
-- `datetime.now(timezone.utc).isoformat()`.
unfoldable pub enqueue : PyText → String → Value → List Value → Spool → Option (ℕ × Spool)
unfolding column
enqueue texts now entry samples s = do
  entry' ← stored texts.isoformat entry
  samples' ← stored texts.isoformat (list (items_of samples))
  controller_id ← column texts (get_of "controller_id" entry)
  run_id ← column texts (get_of "run_id" entry)
  some (
    suc s.sequence,
    record {
      rows =
          s.rows
          ++ record {
            id = suc s.sequence;
            created_at = now;
            controller_id = controller_id;
            run_id = run_id;
            entry = entry';
            samples = samples';
          }
            ∷ [];
      sequence = suc s.sequence;
    },
  )

-- `DELETE FROM spool WHERE id = ?`.
unfoldable pub delete_rows : ℕ → List Row → List Row
delete_rows i [] = []
delete_rows i (r ∷ rs) = let rest = delete_rows i rs in if r.id == i then rest else r ∷ rest

unfoldable pub remove : ℕ → Spool → Spool
remove i s = record s { rows = delete_rows i s.rows }

unfoldable pub clear : Spool → Spool
clear s = record s { rows = [] }

-- `ORDER BY id ASC`.
unfoldable pub insert_by_id : Row → List Row → List Row
insert_by_id r [] = r ∷ []
insert_by_id r (x ∷ xs) =
    let rest = insert_by_id r xs in if leb r.id x.id then r ∷ x ∷ xs else x ∷ rest

unfoldable pub order_by_id : List Row → List Row
unfolding insert_by_id
order_by_id [] = []
order_by_id (r ∷ rs) = insert_by_id r (order_by_id rs)

-- `LIMIT ?`: a negative limit is none.
abbrev pub limited : Option ℤ → List Row → List Row
limited none rs = rs
limited (some (pos n)) rs = take n rs
limited (some (negsuc n)) rs = rs

abbrev pub samples_of : Value → List Value
samples_of (list vs) = values_of vs
samples_of _ = []

unfoldable pub row_to_item : Row → SpoolItem
row_to_item r = record {
  id = r.id;
  controller_id = r.controller_id;
  run_id = r.run_id;
  entry = r.entry;
  samples = samples_of r.samples;
  created_at = r.created_at;
}

unfoldable pub pending : Option ℤ → Spool → List SpoolItem
pending limit s = map row_to_item (limited limit (order_by_id s.rows))

unfoldable pub count : Spool → ℕ
count s = length s.rows
