-- ===== src/Storage/Sqlite/Reads.antt =====
-- `get`, `tombstoned_at`, `list` and `list_bodies` of `SqliteStore` against the in-memory adapter.
use veyora.Prelude.{
  ℕ, ◌^◌, ◌<◌, ◌≡◌, refl, sym, Bytes, Option, none, some, [], ◌∷◌, map, ok, err, lt→ltb, bytes_eq,
  filter,
}
use veyora.Storage.Assoc.{lookup}
use veyora.Storage.Port.{not_found}
use veyora.Storage.Memory.{InMemoryStore, values, paged, vault_rows, sort_by_id, summary}
use veyora.Storage.Memory
use veyora.Storage.Memory.Listing.{map-take, map-drop, paged-drop}
use veyora.Storage.Sql.{Row, Table, run, call, ◌>>>◌, done}
use veyora.Storage.Sqlite.{
  get, stamp_of, list, list_bodies, limit_rows, skip_rows, columns_of, found,
}
use veyora.Storage.Sqlite.Represents.{Represents, rows_of, lookup-rows, columns_at, stamp_at}

get_found :
    (t : Table) (o : Option Row)
    → run (found o >>> λ row. done (ok row.columns)) [] t
      ≡ (elim (columns_at o) [ none ↦ err not_found | some r ↦ ok r ], t)
unfolding run
get_found t none = refl
get_found t (some row) = refl

-- On a table that represents a store, a read has the in-memory adapter's result, and the table stays.
pub get_agrees :
    (vault id : Bytes) (t : Table) (s : InMemoryStore)
    → Represents t s
    → get [] vault id t ≡ (Memory.get vault id s, t)
unfolding get Memory.get call run
get_agrees vault id t s v =
    rw (Memory.get, lookup-rows (vault, id) t s v) (get_found t (lookup (vault, id) t))

stamp_found_at :
    (vault id : Bytes) (t : Table) (s : InMemoryStore) (o : Option Row)
    → lookup (vault, id) s.rows ≡ columns_at o
    → lookup (vault, id) s.tombstoned_at ≡ stamp_at o
    → run (found o >>> λ row. done (ok row.tombstoned_at)) [] t ≡ (Memory.stamp_of vault id s, t)
unfolding run Memory.stamp_of Memory.get
stamp_found_at vault id t s none f g = rw (Memory.stamp_of, Memory.get, f) refl
stamp_found_at vault id t s (some row) f g = rw (Memory.stamp_of, Memory.get, f) (rw g refl)

-- On a table that represents a store, a row's deletion stamp is the in-memory adapter's.
pub stamp_of_agrees :
    (vault id : Bytes) (t : Table) (s : InMemoryStore)
    → Represents t s
    → stamp_of [] vault id t ≡ (Memory.stamp_of vault id s, t)
unfolding stamp_of call run
stamp_of_agrees vault id t s v =
    stamp_found_at vault id t s (lookup (vault, id) t) (lookup-rows (vault, id) t s v)
      (v.stamps (vault, id))

values-rows_of : (t : Table) → values (rows_of t) ≡ map columns_of (values t)
unfolding rows_of
values-rows_of [] = refl
values-rows_of ((k, row) ∷ t) = rw (values-rows_of t) refl

page_agrees :
    (vault : Bytes) (limit offset : ℕ) (t : Table) (s : InMemoryStore)
    → Represents t s
    → limit < 2 ^ 63
    → offset < 2 ^ 63
    → limit_rows limit (
        skip_rows offset
          (sort_by_id (filter (λ r. bytes_eq r.vault_id vault) (map columns_of (values t)))))
      ≡ Memory.list_bodies vault limit offset s
unfolding Memory.list_bodies vault_rows
page_agrees vault limit offset t s v hl ho =
    rw (lt→ltb limit (2 ^ 63) hl, lt→ltb offset (2 ^ 63) ho, v.rows, values-rows_of t)
      (sym (paged-drop _ limit offset))

-- On a table that represents a store, a page of records is the in-memory adapter's, for a limit and
-- an offset that fit a signed 64-bit integer.
pub list_bodies_agrees :
    (vault : Bytes) (limit offset : ℕ) (t : Table) (s : InMemoryStore)
    → Represents t s
    → limit < 2 ^ 63
    → offset < 2 ^ 63
    → list_bodies [] vault limit offset t ≡ (ok (Memory.list_bodies vault limit offset s), t)
unfolding list_bodies call run
list_bodies_agrees vault limit offset t s v hl ho =
    rw (page_agrees vault limit offset t s v hl ho) refl

-- On a table that represents a store, a page of summaries is the in-memory adapter's, for a limit and
-- an offset that fit a signed 64-bit integer.
pub list_agrees :
    (vault : Bytes) (limit offset : ℕ) (t : Table) (s : InMemoryStore)
    → Represents t s
    → limit < 2 ^ 63
    → offset < 2 ^ 63
    → list [] vault limit offset t ≡ (ok (Memory.list vault limit offset s), t)
unfolding list call run Memory.list Memory.list_bodies
list_agrees vault limit offset t s v hl ho =
    rw (page_agrees vault limit offset t s v hl ho)
      (rw (Memory.list_bodies, Memory.list, paged-drop, paged-drop, map-take, map-drop) refl)
