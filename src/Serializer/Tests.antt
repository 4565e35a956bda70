-- ===== src/Serializer/Tests.antt =====
-- An order and its reports in two tables.
use system_k_dev.Base.{ℕ, ◌≡◌, refl, false, none, some, List, [], ◌∷◌, ◌++◌}
use system_k_dev.Book.Limit.{Timespec}
use system_k_dev.Route.{Bytes, bytes_eq}
use system_k_dev.Broker.Turns.{done}
use system_k_dev.Broker.Maps.{MapOps}
use system_k_dev.Broker.Assoc.{Assoc, assoc}
use system_k_dev.Broker.{set_id, Frame, OrderInfo}
use system_k_dev.OrderEntry.{ExecReport, Codec, Application, no_id}
use system_k_dev.OrderEntry.Orders.{new_order_single42}
use system_k_dev.OrderEntry.Reports.{strategy_of, on_execution_report, exec_report}
use system_k_dev.OrderEntry.Sample.{
  fix, uuid, uuid_laws, sid, oid, oid2, sell, codec, application, now, report,
}
use system_k_dev.Serializer.{
  Serializer, ord_status_rejected, ord_status_fill, ord_status_replace, update_order, handle_orders,
  side_number, or_default,
}
use system_k_dev.Serializer.Statuses.{own_id, Leaves, rows_after, update_order-Leaves}
use system_k_dev.Serializer.Rejected.{update_order-rejected}
use system_k_dev.Serializer.Filled.{order-filled}
use system_k_dev.Serializer.Table.{Tables, tables, tables-laws, tables-at, tables-answer}

abbrev order_map : MapOps (Assoc OrderInfo) OrderInfo
order_map = assoc

abbrev known : Assoc OrderInfo
known = (oid, record { oid = oid; sid = sid; status = 0 }) ∷ []

abbrev noon : Timespec
noon = record { tv_sec = 43200; tv_nsec = 5 }

abbrev empty : Tables ℕ
empty = record { rows = []; traded = [] }

-- The report that comes to the serializer.
abbrev reader : Codec ℕ
reader = record codec {
  parse_report = λ body. some (
      exec_report fix uuid codec 7 (some oid)
        (record report { cl_ord_id = some oid; ord_status = some 50 }));
}

abbrev done_with : Serializer (Tables ℕ)
done_with = record {
  strategy_id = sid;
  frames = [];
  database = record {
    rows = (sid, oid, record { order_status = 50; side = 2; order_qty = 2; price = 130 }) ∷ [];
    traded = record { order_status = 50; last_shares = 2; last_price = 130 } ∷ [];
  };
}

apart : bytes_eq no_id oid ≡ false
unfolding bytes_eq
apart = refl

update_order-rejected_example :
    (d' : Tables ℕ) × (update_order tables uuid reader 0 noon sid
        (record (exec_report fix uuid codec 7 (some oid) report) {
          cl_order_id = some oid;
          orig_cl_order_id = none;
          order_status = some ord_status_rejected;
        })
        done_with.database
      ≡ done d')
    × ((tables-laws uuid).order_at d' sid oid
        ≡ (tables-laws uuid).order_at done_with.database sid oid)
update_order-rejected_example =
    update_order-rejected tables uuid reader 0 (tables-laws uuid) (tables-answer uuid) noon sid oid
      sid oid (exec_report fix uuid codec 7 (some oid) report) done_with.database apart

-- The order is replaced by one with another id.
abbrev replacing : ExecReport ℕ
replacing = record (exec_report fix uuid codec 7 (some oid) report) {
  cl_order_id = some oid2;
  orig_cl_order_id = some oid;
  order_status = some ord_status_replace;
}

unused_id :
    (tables-laws uuid).order_at done_with.database sid
      (own_id tables uuid reader 0 (tables-laws uuid) (tables-answer uuid) replacing)
    ≡ none
unfolding bytes_eq set_id or_default
unused_id = tables-at uuid done_with.database sid oid2

update_order-Leaves_example :
    Leaves tables uuid reader 0
      (tables-laws uuid)
      (tables-answer uuid)
      done_with.database
      (update_order tables uuid reader 0 noon sid replacing done_with.database)
      (rows_after tables uuid reader 0
        (tables-laws uuid)
        (tables-answer uuid)
        ord_status_replace
        sid
        replacing
        ((tables-laws uuid).order_at done_with.database))
      []
unfolding or_default
update_order-Leaves_example =
    update_order-Leaves tables uuid reader 0 (tables-laws uuid) (tables-answer uuid) noon sid
      replacing done_with.database (λ h. unused_id)

found : strategy_of fix uuid reader order_map oid known ≡ sid
unfolding strategy_of bytes_eq
found = refl

order-filled_example :
    (a1 a2 : Application ℕ Bytes) × (gs : List Frame) × (s : Serializer (Tables ℕ))
    × (new_order_single42 fix uuid reader now sell (record application { serialization = [] })
        ≡ done a1)
    × (on_execution_report fix uuid reader order_map
          (some known)
          (record report { cl_ord_id = some oid; ord_status = some ord_status_fill })
          a1
        ≡ done (gs, a2))
    × (handle_orders tables uuid reader 0
          (noon ∷ noon ∷ [])
          (record { strategy_id = no_id; frames = a2.serialization; database = empty })
        ≡ done s)
    × (s.frames ≡ [])
    × ((tables-laws uuid).order_at s.database sid oid
        ≡ some (record { order_status = ord_status_fill; side = 2; order_qty = 2; price = 130 }))
    × ((tables-laws uuid).trades s.database
        ≡ (tables-laws uuid).trades empty
          ++ (record { order_status = 50; last_shares = 2; last_price = 130 } ∷ []))
unfolding side_number exec_report or_default
order-filled_example =
    order-filled tables uuid reader 0 (tables-laws uuid) (tables-answer uuid) fix uuid_laws
      order_map now noon noon sell application known report no_id empty refl refl found
      (tables-at uuid empty sid oid) refl refl
