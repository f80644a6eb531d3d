-- ===== src/Web/Notices/Tests.antt =====
-- The notices of src/web/store.py at concrete inputs.
use lb_note.Base.{refl, ℕ, ◌≡◌, ◌≢◌, none, some, true, false, not, [], ◌∷◌, arith}
use lb_note.Web.Notices.{Notice, Table, get, add, latest, update, delete, is_none}
use lb_note.Web.Notices.Newest.{IsLatest, IsNumbered, latest_newest, add-latest}
use lb_note.Web.Notices.Edits.{EditedRow, update_effect, delete_effect}

abbrev board : Table
board = record {
  rows =
      record {
        id = 1;
        title = none;
        body = "hello";
        active = true;
        created_by = some "kim";
        created_at = 5;
        updated_at = 5;
      }
      ∷ record {
        id = 2;
        title = some "down";
        body = "maintenance";
        active = false;
        created_by = none;
        created_at = 7;
        updated_at = 8;
      }
      ∷ [];
  next_id = 3;
}

latest_newest_example : IsLatest (latest board) board.rows
latest_newest_example = latest_newest board

add-latest_example :
    (n : Notice) × ((add 9 "up" none none board).0 ≡ some n)
    × (latest (add 9 "up" none none board).1 ≡ some n)
    × (n.body ≡ "up")
    × (n.id ≡ 3)
    × IsNumbered (add 9 "up" none none board).1
add-latest_example = add-latest 9 "up" none none board (omega arith)

update_effect_example :
    EditedRow 9 none none (some true) (get 2 board) (update 9 2 none none (some true) board).0
update_effect_example = (update_effect 9 2 none none (some true) board).1 refl

delete_effect_example :
    ((delete 1 board).0 ≡ not (is_none (get 1 board)))
    × (get 1 (delete 1 board).1 ≡ none)
    × ((other : ℕ) → other ≢ 1 → get other (delete 1 board).1 ≡ get other board)
delete_effect_example = delete_effect 1 board
