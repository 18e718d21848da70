-- ===== src/Db/Tests.antt =====
-- Reservations of two accounts, and the life of one sweep.
use pay.Db.Steps.{after, here, collects, broadcasts, Reaches-AreLinked}
use pay.Db.Lifecycle.{AreLinked}
use pay.Common.{◌≡◌, refl, none, [], ◌∷◌, ok, List}
use pay.Db.Types.{AccountNonce}
use pay.Db.Outbound.{Tables, Outcome, find_tx, put_tx, update_collections, mark_broadcast}
use pay.Db.Accounts.{raise_next_nonce, next_nonce_of, advance_nonce, reserve_nonce}
use pay.Db.Inserts.{insert_signed_tx_row, insert_signed_collect_tx, new_row}
use pay.Db.Nonces.{Reservation, nonces_of, AreRising, floor_of, nonces_of-AreRising}
use pay.Db.Examples.{new_tx, queued_tables, sent_tables, primary_key, sent_tx, primary_key-IsKeyed}

abbrev rows : List AccountNonce
rows = record { chain_id = 5; address = 800; next_nonce = 3 } ∷ []

abbrev reservations : List Reservation
reservations =
    record { chain_id = 5; address = 800; pending_nonce = 2 }
    ∷ record { chain_id = 5; address = 801; pending_nonce = 7 }
    ∷ record { chain_id = 5; address = 800; pending_nonce = 6 }
    ∷ record { chain_id = 5; address = 800; pending_nonce = 1 }
    ∷ []

handed_out : nonces_of 5 800 reservations rows ≡ 3 ∷ 6 ∷ 7 ∷ []
unfolding reserve_nonce raise_next_nonce next_nonce_of advance_nonce
handed_out = refl

nonces_of-AreRising_example :
    AreRising 5 800 (floor_of 5 800 rows) (nonces_of 5 800 reservations rows)
nonces_of-AreRising_example = nonces_of-AreRising 5 800 reservations rows

abbrev tables_of : Outcome → Tables
tables_of (ok (_, s)) = s
tables_of _ = queued_tables

abbrev signed_tables : Tables
signed_tables =
    tables_of (insert_signed_collect_tx primary_key 20 1 (new_tx 2 100 none) 1000 queued_tables)

signed_eq :
    insert_signed_collect_tx primary_key 20 1 (new_tx 2 100 none) 1000 queued_tables
    ≡ ok (new_row 20 (new_tx 2 100 none) none, signed_tables)
unfolding insert_signed_collect_tx insert_signed_tx_row find_tx update_collections
signed_eq = refl

sent_eq : mark_broadcast 30 2 signed_tables ≡ ok (sent_tx, sent_tables)
unfolding mark_broadcast insert_signed_collect_tx insert_signed_tx_row find_tx put_tx
    update_collections
sent_eq = refl

Reaches-AreLinked_example : AreLinked sent_tables
Reaches-AreLinked_example =
    Reaches-AreLinked primary_key primary_key-IsKeyed (tt, tt)
      (after (after here (collects 20 1 (new_tx 2 100 none) 1000 signed_eq))
        (broadcasts 30 2 sent_eq))
