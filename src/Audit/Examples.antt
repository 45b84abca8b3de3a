-- ===== src/Audit/Examples.antt =====
-- The theorems on packages/asas-audit with a toy encoder in place of SHA-256 and JSON, and tests.
use asas.Base.{
  ◌≡◌, ◌≢◌, refl, String, true, none, some, [], ◌∷◌, Fields, end, field, str, null, bool, num, arr,
  obj, pos, negsuc, if◌then◌else◌, str_eq, length, arith, ◌↔◌,
}
use asas.Audit.Chain.{
  Bytes, Timestamp, Codec, AuditEvent, is_intact, verify_rows, expected_of, break_at, edited,
  unlinked, chain_payload, compute_hash,
}
use asas.Audit.Log.{postgres, Entry, new_row, append, verify, insert_event, tail_hash, rows_of}
use asas.Audit.Verify.{IsChained, verify_rows_iff}
use asas.Audit.Appends.{append-is_intact, Later, fork_refused}
use asas.Audit.Tamper.{edit_one_break, delete_one_break}

digits : Fields → Bytes
digits end = []
digits (field k (str s) rest) = (if str_eq s "void" then 1 else 0) ∷ digits rest
digits (field k null rest) = digits rest
digits (field k (bool b) rest) = digits rest
digits (field k (num n) rest) = digits rest
digits (field k (arr xs) rest) = digits rest
digits (field k (obj o) rest) = digits rest

abbrev toy : Codec
toy = record { sha256 = λ b. 7 ∷ b; dumps = digits; loads = λ b. end; isoformat = λ t. "t" }

abbrev noon : Timestamp
noon = record { wall = pos 43_200; offset = some (pos 3_600) }

abbrev entry : String → Entry
entry action = record {
  org_id = "acme";
  actor = "ann";
  action = action;
  resource_type = "invoice";
  resource_id = "1";
  payload = end;
  occurred_at = none;
}

abbrev row1 : AuditEvent
row1 = new_row toy (entry "create") none "e1" 1 noon

abbrev row2 : AuditEvent
row2 = new_row toy (entry "send") (some row1.hash_current) "e2" 2 noon

abbrev row3 : AuditEvent
row3 = new_row toy (entry "void") (some row2.hash_current) "e3" 3 noon

abbrev edited_row : AuditEvent
edited_row = record row2 { action = "void" }

second_append : append toy (row1 ∷ []) (entry "send") "e2" 2 noon ≡ some (row1 ∷ row2 ∷ [])
unfolding append digits tail_hash
second_append = refl

intact : is_intact (verify toy (postgres (negsuc 100)) (row1 ∷ []) "acme") ≡ true
unfolding verify verify_rows digits is_intact new_row rows_of compute_hash chain_payload
intact = refl

append-is_intact_example :
    is_intact (verify toy (postgres (negsuc 100)) (row1 ∷ row2 ∷ []) "acme") ≡ true
append-is_intact_example =
    append-is_intact toy (postgres (negsuc 100)) (row1 ∷ []) (row1 ∷ row2 ∷ []) (entry "send") "e2"
      2 noon "acme" second_append intact

third_insert : insert_event (row1 ∷ row2 ∷ []) row3 ≡ some (row1 ∷ row2 ∷ row3 ∷ [])
unfolding insert_event new_row digits compute_hash chain_payload
third_insert = refl

-- A rival of the second entry comes after the third.
fork_refused_example : insert_event (row1 ∷ row2 ∷ row3 ∷ []) (record row2 { id = "e9" }) ≡ none
fork_refused_example =
    fork_refused toy (row1 ∷ []) (row1 ∷ row2 ∷ []) (row1 ∷ row2 ∷ row3 ∷ []) (entry "send") "e2" 2
      noon (record row2 { id = "e9" }) row1.hash_current second_append
      (Later.then_ Later.now_ row3 third_insert) (unfold tail_hash new_row in refl)
      (unfold new_row in refl) (unfold new_row in refl)

verify_rows_iff_example :
    ((is_intact (verify_rows toy "acme" (row1 ∷ row2 ∷ [])) ≡ true)
      ↔ IsChained toy "acme" none (row1 ∷ row2 ∷ []))
    × ((verify_rows toy "acme" (row1 ∷ row2 ∷ [])).events_checked ≡ length (row1 ∷ row2 ∷ []))
verify_rows_iff_example = verify_rows_iff toy "acme" (row1 ∷ row2 ∷ [])

three : IsChained toy "acme" none (row1 ∷ row2 ∷ row3 ∷ [])
unfolding new_row digits compute_hash chain_payload
three = (refl, refl, (refl, refl, (refl, refl, tt)))

other_digits : expected_of toy "acme" row2.hash_prev edited_row ≢ edited_row.hash_current
unfolding new_row digits compute_hash chain_payload
other_digits h = ground (arith, h)

edit_one_break_example :
    (verify_rows toy "acme" (row1 ∷ edited_row ∷ row3 ∷ [])).breaks
    ≡ break_at toy edited_row (expected_of toy "acme" row2.hash_prev edited_row) edited ∷ []
edit_one_break_example =
    edit_one_break toy "acme" (row1 ∷ []) (row3 ∷ []) row2 edited_row three (unfold new_row in refl)
      (unfold new_row in refl) other_digits

longer : row2.hash_prev ≢ some row2.hash_current
unfolding new_row digits compute_hash chain_payload
longer h = ground (arith, h)

delete_one_break_example :
    (verify_rows toy "acme" (row1 ∷ row3 ∷ [])).breaks
    ≡ break_at toy row3 (expected_of toy "acme" row2.hash_prev row3) unlinked ∷ []
delete_one_break_example = delete_one_break toy "acme" (row1 ∷ []) [] row2 row3 three longer
