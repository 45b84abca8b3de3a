-- ===== src/Audit/Tamper.antt =====
-- What an edit or a deletion in the table does to the report of `verify`, packages/asas-audit.
use asas.Base.{◌≡◌, ◌≢◌, refl, sym, ◌∙◌, String, Option, none, some, List, [], ◌∷◌, ◌++◌, arith}
use asas.Audit.Chain.{
  Bytes, Codec, AuditEvent, unlinked, edited, expected_of, break_at, check_row, verify_rows,
}
use asas.Audit.Verify.{
  same_bytes_iff, same_hash_iff, IsChained, breaks_of, verify_from-breaks, check_row_iff,
  breaks_of_iff,
}

module _ (codec : Codec) (org : String) where
  verify_rows-breaks :
      (rows : List AuditEvent) → (verify_rows codec org rows).breaks ≡ breaks_of codec org none rows
  unfolding verify_rows
  verify_rows-breaks rows = ground (arith, verify_from-breaks codec org none rows 0 [])

  module _ (row row' : AuditEvent) where
    check_row-edited :
        (row'.hash_prev ≡ row.hash_prev)
        → expected_of codec org row.hash_prev row' ≢ row'.hash_current
        → check_row codec org row.hash_prev row'
          ≡ break_at codec row' (expected_of codec org row.hash_prev row') edited ∷ []
    unfolding check_row
    check_row-edited same differs = ground (
      arith,
      same_hash_iff row'.hash_prev row.hash_prev,
      same_bytes_iff (expected_of codec org row.hash_prev row') row'.hash_current,
    )

    edit-breaks :
        (prev : Option Bytes) (before after : List AuditEvent)
        → IsChained codec org prev (before ++ row ∷ after)
        → row'.hash_prev ≡ row.hash_prev
        → row'.hash_current ≡ row.hash_current
        → expected_of codec org row.hash_prev row' ≢ row'.hash_current
        → breaks_of codec org prev (before ++ row' ∷ after)
          ≡ break_at codec row' (expected_of codec org row.hash_prev row') edited ∷ []
    unfolding breaks_of
    edit-breaks prev [] after (same, own, rest) linked kept differs =
        rw
          (
            sym same,
            check_row-edited linked differs,
            kept,
            (breaks_of_iff codec org (some row.hash_current) after).1 rest,
          )
          refl
    edit-breaks prev (r ∷ rs) after (same, own, rest) linked kept differs =
        rw ((check_row_iff codec org prev r).1 (same, own))
          (edit-breaks (some r.hash_current) rs after rest linked kept differs)

  -- When a row of an intact chain is edited and its two hash columns are left as they were, the
  -- report names that row alone, and as an edited one, unless the edited columns have the same hash.
  pub edit_one_break :
      (before after : List AuditEvent) (row row' : AuditEvent)
      → IsChained codec org none (before ++ row ∷ after)
      → row'.hash_prev ≡ row.hash_prev
      → row'.hash_current ≡ row.hash_current
      → expected_of codec org row.hash_prev row' ≢ row'.hash_current
      → (verify_rows codec org (before ++ row' ∷ after)).breaks
        ≡ break_at codec row' (expected_of codec org row.hash_prev row') edited ∷ []
  edit_one_break before after row row' chained linked kept differs =
      verify_rows-breaks (before ++ row' ∷ after)
      ∙ edit-breaks row row' none before after chained linked kept differs

  module _ (gone next : AuditEvent) where
    check_row-unlinked :
        next.hash_prev ≡ some gone.hash_current
        → gone.hash_prev ≢ some gone.hash_current
        → check_row codec org gone.hash_prev next
          ≡ break_at codec next (expected_of codec org gone.hash_prev next) unlinked ∷ []
    unfolding check_row
    check_row-unlinked linked differs = ground (arith, same_hash_iff next.hash_prev gone.hash_prev)

    delete-breaks :
        (prev : Option Bytes) (before after : List AuditEvent)
        → IsChained codec org prev (before ++ gone ∷ next ∷ after)
        → gone.hash_prev ≢ some gone.hash_current
        → breaks_of codec org prev (before ++ next ∷ after)
          ≡ break_at codec next (expected_of codec org gone.hash_prev next) unlinked ∷ []
    unfolding breaks_of
    delete-breaks prev [] after (same, own, (linked, hashed, rest)) differs =
        rw
          (
            sym same,
            check_row-unlinked linked differs,
            (breaks_of_iff codec org (some next.hash_current) after).1 rest,
          )
          refl
    delete-breaks prev (r ∷ rs) after (same, own, rest) differs =
        rw ((check_row_iff codec org prev r).1 (same, own))
          (delete-breaks (some r.hash_current) rs after rest differs)

  -- When a row that is not the last is deleted from an intact chain, the report names the row after
  -- it alone, and as unlinked, unless the deleted row carried its own fingerprint as its previous one.
  pub delete_one_break :
      (before after : List AuditEvent) (gone next : AuditEvent)
      → IsChained codec org none (before ++ gone ∷ next ∷ after)
      → gone.hash_prev ≢ some gone.hash_current
      → (verify_rows codec org (before ++ next ∷ after)).breaks
        ≡ break_at codec next (expected_of codec org gone.hash_prev next) unlinked ∷ []
  delete_one_break before after gone next chained differs =
      verify_rows-breaks (before ++ next ∷ after)
      ∙ delete-breaks gone next none before after chained differs
