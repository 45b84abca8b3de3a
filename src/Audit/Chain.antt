-- ===== src/Audit/Chain.antt =====
-- packages/asas-audit/src/asas_audit/chain.py. SHA-256, the JSON encoder and decoder and the
-- spelling of a moment are the fields of `Codec`, a parameter.
use asas.Base.{
  ℕ, ◌+◌, String, Bool, true, false, Option, none, some, List, [], ◌∷◌, ◌++◌, ◌==◌, ◌&&◌, not,
  if◌then◌else◌, Fields, end, field, obj, str, ℤ, ◌-ℤ◌,
}

abbrev pub Bytes : Type 0
Bytes = List ℕ

-- `==` on byte strings.
unfoldable pub same_bytes : Bytes → Bytes → Bool
same_bytes [] [] = true
same_bytes [] (b ∷ bs) = false
same_bytes (a ∷ r) [] = false
same_bytes (a ∷ r) (b ∷ bs) = a == b && same_bytes r bs

unfoldable pub same_hash : Option Bytes → Option Bytes → Bool
unfolding same_bytes
same_hash none none = true
same_hash none (some b) = false
same_hash (some a) none = false
same_hash (some a) (some b) = same_bytes a b

-- A datetime: its wall clock, in microseconds, and its offset from UTC if it is aware.
pub record Timestamp : Type 0 where
  pub wall : ℤ
  pub offset : Option ℤ

-- A naive value is read as UTC.
unfoldable pub utc : Timestamp → ℤ
utc t = elim t.offset [ none ↦ t.wall | some o ↦ t.wall -ℤ o ]

pub record Codec : Type 0 where
  -- `hashlib.sha256(…).digest()`
  pub sha256 : Bytes → Bytes
  -- `json.dumps(…, sort_keys=True, separators=(",", ":"), default=str).encode()` and `json.loads`
  pub dumps : Fields → Bytes
  pub loads : Bytes → Fields
  -- `isoformat()` of a moment in UTC
  pub isoformat : ℤ → String

-- The stored columns of an event.
pub record AuditEvent : Type 0 where
  pub seq : ℕ
  pub id : String
  pub org_id : String
  pub actor : String
  pub action : String
  pub resource_type : String
  pub resource_id : String
  pub payload : Fields
  pub occurred_at : Timestamp
  pub hash_prev : Option Bytes
  pub hash_current : Bytes

pub record ChainBreak : Type 0 where
  pub event_id : String
  pub seq : ℕ
  pub action : String
  pub expected_hash : Bytes
  pub stored_hash : Bytes
  pub detail : String

pub record VerifyReport : Type 0 where
  pub org_id : String
  pub events_checked : ℕ
  pub breaks : List ChainBreak

unfoldable pub is_intact : VerifyReport → Bool
is_intact r = elim r.breaks [ [] ↦ true | b ∷ bs ↦ false ]

unfoldable pub first_break : VerifyReport → Option ChainBreak
first_break r = elim r.breaks [ [] ↦ none | b ∷ bs ↦ some b ]

abbrev pub or_empty : Option Bytes → Bytes
or_empty none = []
or_empty (some b) = b

abbrev pub unlinked : String
unlinked = "does not link to the previous entry: a row was deleted, inserted, or reordered"

abbrev pub edited : String
edited = "its own columns no longer hash to its stored fingerprint: the row was edited"

module _ (codec : Codec) where
  open codec use {sha256, dumps, loads, isoformat}

  -- `_str_keys` has nothing to do: the keys of `Fields` are strings.
  unfoldable pub normalize_payload : Fields → Fields
  normalize_payload payload = loads (dumps payload)

  unfoldable pub canonical_timestamp : Timestamp → String
  canonical_timestamp t = isoformat (utc t)

  -- Exactly what gets hashed, rebuilt from the columns under the organisation that is verified.
  unfoldable pub chain_payload : String → AuditEvent → Fields
  unfolding canonical_timestamp
  chain_payload org r = field "id" (str r.id) (
      field "org_id" (str org) (
        field "actor" (str r.actor) (
          field "action" (str r.action) (
            field "resource_type" (str r.resource_type) (
              field "resource_id" (str r.resource_id) (
                field "payload" (obj r.payload)
                  (field "occurred_at" (str (canonical_timestamp r.occurred_at)) end)))))))

  unfoldable pub compute_hash : Option Bytes → Fields → Bytes
  compute_hash prev payload = sha256 (or_empty prev ++ dumps payload)

  abbrev pub expected_of : String → Option Bytes → AuditEvent → Bytes
  expected_of org prev r = compute_hash prev (chain_payload org r)

  unfoldable pub break_at : AuditEvent → Bytes → String → ChainBreak
  break_at r expected detail = record {
    event_id = r.id;
    seq = r.seq;
    action = r.action;
    expected_hash = expected;
    stored_hash = r.hash_current;
    detail = detail;
  }

  -- The breaks that one row adds.
  unfoldable pub check_row : String → Option Bytes → AuditEvent → List ChainBreak
  unfolding same_hash break_at
  check_row org prev r =
      let expected = expected_of org prev r in
      if not (same_hash r.hash_prev prev)
      then break_at r expected unlinked ∷ []
      else if not (same_bytes expected r.hash_current)
      then break_at r expected edited ∷ []
      else []

  -- The loop: each row is chained off what the row before it has stored.
  unfoldable pub verify_from :
      String → Option Bytes → List AuditEvent → ℕ → List ChainBreak → ℕ × List ChainBreak
  unfolding check_row
  verify_from org prev [] checked breaks = (checked, breaks)
  verify_from org prev (r ∷ rs) checked breaks =
      verify_from org (some r.hash_current) rs (checked + 1) (breaks ++ check_row org prev r)

  unfoldable pub verify_rows : String → List AuditEvent → VerifyReport
  unfolding verify_from
  verify_rows org rows =
      let (checked, breaks) = verify_from org none rows 0 [] in
      record { org_id = org; events_checked = checked; breaks = breaks }
