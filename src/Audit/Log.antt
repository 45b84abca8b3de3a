-- ===== src/Audit/Log.antt =====
-- `append`, `verify` and `history` of packages/asas-audit/src/asas_audit/service.py. The table is the
-- list of its rows in the order of `seq`. The lock makes the tail read and the insert one step.
use asas.Base.{
  ℕ, String, Bool, Option, none, some, List, [], ◌∷◌, ◌++◌, ◌&&◌, if◌then◌else◌, Fields, ℤ, pos,
  ◌+ℤ◌, str_eq, first_where, is_some, map,
}
use asas.Audit.Chain.{
  Bytes, same_hash, Timestamp, utc, Codec, AuditEvent, VerifyReport, normalize_payload,
  chain_payload, compute_hash, verify_rows,
}

-- How a stored moment comes back: SQLite drops the offset, Postgres answers in the session's zone.
pub data Engine : Type 0 where
  sqlite : Engine
  postgres : ℤ → Engine

unfoldable pub read_time : Engine → Timestamp → Timestamp
unfolding utc
read_time sqlite t = record { wall = t.wall; offset = none }
read_time (postgres zone) t = record { wall = utc t +ℤ zone; offset = some zone }

unfoldable pub read_row : Engine → AuditEvent → AuditEvent
read_row e r = record r { occurred_at = read_time e r.occurred_at }

-- `occurred_at` at the door: the same moment in UTC.
unfoldable pub in_utc : Timestamp → Timestamp
unfolding utc
in_utc t = record { wall = utc t; offset = some (pos 0) }

abbrev pub of_org : String → AuditEvent → Bool
of_org org r = str_eq r.org_id org

-- WHERE org_id = … ORDER BY seq
unfoldable pub rows_of : String → List AuditEvent → List AuditEvent
rows_of org [] = []
rows_of org (r ∷ rs) = let rest = rows_of org rs in if of_org org r then r ∷ rest else rest

-- `_tail`: the newest row of the organisation, and its fingerprint.
unfoldable pub tail_hash : String → List AuditEvent → Option Bytes
tail_hash org [] = none
tail_hash org (r ∷ rs) =
    let later = tail_hash org rs in
    if of_org org r then (elim later [ none ↦ some r.hash_current | some h ↦ some h ]) else later

-- The key of the unique index on (org_id, hash_prev), where NULLs are distinct.
abbrev pub forks : AuditEvent → AuditEvent → Bool
forks new r = of_org new.org_id r && is_some new.hash_prev && same_hash r.hash_prev new.hash_prev

-- INSERT: `none` is an IntegrityError.
unfoldable pub insert_event : List AuditEvent → AuditEvent → Option (List AuditEvent)
unfolding first_where same_hash
insert_event log new =
    if is_some (first_where (forks new) log) then none else some (log ++ new ∷ [])

pub record Entry : Type 0 where
  pub org_id : String
  pub actor : String
  pub action : String
  pub resource_type : String
  pub resource_id : String
  pub payload : Fields
  pub occurred_at : Option Timestamp

abbrev pub or_now : Option Timestamp → Timestamp → Timestamp
or_now none now = now
or_now (some t) now = t

module _ (codec : Codec) where
  -- The row of an entry that chains off `prev`, before it is hashed; `id` and `seq` are drawn for it.
  unfoldable pub unhashed : Entry → Option Bytes → String → ℕ → Timestamp → AuditEvent
  unhashed x prev id seq now = record {
    seq = seq;
    id = id;
    org_id = x.org_id;
    actor = x.actor;
    action = x.action;
    resource_type = x.resource_type;
    resource_id = x.resource_id;
    payload = normalize_payload codec x.payload;
    occurred_at = in_utc (or_now x.occurred_at now);
    hash_prev = prev;
    hash_current = [];
  }

  unfoldable pub new_row : Entry → Option Bytes → String → ℕ → Timestamp → AuditEvent
  unfolding unhashed
  new_row x prev id seq now =
      let row = unhashed x prev id seq now in
      record row { hash_current = compute_hash codec prev (chain_payload codec x.org_id row) }

  unfoldable pub append :
      List AuditEvent → Entry → String → ℕ → Timestamp → Option (List AuditEvent)
  unfolding insert_event new_row
  append log x id seq now = insert_event log (new_row x (tail_hash x.org_id log) id seq now)

  unfoldable pub verify : Engine → List AuditEvent → String → VerifyReport
  unfolding read_row
  verify e log org = verify_rows codec org (map (read_row e) (rows_of org log))
