-- ===== src/Publisher/Rows.antt =====
-- The SQL statements of internal/store/managed.go on the revision table, as functions on its rows.
-- A new row is put in front: every query orders by the revision number or asks for one row.
use Prim.Native.Nat.{max}
use m_ui.Prelude.{
  ℕ, zero, suc, ◌+◌, Bool, true, false, not, Option, none, some, List, [], ◌∷◌, keep, length, ltb,
  ◌==◌, ◌&&◌, ◌||◌, if◌then◌else◌,
}
use m_ui.Publisher.World.{
  Revision, RevisionStatus, AuditEntry, pending, active, failed, rolled_back,
}
use m_ui.Publisher.Monad.{
  Result, ok, err, constraint_violated, multiple_active_revisions, retention_not_positive,
}

abbrev pub is_active : RevisionStatus → Bool
is_active active = true
is_active _ = false

abbrev pub is_pending : RevisionStatus → Bool
is_pending pending = true
is_pending _ = false

abbrev pub is_finished : RevisionStatus → Bool
is_finished failed = true
is_finished rolled_back = true
is_finished _ = false

-- `WHERE status = 'active'`.
abbrev pub actives : List Revision → List Revision
actives = keep (λ r. is_active r.status)

-- `LIMIT 2`: none, the one, or an error.
abbrev pub one_active : List Revision → Result (Option Revision)
one_active [] = ok none
one_active (r ∷ []) = ok (some r)
one_active (r ∷ s ∷ rest) = err (multiple_active_revisions ∷ [])

abbrev pub highest_number : List Revision → ℕ
highest_number [] = 0
highest_number (r ∷ rs) = max r.revision_number (highest_number rs)

-- `COALESCE(MAX(revision_number), 0) + 1`.
unfoldable pub next_number : List Revision → ℕ
next_number rs = highest_number rs + 1

-- `id` is the primary key and `revision_number` is unique.
unfoldable pub clashes : Revision → List Revision → Bool
clashes r [] = false
clashes r (s ∷ rs) = r.id == s.id || r.revision_number == s.revision_number || clashes r rs

-- The first argument says whether the actor is empty or an administrator: a foreign key.
unfoldable pub insert_row : Bool → Revision → List Revision → Result (List Revision)
unfolding clashes
insert_row is_known r rs =
    if not is_known || clashes r rs then err (constraint_violated ∷ []) else ok (r ∷ rs)

abbrev pub has_entry : ℕ → List AuditEntry → Bool
has_entry id [] = false
has_entry id (a ∷ entries) = id == a.id || has_entry id entries

-- `id` is the primary key of `audit_logs`, and its actor is a foreign key as above.
unfoldable pub insert_entry : Bool → AuditEntry → List AuditEntry → Result (List AuditEntry)
insert_entry is_known a entries =
    if not is_known || has_entry a.id entries
    then err (constraint_violated ∷ [])
    else ok (a ∷ entries)

-- `UPDATE … SET status = 'rolled_back' WHERE status = 'active'`.
unfoldable pub retire_row : Revision → Revision
retire_row r = if is_active r.status then record r { status = rolled_back } else r

abbrev pub is_target : ℕ → Revision → Bool
is_target id r = r.id == id && is_pending r.status

-- `UPDATE … SET status = 'active', activated_at = ?, … WHERE id = ? AND status = 'pending'`.
unfoldable pub promote_row : ℕ → ℕ → Revision → Revision
promote_row id at r =
    if is_target id r
    then record r { status = active; activated_at = some at; error_message = none }
    else r

-- `RowsAffected` of that update.
abbrev pub affected : ℕ → List Revision → ℕ
affected id rs = length (keep (is_target id) rs)

-- Highest number first.
unfoldable pub insert_ordered : Revision → List Revision → List Revision
insert_ordered r [] = r ∷ []
insert_ordered r (s ∷ rs) =
    if ltb r.revision_number s.revision_number then s ∷ insert_ordered r rs else r ∷ s ∷ rs

unfoldable pub order_rows : List Revision → List Revision
unfolding insert_ordered
order_rows [] = []
order_rows (r ∷ rs) = insert_ordered r (order_rows rs)

abbrev pub skip {ℓ} : {A : Type ℓ} → ℕ → List A → List A
skip zero xs = xs
skip (suc n) [] = []
skip (suc n) (x ∷ xs) = skip n xs

-- `InactiveRevisionsBeyond`: the retired and failed rows after the newest `limit` of them.
unfoldable pub inactive_beyond : ℕ → List Revision → Result (List Revision)
unfolding order_rows
inactive_beyond limit rs =
    if ltb limit 1
    then err (retention_not_positive ∷ [])
    else ok (skip limit (order_rows (keep (λ r. is_finished r.status) rs)))

-- `DELETE … WHERE id = ? AND status <> 'active'`.
abbrev pub is_deletable : ℕ → Revision → Bool
is_deletable id r = r.id == id && not (is_active r.status)

unfoldable pub delete_row : ℕ → List Revision → List Revision
delete_row id = keep (λ r. not (is_deletable id r))

abbrev pub deleted : ℕ → List Revision → ℕ
deleted id rs = length (keep (is_deletable id) rs)
