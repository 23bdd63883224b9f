-- ===== src/Organization/Delete.antt =====
-- Deleting an organisation: `deleteOrg` of apps/organization/repositories/organization.repository.ts,
-- a transaction of the database client with two updates outside of it.
mod Examples
pub mod Handler
pub mod Informed
pub mod Calls
pub mod Removed
pub mod Committed
use confirmd_platform.Common.{
  ℕ, zero, suc, Bool, true, false, not, ltb, Option, none, some, List, [], ◌∷◌, map, filter, any,
  length, Text, same, if◌then◌else◌,
}
use confirmd_platform.Outcome.{Fault, Outcome, ok, err, conflict, external, organisation_referenced}
use confirmd_platform.Effect.{Stateful, ◌>>=◌, ◌>>◌, pure, throw, lift}

-- A row of a table, by its id and the organisation that it belongs to.
pub record Row : Type 0 where
  pub id : Text
  pub org_id : Option Text

-- The tables whose rows forbid the deletion.
pub data RefTable : Type 0 where
  org_agents org_dids agent_invitations connections credentials presentations file_upload : RefTable

abbrev pub tables_to_check : List RefTable
tables_to_check =
    org_agents ∷ org_dids ∷ agent_invitations ∷ connections ∷ credentials ∷ presentations
    ∷ file_upload ∷ []

pub record Tables : Type 0 where
  pub references : RefTable → List Row
  pub notifications : List Row
  pub user_activities : List Row
  pub user_org_roles : List Row
  pub org_invitations : List Row
  pub schemas : List Row
  pub credential_definitions : List Row
  pub organisations : List Row

-- `step` counts the operations, of which each may fail before it does anything.
pub record Database : Type 0 where
  pub tables : Tables
  pub step : ℕ

pub record Failures : Type 0 where
  pub failure : ℕ → Option Fault

pub record Deleted : Type 0 where
  pub user_activity : ℕ
  pub user_org_role : ℕ
  pub invitations : ℕ
  pub notification : ℕ

abbrev pub of_org : Text → Row → Bool
of_org org r = elim r.org_id [ none ↦ false | some o ↦ same o org ]

abbrev pub is_org : Text → Row → Bool
is_org org r = same r.id org

unfoldable pub without_org : Text → List Row → List Row
unfolding same
without_org org rows = filter (λ r. not (of_org org r)) rows

abbrev pub clear_row : Text → Row → Row
clear_row org r = if of_org org r then record r { org_id = none } else r

-- `updateMany` with `orgId: null`
unfoldable pub clear_org : Text → List Row → List Row
unfolding same
clear_org org rows = map (clear_row org) rows

-- A transaction that throws takes back what was done through its own client; the updates of
-- schemas and credential definitions go through another client and stay.
abbrev pub roll_back : Tables → Tables → Tables
roll_back before after = record before {
  schemas = after.schemas;
  credential_definitions = after.credential_definitions;
}

module _ (w : Failures) (org : Text) where
  unfoldable pub operation : {A : Type 0} → (Tables → Outcome A × Tables) → Stateful Database A
  operation f s = elim (w.failure s.step) [
    | some x ↦ (err x, record s { step = suc s.step })
    | none ↦ let (r, t) = f s.tables in (r, record s { tables = t; step = suc s.step })
  ]

  unfoldable pub count_all : List RefTable → Stateful Database (List ℕ)
  unfolding operation same
  count_all [] = pure []
  count_all (k ∷ ks) = do
    n ← operation (λ t. (ok (length (filter (of_org org) (t.references k))), t))
    ns ← count_all ks
    pure (n ∷ ns)

  -- `referenceCounts.forEach`
  unfoldable pub check_counts : List ℕ → Outcome (Unit {0})
  check_counts [] = ok tt
  check_counts (n ∷ ns) =
      if ltb 0 n then err (conflict organisation_referenced) else check_counts ns

  abbrev pub delete_rows : List Row → (List Row → Tables) → Outcome ℕ × Tables
  delete_rows rows put = (ok (length (filter (of_org org) rows)), put (without_org org rows))

  abbrev pub delete_row : Tables → Outcome (Unit {0}) × Tables
  delete_row t =
      if any (is_org org) t.organisations
      then (ok tt, record t { organisations = filter (λ r. not (is_org org r)) t.organisations })
      else (err (external 2025), t)

  unfoldable pub check_references : List RefTable → Stateful Database (Unit {0})
  unfolding count_all check_counts
  check_references tables = do counts ← count_all tables; lift (check_counts counts)

  unfoldable pub delete_records : Stateful Database Deleted
  unfolding operation without_org clear_org same
  delete_records = do
    notification ←
        operation (λ t. delete_rows t.notifications (λ rows. record t { notifications = rows }))
    activity ←
        operation (λ t. delete_rows t.user_activities (λ rows. record t { user_activities = rows }))
    role ←
        operation (λ t. delete_rows t.user_org_roles (λ rows. record t { user_org_roles = rows }))
    invitations ←
        operation (λ t. delete_rows t.org_invitations (λ rows. record t { org_invitations = rows }))
    operation (λ t. (ok tt, record t { schemas = clear_org org t.schemas }))
    operation
        (λ t. (ok tt, record t { credential_definitions = clear_org org t.credential_definitions }))
    operation delete_row
    pure (record {
      user_activity = activity;
      user_org_role = role;
      invitations = invitations;
      notification = notification;
    })

  unfoldable pub transaction_body : Stateful Database Deleted
  unfolding check_references delete_records
  transaction_body = check_references tables_to_check >> delete_records

  unfoldable pub delete_org : Stateful Database Deleted
  unfolding transaction_body
  delete_org s =
      let (r, s') = transaction_body s in
      elim r [
        | ok d ↦ (ok d, s')
        | err e ↦ (err e, record s' { tables = roll_back s.tables s'.tables })
      ]
