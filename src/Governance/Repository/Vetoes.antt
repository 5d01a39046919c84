-- ===== src/Governance/Repository/Vetoes.antt =====
-- PgVetoRepository
use open_data_gov.Prelude.{ℕ, List, Option, none, select, ◌==◌, nat_eq}
use open_data_gov.Prelude.Exec.{pure, require, lift, gets, modify, ◌>>=◌, ◌>>◌}
use open_data_gov.Prelude.Sort.{order_by}
use open_data_gov.Models.{VetoRecord}
use open_data_gov.Governance.Session.{Error, Action, add_row, get_row, set_row}

abbrev pub veto_id : VetoRecord → ℕ
veto_id row = row.id

-- The row leaves `overridden_by` and `overridden_at` empty.
unfoldable pub veto_row : VetoRecord → VetoRecord
veto_row veto = record veto { overridden_by = none; overridden_at = none }

unfoldable pub create : VetoRecord → Action VetoRecord
create veto = do
  w ← gets (λ w. w)
  rows ← lift (add_row veto_id (veto_row veto) w.vetoes)
  modify (λ w. record w { vetoes = rows })
  pure (veto_row veto)

unfoldable pub get_by_id : ℕ → Action (Option VetoRecord)
get_by_id key = gets (λ w. get_row veto_id key w.vetoes)

unfoldable pub assign_veto : VetoRecord → VetoRecord → VetoRecord
assign_veto veto row = record row {
  status = veto.status;
  overridden_by = veto.overridden_by;
  overridden_at = veto.overridden_at;
}

unfoldable pub update : VetoRecord → Action VetoRecord
update veto = do
  w ← gets (λ w. w)
  row ← require Error.veto_not_found (get_row veto_id veto.id w.vetoes)
  modify (λ w. record w { vetoes = set_row veto_id veto.id (assign_veto veto) w.vetoes })
  pure (assign_veto veto row)

unfoldable pub list_by_decision : ℕ → Action (List VetoRecord)
list_by_decision decision_id =
    gets (λ w. order_by (λ r. r.vetoed_at) (select (λ r. r.decision_id == decision_id) w.vetoes))
