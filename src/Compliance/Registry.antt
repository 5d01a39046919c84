-- ===== src/Compliance/Registry.antt =====
-- libs/python/odg-core/src/odg_core/compliance/registry.py
use open_data_gov.Prelude.{List, [], ◌∷◌, none, some, map}
use open_data_gov.Prelude.Dict.{put, get}
use open_data_gov.Prelude.Exec.{Result, ok, err}
use open_data_gov.Enums.Compliance.{ComplianceFramework, compliance_framework_eq}
use open_data_gov.Compliance.Protocol.{Context, ComplianceError, ComplianceResult}

-- an object that satisfies the protocol ComplianceChecker
pub record ComplianceChecker : Type 0 where
  pub framework : ComplianceFramework
  pub check : Context → Result ComplianceError ComplianceResult

-- `_checkers`
abbrev pub ComplianceRegistry : Type 0
ComplianceRegistry = List (ComplianceFramework × ComplianceChecker)

unfoldable pub register : ComplianceChecker → ComplianceRegistry → ComplianceRegistry
register checker registry = put checker.framework checker registry

unfoldable pub check :
    ComplianceFramework → Context → ComplianceRegistry → Result ComplianceError ComplianceResult
check framework context registry = elim (get framework registry) [
  | none ↦ err ComplianceError.value_error
  | some checker ↦ checker.check context
]

-- The first checker that raises ends the loop.
unfoldable pub check_all :
    Context
    → ComplianceRegistry
    → Result ComplianceError (List (ComplianceFramework × ComplianceResult))
check_all context [] = ok []
check_all context ((fw, checker) ∷ registry) =
    let rest = check_all context registry in
    elim (checker.check context) [
      | err e ↦ err e
      | ok result ↦ elim rest [ err e ↦ err e | ok results ↦ ok ((fw, result) ∷ results) ]
    ]

unfoldable pub registered_frameworks : ComplianceRegistry → List ComplianceFramework
registered_frameworks registry = map (λ e. e.0) registry
