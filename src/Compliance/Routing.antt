-- ===== src/Compliance/Routing.antt =====
-- The registry sends a check to the checker that was registered last for the framework.
use open_data_gov.Prelude.{arith, ◌≡◌, ◌==◌, if◌then◌else◌, Bool-cases, inl, inr}
use open_data_gov.Prelude.Dict.{get-put}
use open_data_gov.Enums.Compliance.{ComplianceFramework, compliance_framework_eq}
use open_data_gov.Compliance.Protocol.{Context}
use open_data_gov.Compliance.Registry.{ComplianceChecker, ComplianceRegistry, register, check}

-- After a checker is registered, its framework is checked by it, whatever was registered before,
-- and every other framework is checked as before.
pub check-register :
    (checker : ComplianceChecker) (framework : ComplianceFramework) (context : Context)
    (registry : ComplianceRegistry)
    → check framework context (register checker registry) ≡ (
        if checker.framework == framework
        then checker.check context
        else check framework context registry)
unfolding check register
check-register checker framework context registry =
    let found = get-put framework checker.framework checker registry in
    elim (Bool-cases (checker.framework == framework)) [
      | inl same ↦ ground (arith, found, same)
      | inr other ↦ ground (arith, found, other)
    ]
