-- ===== src/Compliance/Registered.antt =====
-- What the default registry does with each framework.
use open_data_gov.Prelude.{◌≡◌, refl, List, [], ◌∷◌, none, some, inl, inr, arith}
use open_data_gov.Prelude.Dict.{put, get}
use open_data_gov.Prelude.Exec.{Result, ok, err, Result-cases}
use open_data_gov.Enums.Compliance.{ComplianceFramework, compliance_framework_eq}
use open_data_gov.Compliance.Protocol.{Context, ComplianceError, ComplianceResult}
use open_data_gov.Compliance.Lgpd.{lgpd_check}
use open_data_gov.Compliance.Gdpr.{gdpr_check}
use open_data_gov.Compliance.Sox.{sox_check}
use open_data_gov.Compliance.NistAiRmf.{nist_ai_rmf_check}
use open_data_gov.Compliance.Iso42001.{iso_42001_check}
use open_data_gov.Compliance.EuAiAct.{eu_ai_act_check}
use open_data_gov.Compliance.Dama.{dama_check}
use open_data_gov.Compliance.Registry.{ComplianceRegistry, register, check, check_all}
use open_data_gov.Compliance.Default.{create_default_registry}

-- the checker of a framework
abbrev pub checked : ComplianceFramework → Context → Result ComplianceError ComplianceResult
checked ComplianceFramework.lgpd context = ok (lgpd_check context)
checked ComplianceFramework.gdpr context = ok (gdpr_check context)
checked ComplianceFramework.eu_ai_act context = eu_ai_act_check context
checked ComplianceFramework.nist_ai_rmf context = ok (nist_ai_rmf_check context)
checked ComplianceFramework.iso_42001 context = ok (iso_42001_check context)
checked ComplianceFramework.sox context = ok (sox_check context)
checked ComplianceFramework.dama_dmbok context = dama_check context

-- In the default registry every framework is checked by its own checker.
pub check-create_default_registry :
    (framework : ComplianceFramework) (context : Context)
    → check framework context create_default_registry ≡ checked framework context
unfolding check create_default_registry register get put
check-create_default_registry ComplianceFramework.lgpd context = refl
check-create_default_registry ComplianceFramework.gdpr context = refl
check-create_default_registry ComplianceFramework.eu_ai_act context = refl
check-create_default_registry ComplianceFramework.nist_ai_rmf context = refl
check-create_default_registry ComplianceFramework.iso_42001 context = refl
check-create_default_registry ComplianceFramework.sox context = refl
check-create_default_registry ComplianceFramework.dama_dmbok context = refl

-- the outcome of a check, read from the results of all checks
abbrev pub read_result :
    ComplianceFramework
    → List (ComplianceFramework × ComplianceResult)
    → Result ComplianceError ComplianceResult
read_result framework results = elim (get framework results) [
  | none ↦ err ComplianceError.value_error
  | some result ↦ ok result
]

-- Where checking all frameworks succeeds, its results are those of the single checks, for every
-- framework: one that is not registered has no result, and its check fails.
pub check-check_all :
    (framework : ComplianceFramework) (context : Context) (registry : ComplianceRegistry)
    (results : List (ComplianceFramework × ComplianceResult))
    → check_all context registry ≡ ok results
    → check framework context registry ≡ read_result framework results
unfolding check check_all get
check-check_all framework context [] results done = ground (arith, done)
check-check_all framework context ((fw, checker) ∷ registry) results done =
    elim (Result-cases (checker.check context)) [
      | inr (e, failed) ↦ ground (arith, done, failed)
      | inl (result, passed) ↦ elim (Result-cases (check_all context registry)) [
        | inr (e, failed) ↦ ground (arith, done, passed, failed)
        | inl (rest, all_passed) ↦
            let later = check-check_all framework context registry rest all_passed in
            ground (arith, done, passed, all_passed, later)
      ]
    ]
