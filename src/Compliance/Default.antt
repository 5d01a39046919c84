-- ===== src/Compliance/Default.antt =====
-- create_default_registry of libs/python/odg-core/src/odg_core/compliance/registry.py
use open_data_gov.Prelude.{[]}
use open_data_gov.Prelude.Exec.{ok}
use open_data_gov.Enums.Compliance.{ComplianceFramework}
use open_data_gov.Compliance.Lgpd.{lgpd_check}
use open_data_gov.Compliance.Gdpr.{gdpr_check}
use open_data_gov.Compliance.Sox.{sox_check}
use open_data_gov.Compliance.NistAiRmf.{nist_ai_rmf_check}
use open_data_gov.Compliance.Iso42001.{iso_42001_check}
use open_data_gov.Compliance.EuAiAct.{eu_ai_act_check}
use open_data_gov.Compliance.Dama.{dama_check}
use open_data_gov.Compliance.Registry.{ComplianceChecker, ComplianceRegistry, register}

abbrev pub lgpd_checker : ComplianceChecker
lgpd_checker = record {
  framework = ComplianceFramework.lgpd;
  check = λ context. ok (lgpd_check context);
}

abbrev pub gdpr_checker : ComplianceChecker
gdpr_checker = record {
  framework = ComplianceFramework.gdpr;
  check = λ context. ok (gdpr_check context);
}

abbrev pub eu_ai_act_checker : ComplianceChecker
eu_ai_act_checker = record { framework = ComplianceFramework.eu_ai_act; check = eu_ai_act_check }

abbrev pub nist_ai_rmf_checker : ComplianceChecker
nist_ai_rmf_checker = record {
  framework = ComplianceFramework.nist_ai_rmf;
  check = λ context. ok (nist_ai_rmf_check context);
}

abbrev pub iso_42001_checker : ComplianceChecker
iso_42001_checker = record {
  framework = ComplianceFramework.iso_42001;
  check = λ context. ok (iso_42001_check context);
}

abbrev pub sox_checker : ComplianceChecker
sox_checker = record {
  framework = ComplianceFramework.sox;
  check = λ context. ok (sox_check context);
}

abbrev pub dama_checker : ComplianceChecker
dama_checker = record { framework = ComplianceFramework.dama_dmbok; check = dama_check }

unfoldable pub create_default_registry : ComplianceRegistry
unfolding register
create_default_registry = register dama_checker (
    register sox_checker (
      register iso_42001_checker (
        register nist_ai_rmf_checker
          (register eu_ai_act_checker (register gdpr_checker (register lgpd_checker []))))))
