-- ===== src/Governance/Trail/Integrity.antt =====
-- The trail of a run verifies where its times grow.
use open_data_gov.Prelude.{ℕ, zero, suc, ◌≡◌, refl, ap, true, List, [], ◌∷◌, ◌++◌, take, drop}
use open_data_gov.Prelude.Exec.{ok, ◌>>=◌}
use open_data_gov.Prelude.Sort.{order_by-IsIncreasing, IsIncreasing}
use open_data_gov.Runtime.{Runtime, IsRegular}
use open_data_gov.Audit.{genesis_hash, verify_chain}
use open_data_gov.Audit.Chain.{IsChain, IsChain-prefix, verify_chain_iff}
use open_data_gov.Governance.Session.{World, empty_world}
use open_data_gov.Governance.Repository.Events
use open_data_gov.Governance.Repository.Events.{occurred_at}
use open_data_gov.Governance.AuditService.{verify_integrity}
use open_data_gov.Governance.Api.{Request, run}
use open_data_gov.Governance.Respects.{Respects}
use open_data_gov.Governance.Requests.{rolled_back, run-Follows}
use open_data_gov.Governance.Trail.Record.{
  KeepsAudited, KeepsAudited-IsPreorder, silent-KeepsAudited, record_event-KeepsAudited,
}
use open_data_gov.Governance.Trail.Services.{silent-Respects}

take-drop {ℓ} : {A : Type ℓ} (n : ℕ) (xs : List A) → take n xs ++ drop n xs ≡ xs
take-drop zero xs = refl
take-drop (suc n) [] = refl
take-drop (suc n) (x ∷ xs) = ap (λ ys. x ∷ ys) (take-drop n xs)

module _ ⦃rt : Runtime⦄ where
  -- Where the times of the stored events grow, the check reads the oldest `limit` events and no
  -- other: its verdict is that of `verify_chain` on them, whatever comes later.
  pub verify_integrity_oldest :
      (w : World) (limit : ℕ)
      → IsIncreasing occurred_at w.events
      → verify_integrity limit w ≡ (ok (verify_chain (take limit w.events)), w)
  unfolding verify_integrity Events.get_chain ◌>>=◌
  verify_integrity_oldest w limit growing = rw (order_by-IsIncreasing occurred_at w.events growing)

  module _ (regular : IsRegular rt) where
    KeepsAudited-Respects : Respects KeepsAudited
    KeepsAudited-Respects =
        silent-Respects KeepsAudited-IsPreorder silent-KeepsAudited λ t a b c d details. record {
          at = λ w. record_event-KeepsAudited t a b c d details w regular;
        }

    run-IsChain :
        (requests : List Request)
        → IsIncreasing occurred_at (run empty_world requests).events
        → IsChain genesis_hash (run empty_world requests).events
    run-IsChain requests growing =
        (run-Follows KeepsAudited-Respects (λ w w' h. silent-KeepsAudited w (rolled_back w w') refl)
            empty_world requests).kept
          growing tt

    -- After any sequence of requests to an engine with empty tables, whatever they ask and however
    -- they end, if the times of the events that were stored grow strictly in the order in which
    -- they were stored, the integrity check answers true, at every limit. Digests are taken to
    -- have 64 characters. Of a clock that stands still or goes back between two stored events it
    -- states nothing.
    pub run-verify_integrity :
        (requests : List Request) (limit : ℕ)
        → IsIncreasing occurred_at (run empty_world requests).events
        → (verify_integrity limit (run empty_world requests)).0 ≡ ok true
    run-verify_integrity requests limit growing =
        let w : World = run empty_world requests in
        rw (verify_integrity_oldest w limit growing) (
          ap ok (
            (verify_chain_iff (take limit w.events)).1 (
              IsChain-prefix genesis_hash (take limit w.events) (drop limit w.events)
                (rw take-drop (run-IsChain requests growing)))))
