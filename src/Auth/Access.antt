-- ===== src/Auth/Access.antt =====
-- Who passes the check of a role.
use open_data_gov.Prelude.{
  String, ◌≡◌, ◌↔◌, refl, true, false, In, none, some, any, ◌==◌, string_eq, arith, Bool-cases, inl,
  inr, Option-cases, ==_refl, ==_sound, subst,
}
use open_data_gov.Prelude.Members.{any-In, In-any}
use open_data_gov.Prelude.Exec.{ok, pure, raise, raise_if, ◌>>=◌}
use open_data_gov.Enums.Governance.{RaciRole, raci_role_value}
use open_data_gov.Auth.Users.{UserContext}
use open_data_gov.Auth.Clients.{
  AccessInput, OpaReply, OpaClient, check_access, check_permission, AuthSettings, Singletons,
  get_opa,
}
use open_data_gov.Auth.Dependencies.{AuthRequest, lacks_role, check_role}

-- the client that `get_opa` gives
abbrev pub opa_of : AuthSettings → Singletons → OpaClient
opa_of settings s = elim s.opa [ some opa ↦ opa | none ↦ record { enabled = settings.opa_enabled } ]

-- The policy engine was asked about the access, and its document allows it.
abbrev pub IsAllowed :
    (AccessInput → OpaReply) → (user : UserContext) → (action resource : String) → Type 0
IsAllowed post user action resource =
    post (record { user = user.user_id; roles = user.roles; resource = resource; action = action })
    ≡ OpaReply.answered (some true)

module _ (settings : AuthSettings) (post : AccessInput → OpaReply) where
  lacks_role_iff :
      (opa : OpaClient) (role : RaciRole) (request : AuthRequest) (user : UserContext)
      → (lacks_role settings post opa role request user ≡ false) ↔ (
          (opa.enabled ≡ true → IsAllowed post user (raci_role_value role) request.path)
          × (opa.enabled ≡ false → In (raci_role_value role) user.roles))
  unfolding lacks_role check_permission check_access
  lacks_role_iff opa role request user = elim (Bool-cases opa.enabled) [
    | inl on ↦ (
      (λ h. ((λ _. ground (arith, h, on)), λ off. absurd (cc (on, off)))),
      λ h. let allowed = h.0 on in ground (arith, on, allowed),
    )
    | inr off ↦ (
      (λ h. (
        (λ on. absurd (cc (on, off))),
        λ _.
            let held : any (λ r. r == raci_role_value role) user.roles ≡ true =
              ground (arith, h, off) in
            let (r, m, same) = any-In _ user.roles held in
            subst (λ z. In z user.roles) (==_sound r (raci_role_value role) same) m,
      )),
      λ h.
          let held =
            In-any (λ r. r == raci_role_value role) (raci_role_value role) user.roles (h.1 off)
              (==_refl (raci_role_value role)) in
          ground (arith, held, off),
    )
  ]

  check_role_ok :
      (role : RaciRole) (request : AuthRequest) (user : UserContext) (s : Singletons)
      → ((check_role settings post role request user s).0 ≡ ok user) ↔ (
          (user.is_authenticated ≡ true)
          × (lacks_role settings post (opa_of settings s) role request user ≡ false))
  unfolding check_role get_opa lacks_role raise_if raise pure ◌>>=◌
  check_role_ok role request user s = elim (Bool-cases user.is_authenticated) [
    | inr off ↦ rw off ((λ h. absurd (cc)), λ h. absurd (cc (h.0)))
    | inl on ↦ elim (Option-cases s.opa) [
      | inl absent ↦
          elim (Bool-cases (
            lacks_role settings post (record { enabled = settings.opa_enabled }) role request
              user)) [
                | inl lacks ↦ rw (on, absent, lacks) ((λ h. absurd (cc)), λ h. absurd (cc (h.1)))
                | inr has ↦ rw (on, absent, has) ((λ _. (refl, refl)), λ _. refl)
              ]
      | inr (opa, present) ↦ elim (Bool-cases (lacks_role settings post opa role request user)) [
        | inl lacks ↦ rw (on, present, lacks) ((λ h. absurd (cc)), λ h. absurd (cc (h.1)))
        | inr has ↦ rw (on, present, has) ((λ _. (refl, refl)), λ _. refl)
      ]
    ]
  ]

  -- A user passes the check of a role exactly when they are authenticated and, where the policy
  -- engine is enabled, it allows the role on the path, or else, where it is not, they have the
  -- role. An exception on the way to the engine, and a document without a result, allow nothing.
  pub check_role_iff :
      (role : RaciRole) (request : AuthRequest) (user : UserContext) (s : Singletons)
      → ((check_role settings post role request user s).0 ≡ ok user) ↔ (
          (user.is_authenticated ≡ true)
          × ((opa_of settings s).enabled ≡ true
              → IsAllowed post user (raci_role_value role) request.path)
          × ((opa_of settings s).enabled ≡ false → In (raci_role_value role) user.roles))
  check_role_iff role request user s =
      let (sound, complete) = check_role_ok role request user s in
      let (held, kept) = lacks_role_iff (opa_of settings s) role request user in
      (
        (λ h. let (a, b) = sound h in (a, (held b).0, (held b).1)),
        λ (a, b, c). complete (a, kept (b, c)),
      )
