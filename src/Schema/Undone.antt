-- ===== src/Schema/Undone.antt =====
-- A downgrade undoes its upgrade.
use open_data_gov.Prelude.{
  ◌≡◌, refl, ap, ◌∙◌, sym, List, [], ◌∷◌, ◌++◌, All, Option, none, some, Option-cases, inl, inr,
  arith,
}
use open_data_gov.Prelude.Exec.{ok, Exec, pure, continue, ◌>>=◌, ◌>>◌}
use open_data_gov.Prelude.Returns.{bind-ok}
use open_data_gov.Schema.Operations.{
  Operation, Migration, run_operations, upgrade_all, downgrade_all,
}
use open_data_gov.Schema.Versions.{later_migrations}

-- the operation that drops what an operation creates
abbrev pub inverse : Operation → Option Operation
inverse (Operation.create_table name columns) = some (Operation.drop_table name)
inverse (Operation.create_index name table columns unique) = some (Operation.drop_index name)
inverse _ = none

-- Dropping what was created just before leaves the database as it was.
abbrev pub Drops :
    {Database Failure : Type 0} → (Operation → Exec Database Failure (Unit {0})) → Type 0
Drops {Database} op =
    (o d : Operation) (s : Database)
    → inverse o ≡ some d
    → (op o s).0 ≡ ok tt
    → op d (op o s).1 ≡ (ok tt, s)

-- the inverses of operations, the last first; none if one of them has no inverse
unfoldable pub inverses : List Operation → Option (List Operation)
inverses [] = some []
inverses (o ∷ operations) =
    let rest = inverses operations in
    elim (inverse o) [
      | none ↦ none
      | some d ↦ elim rest [ none ↦ none | some ds ↦ some (ds ++ d ∷ []) ]
    ]

inverses-cases :
    (o : Operation) (operations ds : List Operation)
    → inverses (o ∷ operations) ≡ some ds
    → (d : Operation) × (es : List Operation) × (inverse o ≡ some d)
      × (inverses operations ≡ some es)
      × (es ++ d ∷ [] ≡ ds)
unfolding inverses
inverses-cases o operations ds h = elim (Option-cases (inverse o)) [
  | inl missing ↦ absurd (ground (arith, h, missing))
  | inr (d, found) ↦ elim (Option-cases (inverses operations)) [
    | inl missing ↦ absurd (ground (arith, h, found, missing))
    | inr (es, rest) ↦ (d, es, found, rest, ground (arith, h, found, rest))
  ]
]

module _ {Database Failure : Type 0} (op : Operation → Exec Database Failure (Unit {0}))
    (drops : Drops op) where
  -- after one action has returned, the next goes on from where it ended
  follow :
      (m n : Exec Database Failure (Unit {0})) (s t : Database)
      → m s ≡ (ok tt, t)
      → (m >> n) s ≡ n t
  unfolding ◌>>=◌
  follow m n s t h = ap (λ p. continue p.0 (λ _. n) p.1) h

  run-append :
      (xs ys : List Operation) (s t : Database)
      → run_operations op xs s ≡ (ok tt, t)
      → run_operations op (xs ++ ys) s ≡ run_operations op ys t
  unfolding run_operations pure
  run-append [] ys s t h = ap (λ p. run_operations op ys p.1) h
  run-append (x ∷ xs) ys s t h =
      let (u, first, rest) = bind-ok (op x) (λ _. run_operations op xs) s tt (ap (λ p. p.0) h) in
      follow (op x) (run_operations op (xs ++ ys)) s (op x s).1 first
      ∙ run-append xs ys (op x s).1 t (sym rest ∙ h)

  undone :
      (ups downs : List Operation) (s : Database)
      → inverses ups ≡ some downs
      → (run_operations op ups s).0 ≡ ok tt
      → run_operations op downs (run_operations op ups s).1 ≡ (ok tt, s)
  unfolding run_operations inverses pure
  undone [] downs s h done =
      let same : [] ≡ downs = ground (arith, h) in ap (λ ds. run_operations op ds s) (sym same)
  undone (o ∷ ups) downs s h done =
      let (d, es, inverted, later, same) = inverses-cases o ups downs h in
      let (u, first, rest) = bind-ok (op o) (λ _. run_operations op ups) s tt done in
      let s1 = (op o s).1 in
      let back = undone ups es s1 later (ap (λ p. p.0) (sym rest) ∙ done) in
      let dropped : op d s1 ≡ (ok tt, s) = drops o d s inverted (ap (λ p. p.0) first) in
      ap (λ p. run_operations op downs p.1) rest
      ∙ ap (λ ds. run_operations op ds (run_operations op ups s1).1) (sym same)
      ∙ run-append es (d ∷ []) (run_operations op ups s1).1 s1 back
      ∙ follow (op d) (run_operations op []) s1 s dropped

  -- Each downgrade consists of the inverses of its upgrade.
  abbrev pub Inverts : Migration → Type 0
  Inverts m = inverses m.upgrade ≡ some m.downgrade

  downgraded :
      (migrations : List Migration) (s : Database)
      → All Inverts migrations
      → (upgrade_all op migrations s).0 ≡ ok tt
      → downgrade_all op migrations (upgrade_all op migrations s).1 ≡ (ok tt, s)
  unfolding upgrade_all downgrade_all pure
  downgraded [] s all done = refl
  downgraded (m ∷ migrations) s all done =
      let (u, first, rest) =
        bind-ok (run_operations op m.upgrade) (λ _. upgrade_all op migrations) s tt done in
      let s1 = (run_operations op m.upgrade s).1 in
      let back = downgraded migrations s1 all.1 (ap (λ p. p.0) (sym rest) ∙ done) in
      ap (λ p. downgrade_all op (m ∷ migrations) p.1) rest
      ∙ follow (downgrade_all op migrations) (run_operations op m.downgrade)
          (upgrade_all op migrations s1).1 s1 back
      ∙ undone m.upgrade m.downgrade s all.0 (ap (λ p. p.0) first)

  later-Inverts : All Inverts later_migrations
  unfolding inverses
  later-Inverts = (refl, (refl, (refl, (refl, (refl, (refl, tt))))))

  -- Where dropping undoes creating, the migrations after the initial one can be undone: if their
  -- upgrades succeed on a database, their downgrades from the last to the first succeed on the
  -- result, and leave the database as it was.
  pub downgrade_all-upgrade_all :
      (s : Database)
      → (upgrade_all op later_migrations s).0 ≡ ok tt
      → downgrade_all op later_migrations (upgrade_all op later_migrations s).1 ≡ (ok tt, s)
  downgrade_all-upgrade_all s done = downgraded later_migrations s later-Inverts done
