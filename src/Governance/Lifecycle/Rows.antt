-- ===== src/Governance/Lifecycle/Rows.antt =====
-- Reading a table by its primary key after a row is added or assigned.
use open_data_gov.Prelude.{
  ℕ, ◌≡◌, List, [], ◌∷◌, ◌++◌, some, arith, ◌==◌, nat_eq, nat_beq_iff, if◌then◌else◌,
}
use open_data_gov.Governance.Session.{get_row, set_row}

module _ {A : Type 0} (id : A → ℕ) where
  pub get_row-id :
      (key : ℕ) (rows : List A) (row : A) → get_row id key rows ≡ some row → id row ≡ key
  unfolding get_row
  get_row-id key [] row h = cc
  get_row-id key (r ∷ rows) row h = ground (arith, get_row-id key rows row, nat_beq_iff (id r) key)

  pub get_row-append :
      (key : ℕ) (rows : List A) (row new : A)
      → get_row id key rows ≡ some row
      → get_row id key (rows ++ new ∷ []) ≡ some row
  unfolding get_row
  get_row-append key [] row new h = cc
  get_row-append key (r ∷ rows) row new h = ground (arith, get_row-append key rows row new)

  module _ (assign : A → A) (same_id : (r : A) → id (assign r) ≡ id r) where
    pub get_row-set_row :
        (key j : ℕ) (rows : List A) (row : A)
        → get_row id j rows ≡ some row
        → get_row id j (set_row id key assign rows) ≡ some (if j == key then assign row else row)
    unfolding get_row set_row
    get_row-set_row key j [] row h = cc
    get_row-set_row key j (r ∷ rows) row h =
        ground (arith, get_row-set_row key j rows row, same_id r)
