-- ===== src/Scenarios/Lakehouse.antt =====
-- Promotions on a storage in memory, with scores in hundredths.
use open_data_gov.Prelude.{
  ℕ, String, ◌≡◌, refl, ◌⊎◌, false, ◌&&◌, Option, none, some, ltb, arith, ◌==◌, string_eq, ==_refl,
  eq_iff, if◌then◌else◌, f_string,
}
use open_data_gov.Prelude.Exec.{Result, ok, err, Exec, ◌>>=◌}
use open_data_gov.Enums.Data.{MedallionLayer, bronze, silver, gold}
use open_data_gov.Lakehouse.Buckets.{Lake, Floats, BucketManager, IsStorage, bucket_name}
use open_data_gov.Lakehouse.Promotion.{
  promote, Outcome, PromotionError, validate_transition, index, layer_order, dq_threshold,
  strategy_of, execute_auto, on_store,
}
use open_data_gov.Lakehouse.Effects.{promote-store, promote-read}

abbrev Objects : Type 0
Objects = String → String → Option String

abbrev find : (bucket key : String) → Exec Objects String String
find bucket key objects =
    (elim (objects bucket key) [ none ↦ err "NoSuchKey" | some content ↦ ok content ], objects)

abbrev keep : (bucket key content : String) → Exec Objects String (Unit {0})
keep bucket key content objects =
    (ok tt, λ b k. if bucket == b && key == k then some content else objects b k)

abbrev memory : BucketManager Objects String String
memory = record { get_object = find; upload_object = keep }

memory-IsStorage : IsStorage memory
memory-IsStorage = record {
  get_reads = λ b k s. refl;
  get_after_upload = λ b k content s h. ground (arith, ==_refl b, ==_refl k);
  get_elsewhere = λ b c j k content s differ. ground (arith, eq_iff b c, differ);
}

abbrev hundredths : Floats ℕ
hundredths = record {
  lt = ltb;
  literal = λ s. if s == "0.7" then 70 else if s == "0.85" then 85 else 95;
  repr = λ n. "a score";
}

abbrev name_of : ℕ → String
name_of n = "7b0f"

-- one object in Bronze
abbrev lake : Lake Objects
lake = record {
  store = λ b k. if "odg-bronze-sales" == b && "orders" == k then some "1,2,3" else none;
  ids = 0;
}

abbrev orders_to :
    (source target : MedallionLayer) → ℕ → Result (PromotionError String) (Outcome ℕ) × Lake Objects
orders_to source target score =
    promote name_of hundredths memory "sales" source target "orders" score lake

promote-store_example :
    ((orders_to silver gold 90).1.store ≡ lake.store)
    ⊎ ((silver ≡ bronze) × (gold ≡ silver) × (ltb 90 70 ≡ false))
promote-store_example = promote-store name_of hundredths memory "sales" silver gold "orders" 90 lake

promote-read_example :
    (content : String) × ((find "odg-bronze-sales" "orders" lake.store).0 ≡ ok content)
    × (let after = (orders_to bronze silver 70).1 in
        ((find "odg-silver-sales" "orders" after.store).0 ≡ ok content)
        × ((find "odg-bronze-sales" "orders" after.store).0 ≡ ok content))
unfolding promote ◌>>=◌ validate_transition index layer_order dq_threshold strategy_of execute_auto
    on_store bucket_name f_string
promote-read_example =
    promote-read name_of hundredths memory memory-IsStorage "sales" "orders" 70 lake bronze silver _
      refl refl
