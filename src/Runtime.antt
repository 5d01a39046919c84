-- ===== src/Runtime.antt =====
-- What the services take from outside the repository: `uuid.uuid4`, the clock, and the texts and
-- digests that `str`, `datetime.isoformat`, `json.dumps` and `hashlib.sha256` make.
use open_data_gov.Prelude.{ℕ, ◌≡◌, String, Bool, true, List, some, has_length, string_eq}
use open_data_gov.Prelude.Dict.{get}

-- A value of a `dict[str, str | int | float | bool | None]`; a number is given by its JSON text.
pub data Scalar : Type 0 where
  str : String → Scalar
  number : String → Scalar
  bool : Bool → Scalar
  null : Scalar

abbrev pub Details : Type 0
Details = List (String × Scalar)

-- A value of the payload that an audit event hashes.
pub data Json : Type 0 where
  scalar : Scalar → Json
  object : Details → Json

-- Times are microseconds since the epoch. The n-th call of `uuid4` gives `uuid4 n`, and the n-th
-- reading of the clock gives `now n`: any sequences, so a statement holds for every run.
pub record Runtime : Type 0 where
  pub uuid4 : ℕ → ℕ
  pub now : ℕ → ℕ
  pub uuid_text : ℕ → String
  pub time_text : ℕ → String
  pub isoformat : ℕ → String
  pub json_dumps : List (String × Json) → String
  pub sha256_hexdigest : String → String

-- The texts of identifiers and digests have the lengths that the columns allow.
pub record IsRegular (rt : Runtime) : Type 0 where
  pub uuid_text_fits : (id : ℕ) → has_length 1 200 (rt.uuid_text id) ≡ true
  pub digest_fits : (s : String) → has_length 64 64 (rt.sha256_hexdigest s) ≡ true

-- What `json.dumps` and `isoformat` document: parsing a text back gives the dict and the time, so a
-- text determines the value of each key, in whatever order the keys were, and the time.
pub record IsReadable (rt : Runtime) : Type 0 where
  pub scalars :
      (p q : List (String × Json)) (k : String) (a b : Scalar)
      → rt.json_dumps p ≡ rt.json_dumps q
      → get k p ≡ some (Json.scalar a)
      → get k q ≡ some (Json.scalar b)
      → a ≡ b
  pub objects :
      (p q : List (String × Json)) (k : String) (d e : Details)
      → rt.json_dumps p ≡ rt.json_dumps q
      → get k p ≡ some (Json.object d)
      → get k q ≡ some (Json.object e)
      → (j : String) → get j d ≡ get j e
  pub isoformat_inj : (a b : ℕ) → rt.isoformat a ≡ rt.isoformat b → a ≡ b
