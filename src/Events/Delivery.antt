-- ===== src/Events/Delivery.antt =====
-- What is sent to the brokers, and when.
use Prim.Native.String.{◌++◌ as text_append}
use open_data_gov.Prelude.{
  String, ◌≡◌, refl, ◌⊎◌, inl, inr, Bool-cases, Option-cases, true, false, List, Option, none, some,
  string_eq, All,
}
use open_data_gov.Prelude.Dict.{get, All-get}
use open_data_gov.Prelude.Exec.{ok, Exec}
use open_data_gov.Events.Producer.{with_trace}
use open_data_gov.Events.Publisher.{NatsPublisher, subjects, stream_prefix, publish}

-- a subject that the stream takes
abbrev pub IsGoverned : String → Type 0
IsGoverned subject = (rest : String) × (subject ≡ text_append stream_prefix rest)

subjects-IsGoverned : All (λ e. IsGoverned e.1) subjects
unfolding subjects
subjects-IsGoverned = (
  ("decisions.created", refl),
  (
    ("decisions.finalized", refl),
    (
      ("approvals.requested", refl),
      (("approvals.cast", refl), (("veto.exercised", refl), (("veto.overridden", refl), tt))),
    ),
  ),
)

module _ {Broker Failure V Bytes : Type 0} (trace_headers : Option V)
    (encode : List (String × V) → Bytes)
    (send : String → Bytes → Exec Broker Failure (Unit {0})) where
  -- Publishing a governance event returns, whatever the broker does: it sends nothing where there
  -- is no stream or the event is unknown, and else sends the payload with its trace once, on a
  -- subject that the stream takes.
  pub publish-IsGoverned :
      (p : NatsPublisher) (subject_key : String) (payload : List (String × V)) (b : Broker)
      → ((publish trace_headers encode send p subject_key payload b ≡ (ok tt, b))
          × ((p.has_js ≡ false) ⊎ (get subject_key subjects ≡ none)))
        ⊎ ((subject : String) × (get subject_key subjects ≡ some subject)
            × (p.has_js ≡ true)
            × IsGoverned subject
            × (publish trace_headers encode send p subject_key payload b
                ≡ (ok tt, (send subject (encode (with_trace trace_headers payload)) b).1)))
  unfolding publish
  publish-IsGoverned p subject_key payload b = elim (Bool-cases p.has_js) [
    | inr off ↦ inl (rw off refl, inl off)
    | inl on ↦ elim (Option-cases (get subject_key subjects)) [
      | inl unknown ↦ inl (rw (on, unknown) refl, inr unknown)
      | inr (subject, found) ↦ inr (
        subject,
        found,
        on,
        All-get (λ e. IsGoverned e.1) subject_key subject subjects found subjects-IsGoverned,
        rw (on, found) refl,
      )
    ]
  ]
