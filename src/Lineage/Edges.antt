-- ===== src/Lineage/Edges.antt =====
-- The edges of an event that was emitted.
use mathlib.Core.List.{append-nil, append_assoc}
use open_data_gov.Prelude.{
  string_eq, ℕ, ◌*◌, ◌≡◌, ◌↔◌, refl, ap, ◌∙◌, sym, subst, String, List, [], ◌∷◌, ◌++◌, In, map,
  length, length-append, arith,
}
use open_data_gov.Prelude.Members.{concat_map, In-concat_map, concat_map-In, In-map, map-In}
use open_data_gov.Prelude.Dict.{get}
use open_data_gov.Prelude.Exec.{ok}
use open_data_gov.Lineage.Emitter.{
  LineageDataset, LineageRunEvent, emit_lineage_event, new_event, new_dataset, new_datasets,
}
use open_data_gov.Lineage.Consumer.{
  DatasetDict, LineageEdge, dataset_to_urn, edges_to, all_edges, dataset_dict, model_dump,
  openlineage_to_datahub_mce,
}

abbrev pub edge : (source destination : DatasetDict) → LineageEdge
edge source destination = record {
  source_urn = dataset_to_urn source;
  destination_urn = dataset_to_urn destination;
}

edges_to_lem :
    (inputs : List DatasetDict) (output : DatasetDict) (edges : List LineageEdge)
    → edges_to inputs output edges ≡ edges ++ map (λ i. edge i output) inputs
unfolding edges_to
edges_to_lem [] output edges = sym (append-nil edges)
edges_to_lem (i ∷ inputs) output edges = edges_to_lem inputs output _ ∙ append_assoc edges _ _

all_edges_lem :
    (inputs outputs : List DatasetDict) (edges : List LineageEdge)
    → all_edges inputs outputs edges ≡ edges ++ concat_map (λ o. map (λ i. edge i o) inputs) outputs
unfolding all_edges concat_map
all_edges_lem inputs [] edges = sym (append-nil edges)
all_edges_lem inputs (o ∷ outputs) edges =
    all_edges_lem inputs outputs _
    ∙ ap (λ xs. xs ++ concat_map (λ o. map (λ i. edge i o) inputs) outputs)
        (edges_to_lem inputs o edges)
    ∙ append_assoc edges _ _

length-map : {A B : Type 0} (f : A → B) (xs : List A) → length (map f xs) ≡ length xs
length-map f [] = refl
length-map f (x ∷ xs) = omega (arith, length-map f xs)

all_edges_iff :
    (inputs outputs : List DatasetDict) (e : LineageEdge)
    → In e (all_edges inputs outputs [])
      ↔ ((i : DatasetDict) × In i inputs × (o : DatasetDict) × In o outputs × (edge i o ≡ e))
all_edges_iff inputs outputs e = (
  (λ m.
      let (o, listed, found) =
        In-concat_map (λ o. map (λ i. edge i o) inputs) e outputs
          (subst (In e) (all_edges_lem inputs outputs []) m) in
      let (i, there, same) = In-map (λ i. edge i o) e inputs found in (i, there, o, listed, same)),
  λ (i, there, o, listed, same). subst (In e) (sym (all_edges_lem inputs outputs [])) (
      concat_map-In (λ o. map (λ i. edge i o) inputs) e o outputs listed
        (subst (λ x. In x (map (λ i. edge i o) inputs)) same
          (map-In (λ i. edge i o) i inputs there))),
)

length-all_edges :
    (inputs outputs : List DatasetDict)
    → length (concat_map (λ o. map (λ i. edge i o) inputs) outputs) ≡ length outputs * length inputs
unfolding concat_map
length-all_edges inputs [] = omega arith
length-all_edges inputs (o ∷ outputs) =
    let here = length-map (λ i. edge i o) inputs in
    let rest = length-all_edges inputs outputs in
    let both =
      length-append (map (λ i. edge i o) inputs)
        (concat_map (λ o. map (λ i. edge i o) inputs) outputs) in
    grind (arith, here, rest, both)

-- the dict that names a dataset
abbrev pub dict_of : LineageDataset → List (String × String)
dict_of d = ("namespace", d.namespace) ∷ ("name", d.name) ∷ []

new_datasets-dict_of : (ds : List LineageDataset) → new_datasets (map dict_of ds) ≡ ok ds
unfolding new_datasets new_dataset get
new_datasets-dict_of [] = refl
new_datasets-dict_of (d ∷ ds) = rw (new_datasets-dict_of ds) refl

emitted_iff :
    (ins outs : List LineageDataset) (e : LineageEdge)
    → In e (all_edges (map dataset_dict ins) (map dataset_dict outs) []) ↔ (
        (i : LineageDataset) × In i ins
        × (o : LineageDataset) × In o outs
        × (edge (dataset_dict i) (dataset_dict o) ≡ e))
emitted_iff ins outs e =
    let (sound, complete) = all_edges_iff (map dataset_dict ins) (map dataset_dict outs) e in
    (
      (λ m.
          let (x, left, y, right, same) = sound m in
          let (i, inside, from) = In-map dataset_dict x ins left in
          let (o, listed, to) = In-map dataset_dict y outs right in
          (
            i,
            inside,
            o,
            listed,
            ap (λ z. edge z (dataset_dict o)) from ∙ ap (λ z. edge x z) to ∙ same,
          )),
      λ (i, inside, o, listed, same). complete (
        dataset_dict i,
        map-In dataset_dict i ins inside,
        dataset_dict o,
        map-In dataset_dict o outs listed,
        same,
      ),
    )

emitted_count :
    (ins outs : List LineageDataset)
    → length (all_edges (map dataset_dict ins) (map dataset_dict outs) [])
      ≡ length outs * length ins
emitted_count ins outs =
    ap length (all_edges_lem (map dataset_dict ins) (map dataset_dict outs) [])
    ∙ length-all_edges (map dataset_dict ins) (map dataset_dict outs)
    ∙ ap (λ n. n * length (map dataset_dict ins)) (length-map dataset_dict outs)
    ∙ ap (λ n. length outs * n) (length-map dataset_dict ins)

-- An emission that names its datasets returns an event. Converted for DataHub, the event has an
-- edge exactly from each input to each output, and as many edges as there are such pairs.
pub emit_lineage_event-edges :
    (run_id : String) (now : ℕ) (job_name : String) (ins outs : List LineageDataset)
    (event_type : String)
    → (event : LineageRunEvent) × (emit_lineage_event run_id now job_name
          (map dict_of ins)
          (map dict_of outs)
          event_type
        ≡ ok event)
      × ((e : LineageEdge)
          → In e (openlineage_to_datahub_mce (model_dump event)).lineage_edges ↔ (
              (i : LineageDataset) × In i ins
              × (o : LineageDataset) × In o outs
              × (edge (dataset_dict i) (dataset_dict o) ≡ e)))
      × (length (openlineage_to_datahub_mce (model_dump event)).lineage_edges
          ≡ length outs * length ins)
unfolding emit_lineage_event new_event openlineage_to_datahub_mce model_dump
emit_lineage_event-edges run_id now job_name ins outs event_type = (
  new_event run_id now job_name ins outs event_type,
  rw (emit_lineage_event, new_datasets-dict_of ins, new_datasets-dict_of outs) refl,
  emitted_iff ins outs,
  emitted_count ins outs,
)
