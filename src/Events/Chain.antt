-- ===== src/Events/Chain.antt =====
-- The hash chain that the consumer computes, from a hash on.
use open_data_gov.Prelude.{
  String, ◌≡◌, ◌≢◌, refl, ◌⊎◌, inl, inr, ◌==◌, string_eq, ==_sound, ==_refl, Bool-cases, ◌∙◌, sym,
  List, [], ◌∷◌, arith, length, text_length, has_length, f_string, map,
}
use open_data_gov.Prelude.Texts.{f_string_determined}
use open_data_gov.Runtime.{Runtime, IsRegular}
use open_data_gov.Events.Consumer.{compute_hash_chain, new_consumer}

module _ ⦃rt : Runtime⦄ {Event : Type 0} (dumps : Event → String) where
  -- each event with its hash, which starts from the hash before it
  unfoldable pub chained : String → List Event → List (Event × String)
  chained h [] = []
  chained h (e ∷ es) =
      (e, compute_hash_chain (dumps e) h) ∷ chained (compute_hash_chain (dumps e) h) es

  -- the last hash of the chain
  unfoldable pub chain_end : String → List Event → String
  chain_end h [] = h
  chain_end h (e ∷ es) = chain_end (compute_hash_chain (dumps e) h) es

digest_length :
    ⦃rt : Runtime⦄ (regular : IsRegular rt) (s : String) → text_length (rt.sha256_hexdigest s) ≡ 64
unfolding has_length
digest_length regular s = ground (arith, regular.digest_fits s)

module _ ⦃rt : Runtime⦄ {Event : Type 0} (dumps : Event → String) where
  -- the text that a link hashes
  abbrev pub link_text : String → Event → String
  link_text h e = f_string (h ∷ ":" ∷ dumps e ∷ [])

  -- At some place of two runs, from the hashes that they start from, the texts that are hashed
  -- differ and have one digest.
  abbrev pub Collide : String → List Event → String → List Event → Type 0
  Collide h [] k es = ⊥
  Collide h (d ∷ ds) k [] = ⊥
  Collide h (d ∷ ds) k (e ∷ es) =
      ((link_text h d ≢ link_text k e)
        × (rt.sha256_hexdigest (link_text h d) ≡ rt.sha256_hexdigest (link_text k e)))
      ⊎ Collide (rt.sha256_hexdigest (link_text h d)) ds (rt.sha256_hexdigest (link_text k e)) es

module _ ⦃rt : Runtime⦄ (regular : IsRegular rt) {Event : Type 0} (dumps : Event → String) where
  chain_determined :
      (ds es : List Event) (h k : String)
      → text_length h ≡ text_length k
      → length ds ≡ length es
      → chain_end dumps h ds ≡ chain_end dumps k es
      → ((h ≡ k) × (map dumps ds ≡ map dumps es)) ⊎ Collide dumps h ds k es
  unfolding chain_end compute_hash_chain
  chain_determined [] [] h k t n last = inl (last, refl)
  chain_determined [] (e ∷ es) h k t n last = absurd (omega arith)
  chain_determined (d ∷ ds) [] h k t n last = absurd (omega arith)
  chain_determined (d ∷ ds) (e ∷ es) h k t n last =
      let fits = digest_length regular _ ∙ sym (digest_length regular _) in
      elim (chain_determined ds es _ _ fits (omega arith) last) [
        | inr later ↦ inr (inr later)
        | inl (linked, rest) ↦ elim (Bool-cases (link_text dumps h d == link_text dumps k e)) [
          | inr differ ↦
              inr (inl ((λ same. cc (differ, same, ==_refl (link_text dumps k e))), linked))
          | inl equal ↦
              let (before, same) =
                f_string_determined h k ":" _ _ t
                  (==_sound (link_text dumps h d) (link_text dumps k e) equal) in
              inl (before, cc (same, rest))
        ]
      ]

  -- The last hash of a new consumer commits to what it consumed, where digests have 64 characters:
  -- of two runs over equally many events that end in one hash, either both consumed events with
  -- the same texts in the same order, or at one place of the two runs the texts that were hashed,
  -- each the hash before with the event's text, differ and have one digest.
  pub chain_end_determined :
      (ds es : List Event)
      → length ds ≡ length es
      → chain_end dumps new_consumer.last_hash ds ≡ chain_end dumps new_consumer.last_hash es
      → (map dumps ds ≡ map dumps es)
        ⊎ Collide dumps new_consumer.last_hash ds new_consumer.last_hash es
  chain_end_determined ds es n last =
      elim (chain_determined ds es new_consumer.last_hash new_consumer.last_hash refl n last) [
        | inl (_, same) ↦ inl same
        | inr found ↦ inr found
      ]
