-- ===== src/Extern/AssocMap.antt =====
-- A list of keys and values: a table that meets what is asked of an `UnorderedMap`, for the tests.
use toy_exchange.Base.{
  ◌≡◌, ◌≢◌, refl, ap, List, [], ◌∷◌, Option, none, some, Bool, true, false, if◌then◌else◌, ◌↔◌,
  Bool-cases, inl, inr, sym, ◌∙◌,
}
use toy_exchange.Extern.UnorderedMap.{UnorderedMap, IsMap, IsIteration, lookup, IsDistinct}

same_ne :
    {K : Type 0} (same : K → K → Bool)
    → ((j k : K) → (same j k ≡ true) ↔ (j ≡ k))
    → (j k : K) → j ≢ k
    → same j k ≡ false
same_ne same same_iff j k ne = elim (Bool-cases (same j k)) [
  | inl e ↦ absurd (ne ((same_iff j k).0 e))
  | inr e ↦ e
]

module _ {K V : Type 0} (same : K → K → Bool) where
  abbrev pub assoc_find : K → List (K × V) → Option V
  assoc_find k [] = none
  assoc_find k ((j, v) ∷ t) = if same k j then some v else assoc_find k t

  abbrev pub assoc_erase : K → List (K × V) → List (K × V)
  assoc_erase k [] = []
  assoc_erase k ((j, v) ∷ t) = if same k j then assoc_erase k t else (j, v) ∷ assoc_erase k t

  abbrev pub assoc_map : UnorderedMap K V
  assoc_map = record {
    Table = List (K × V);
    empty = [];
    find = assoc_find;
    put = λ k v t. (k, v) ∷ assoc_erase k t;
    erase = assoc_erase;
  }

  module _ (same_iff : (j k : K) → (same j k ≡ true) ↔ (j ≡ k)) where
    find-erase_self : (k : K) (t : List (K × V)) → assoc_find k (assoc_erase k t) ≡ none
    find-erase_self k [] = refl
    find-erase_self k ((j, v) ∷ t) = elim (Bool-cases (same k j)) [
      | inl e ↦ rw e (find-erase_self k t)
      | inr e ↦ rw (e, e) (find-erase_self k t)
    ]

    find-erase_ne :
        (j k : K) (t : List (K × V)) → j ≢ k → assoc_find j (assoc_erase k t) ≡ assoc_find j t
    find-erase_ne j k [] ne = refl
    find-erase_ne j k ((i, v) ∷ t) ne = elim (Bool-cases (same k i)) [
      | inl e ↦
          rw (e, same_ne same same_iff j i (λ q. ne (q ∙ sym ((same_iff k i).0 e))))
            (find-erase_ne j k t ne)
      | inr e ↦ rw (e, find-erase_ne j k t ne)
    ]

    pub assoc_map-IsMap : IsMap assoc_map
    assoc_map-IsMap = record {
      find-empty = λ k. refl;
      find-put_self = λ k v t. rw ((same_iff k k).1 refl);
      find-put_ne = λ j k v t ne. rw (same_ne same same_iff j k ne) (find-erase_ne j k t ne);
      find-erase_self = find-erase_self;
      find-erase_ne = find-erase_ne;
    }

module _ {K V : Type 0} (same : K → K → Bool)
    (same_iff : (j k : K) → (same j k ≡ true) ↔ (j ≡ k)) where
  -- The first value of each key.
  abbrev pub assoc_entries : List (K × V) → List (K × V)
  assoc_entries [] = []
  assoc_entries ((k, v) ∷ t) = (k, v) ∷ assoc_erase same k (assoc_entries t)

  lookup-assoc_find : (k : K) (t : List (K × V)) → lookup same k t ≡ assoc_find same k t
  lookup-assoc_find k [] = refl
  lookup-assoc_find k ((j, v) ∷ t) =
      ap (λ rest. if same k j then some v else rest) (lookup-assoc_find k t)

  find-assoc_entries :
      (k : K) (t : List (K × V)) → assoc_find same k t ≡ assoc_find same k (assoc_entries t)
  find-assoc_entries k [] = refl
  find-assoc_entries k ((j, v) ∷ t) = elim (Bool-cases (same k j)) [
    | inl e ↦ rw e refl
    | inr e ↦ rw e (
        find-assoc_entries k t
        ∙ sym (find-erase_ne same same_iff k j (assoc_entries t) (λ q. cc (e, (same_iff k j).1 q))))
  ]

  IsDistinct-erase :
      (k : K) (t : List (K × V)) → IsDistinct same t → IsDistinct same (assoc_erase same k t)
  IsDistinct-erase k [] d = tt
  IsDistinct-erase k ((j, v) ∷ t) (new, d) = elim (Bool-cases (same k j)) [
    | inl e ↦ rw e (IsDistinct-erase k t d)
    | inr e ↦
        let kept = find-erase_ne same same_iff j k t (λ q. cc (e, (same_iff k j).1 (sym q))) in
        rw e (
          lookup-assoc_find j (assoc_erase same k t) ∙ kept ∙ sym (lookup-assoc_find j t) ∙ new,
          IsDistinct-erase k t d,
        )
  ]

  IsDistinct-assoc_entries : (t : List (K × V)) → IsDistinct same (assoc_entries t)
  IsDistinct-assoc_entries [] = tt
  IsDistinct-assoc_entries ((k, v) ∷ t) = (
    lookup-assoc_find k (assoc_erase same k (assoc_entries t))
        ∙ find-erase_self same same_iff k (assoc_entries t),
    IsDistinct-erase k (assoc_entries t) (IsDistinct-assoc_entries t),
  )

  pub assoc_map-IsIteration : IsIteration (assoc_map same) same assoc_entries
  assoc_map-IsIteration = record {
    find-entries = λ k t. find-assoc_entries k t ∙ sym (lookup-assoc_find k (assoc_entries t));
    distinct = IsDistinct-assoc_entries;
  }
