-- ===== src/Engine/Match/Index.antt =====
-- `orderIndex_` and the queue of one side: each order of the queue is listed under its id with its
-- side, price and owner, and nothing else is listed for that side. Here under the fills of `Match`.
use toy_exchange.Base.{
  ◌≡◌, ◌≢◌, refl, List, [], ◌∷◌, foldl, Bool, false, ◌&&◌, All, Bool-cases, inl, inr, ◌⊎◌, some,
  sym, ◌∙◌, subst,
}
use toy_exchange.Base.Int.{ℤ, pos, ltb_ℤ, leb_ℤ, ◌-ℤ◌, ◌==ℤ◌, ℤ-cases, -ℤ_self, -ℤ_ne_zero}
use toy_exchange.Core.Types.{Side}
use toy_exchange.Extern.UnorderedMap.{IsMap}
use toy_exchange.Engine.Book.{OrderLocation, RestingOrder}
use toy_exchange.Engine.Book.Invariant.{Entry}
use toy_exchange.Engine.Match.{OrderMap}
use toy_exchange.Engine.Match.Fills.{Fill, fill_of, reduced, fill_queue}
use toy_exchange.Engine.Match.Loops.{unindex}

abbrev pub id_of : Entry → ℤ
id_of e = e.1.order_id

abbrev pub location_of : Side → Entry → OrderLocation
location_of s e = record { side = s; price = e.0; user_id = e.1.user_id }

-- No two orders of the queue have one id.
abbrev pub Distinct : List Entry → Type 0
Distinct [] = Unit
Distinct (e ∷ es) = All (λ x. id_of x ≢ id_of e) es × Distinct es

-- An order of the queue with this id, at this price and of this user.
abbrev pub HasEntry : ℤ → ℤ → ℤ → List Entry → Type 0
HasEntry id price user [] = ⊥
HasEntry id price user (e ∷ es) =
    ((id_of e ≡ id) × (e.0 ≡ price) × (e.1.user_id ≡ user)) ⊎ HasEntry id price user es

pub record IsTable (m : OrderMap) (s : Side) (t : m.Table) (es : List Entry) : Type 0 where
  pub listed : All (λ e. m.find (id_of e) t ≡ some (location_of s e)) es
  pub distinct : Distinct es
  pub present :
      (id : ℤ) (location : OrderLocation)
      → m.find id t ≡ some location
      → location.side ≡ s
      → HasEntry id location.price location.user_id es

unindex-whole :
    (m : OrderMap) (price : ℤ) (o : RestingOrder) (t : m.Table)
    → unindex m t (fill_of price o o.volume) ≡ m.erase o.order_id t
unindex-whole m price o t = rw (-ℤ_self o.volume)

unindex-part :
    (m : OrderMap) (price remaining : ℤ) (o : RestingOrder) (t : m.Table)
    → leb_ℤ o.volume remaining ≡ false
    → unindex m t (fill_of price o remaining) ≡ t
unindex-part m price remaining o t part = rw (-ℤ_ne_zero o.volume remaining part)

module _ {m : OrderMap} (laws : IsMap m) where
  pub find-of-erase :
      (id k : ℤ) (t : m.Table) {location : OrderLocation}
      → m.find id (m.erase k t) ≡ some location
      → (id ≢ k) × (m.find id t ≡ some location)
  find-of-erase id k t h = elim (ℤ-cases id k) [
    | inl e ↦ absurd (cc (laws.find-erase_self k t, e, h))
    | inr ne ↦ (ne, sym (laws.find-erase_ne id k t ne) ∙ h)
  ]

  find-of-unindex :
      (id : ℤ) (f : Fill) (t : m.Table) {location : OrderLocation}
      → m.find id (unindex m t f) ≡ some location
      → m.find id t ≡ some location
  find-of-unindex id f t h = elim (Bool-cases ((f.maker.volume -ℤ f.traded) ==ℤ pos 0)) [
    | inl gone ↦ (find-of-erase id f.maker.order_id t (rw gone at h)).1
    | inr kept ↦ rw kept at h
  ]

  -- The fills take entries out of the table and add none.
  pub find-of-unindexed :
      (id : ℤ) (fs : List Fill) (t : m.Table) {location : OrderLocation}
      → m.find id (foldl (unindex m) t fs) ≡ some location
      → m.find id t ≡ some location
  find-of-unindexed id [] t h = h
  find-of-unindexed id (f ∷ fs) t h =
      find-of-unindex id f t (find-of-unindexed id fs (unindex m t f) h)

  module _ (crosses : ℤ → Bool) where
    -- The fills leave the entries of other orders alone.
    pub find-unindexed_other :
        (id remaining : ℤ) (es : List Entry) (t : m.Table)
        → All (λ x. id_of x ≢ id) es
        → m.find id (foldl (unindex m) t (fill_queue crosses remaining es).fills) ≡ m.find id t
    unfolding fill_queue
    find-unindexed_other id remaining [] t h = refl
    find-unindexed_other id remaining ((price, o) ∷ es) t h =
        elim (Bool-cases (ltb_ℤ (pos 0) remaining && crosses price)) [
          | inr done ↦ rw done
          | inl more ↦ rw more (elim (Bool-cases (leb_ℤ o.volume remaining)) [
            | inl whole ↦
                rw
                  (
                    whole,
                    find-unindexed_other id (remaining -ℤ o.volume) es
                        (unindex m t (fill_of price o o.volume)) h.1,
                  )
                  (rw (unindex-whole m price o t)
                    (laws.find-erase_ne id o.order_id t (λ e. h.0 (sym e))))
            | inr part ↦ rw (part, unindex-part m price remaining o t part)
          ])
        ]

    erase_first-IsTable :
        (s : Side) (e : Entry) (es : List Entry) (t : m.Table)
        → IsTable m s t (e ∷ es)
        → IsTable m s (m.erase (id_of e) t) es
    erase_first-IsTable s e es t i = record {
      listed = erased es i.listed.1 i.distinct.0;
      distinct = i.distinct.1;
      present = λ id location h side.
          let (ne, old) = find-of-erase id (id_of e) t h in
          elim (i.present id location old side) [
            | inl here ↦ absurd (ne (sym here.0))
            | inr there ↦ there
          ];
    }
      where
        erased :
            (xs : List Entry)
            → All (λ x. m.find (id_of x) t ≡ some (location_of s x)) xs
            → All (λ x. id_of x ≢ id_of e) xs
            → All (λ x. m.find (id_of x) (m.erase (id_of e) t) ≡ some (location_of s x)) xs
        erased [] h k = tt
        erased (x ∷ xs) h k =
            (laws.find-erase_ne (id_of x) (id_of e) t k.0 ∙ h.0, erased xs h.1 k.1)

    -- The fills keep the table of the side that they fill against.
    pub fill_queue-IsTable :
        (s : Side) (remaining : ℤ) (es : List Entry) (t : m.Table)
        → IsTable m s t es
        → let r = fill_queue crosses remaining es in
          IsTable m s (foldl (unindex m) t r.fills) r.queue
    unfolding fill_queue
    fill_queue-IsTable s remaining [] t i = i
    fill_queue-IsTable s remaining ((price, o) ∷ es) t i =
        elim (Bool-cases (ltb_ℤ (pos 0) remaining && crosses price)) [
          | inr done ↦ rw done i
          | inl more ↦ rw more (elim (Bool-cases (leb_ℤ o.volume remaining)) [
            | inl whole ↦ rw whole (
                let r = fill_queue crosses (remaining -ℤ o.volume) es in
                subst (λ u. IsTable m s (foldl (unindex m) u r.fills) r.queue)
                  (sym (unindex-whole m price o t))
                  (fill_queue-IsTable s (remaining -ℤ o.volume) es (m.erase o.order_id t)
                    (erase_first-IsTable s (price, o) es t i)))
            | inr part ↦ rw part (
                subst (λ u. IsTable m s u ((price, reduced o remaining) ∷ es))
                  (sym (unindex-part m price remaining o t part))
                  (record { listed = i.listed; distinct = i.distinct; present = i.present }))
          ])
        ]
