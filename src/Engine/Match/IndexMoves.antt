-- ===== src/Engine/Match/IndexMoves.antt =====
-- `orderIndex_` and the queue of one side when an order is rested or cancelled.
use toy_exchange.Base.{
  ◌≡◌, ◌≢◌, refl, List, [], ◌∷◌, Bool, ◌&&◌, All, All-weaken, arith, Bool-cases, inl, inr, some,
  none, sym, ◌∙◌, foldl,
}
use toy_exchange.Base.Int.{ℤ, ◌==ℤ◌, ℤ-cases, ==ℤ→eq}
use toy_exchange.Core.Types.{Side}
use toy_exchange.Extern.UnorderedMap.{IsMap}
use toy_exchange.Engine.Book.{OrderLocation, RestingOrder, before}
use toy_exchange.Engine.Book.Invariant.{Entry}
use toy_exchange.Engine.Book.Rest.{insert_entry}
use toy_exchange.Engine.Book.Cancel.{remove_entry}
use toy_exchange.Engine.Match.{OrderMap}
use toy_exchange.Engine.Match.Fills.{fill_queue}
use toy_exchange.Engine.Match.Loops.{unindex}
use toy_exchange.Engine.Match.Index.{
  id_of, location_of, Distinct, HasEntry, IsTable, find-of-erase, find-of-unindexed,
  find-unindexed_other,
}

All-insert_entry {κ} :
    (P : Entry → Type κ) (side : Side) (price : ℤ) (o : RestingOrder) (es : List Entry)
    → P (price, o)
    → All P es
    → All P (insert_entry side price o es)
unfolding insert_entry
All-insert_entry P side price o [] p h = (p, tt)
All-insert_entry P side price o (e ∷ es) p h = elim (Bool-cases (before side price e.0)) [
  | inl b ↦ rw b (p, h)
  | inr b ↦ rw b (h.0, All-insert_entry P side price o es p h.1)
]

Distinct-insert_entry :
    (side : Side) (price : ℤ) (o : RestingOrder) (es : List Entry)
    → All (λ x. id_of x ≢ o.order_id) es
    → Distinct es
    → Distinct (insert_entry side price o es)
unfolding insert_entry
Distinct-insert_entry side price o [] h d = (tt, tt)
Distinct-insert_entry side price o (e ∷ es) h d = elim (Bool-cases (before side price e.0)) [
  | inl b ↦ rw b (h, d)
  | inr b ↦ rw b (
    All-insert_entry (λ x. id_of x ≢ id_of e) side price o es (λ q. h.0 (sym q)) d.0,
    Distinct-insert_entry side price o es h.1 d.1,
  )
]

HasEntry-insert_entry :
    (side : Side) (price : ℤ) (o : RestingOrder) (es : List Entry) (id p user : ℤ)
    → HasEntry id p user ((price, o) ∷ es)
    → HasEntry id p user (insert_entry side price o es)
unfolding insert_entry
HasEntry-insert_entry side price o [] id p user h = h
HasEntry-insert_entry side price o (e ∷ es) id p user h =
    elim (Bool-cases (before side price e.0)) [
      | inl b ↦ rw b h
      | inr b ↦ rw b (elim h [
        | inl here ↦ inr (HasEntry-insert_entry side price o es id p user (inl here))
        | inr (inl first) ↦ inl first
        | inr (inr later) ↦ inr (HasEntry-insert_entry side price o es id p user (inr later))
      ])
    ]

All-remove_entry {κ} :
    (P : Entry → Type κ) (price id : ℤ) (es : List Entry)
    → All P es
    → All P (remove_entry price id es)
unfolding remove_entry
All-remove_entry P price id [] h = tt
All-remove_entry P price id (e ∷ es) h = elim (Bool-cases (e.0 ==ℤ price && e.1.order_id ==ℤ id)) [
  | inl b ↦ rw b (All-remove_entry P price id es h.1)
  | inr b ↦ rw b (h.0, All-remove_entry P price id es h.1)
]

Distinct-remove_entry :
    (price id : ℤ) (es : List Entry) → Distinct es → Distinct (remove_entry price id es)
unfolding remove_entry
Distinct-remove_entry price id [] d = tt
Distinct-remove_entry price id (e ∷ es) d =
    elim (Bool-cases (e.0 ==ℤ price && e.1.order_id ==ℤ id)) [
      | inl b ↦ rw b (Distinct-remove_entry price id es d.1)
      | inr b ↦ rw b (All-remove_entry _ price id es d.0, Distinct-remove_entry price id es d.1)
    ]

HasEntry-remove_entry :
    (price id : ℤ) (es : List Entry) (j p user : ℤ)
    → j ≢ id
    → HasEntry j p user es
    → HasEntry j p user (remove_entry price id es)
unfolding remove_entry
HasEntry-remove_entry price id [] j p user ne h = h
HasEntry-remove_entry price id (e ∷ es) j p user ne h =
    elim (Bool-cases (e.0 ==ℤ price && e.1.order_id ==ℤ id)) [
      | inl b ↦ rw b (elim h [
        | inl here ↦ absurd (ne (sym here.0 ∙ ==ℤ→eq (id_of e) id (ground arith)))
        | inr there ↦ HasEntry-remove_entry price id es j p user ne there
      ])
      | inr b ↦ rw b (elim h [
        | inl here ↦ inl here
        | inr there ↦ inr (HasEntry-remove_entry price id es j p user ne there)
      ])
    ]

module _ {m : OrderMap} (laws : IsMap m) where
  -- An id that is not in the table is in no queue.
  absent :
      (s : Side) (id : ℤ) (t : m.Table) (es : List Entry)
      → m.find id t ≡ none
      → All (λ e. m.find (id_of e) t ≡ some (location_of s e)) es
      → All (λ x. id_of x ≢ id) es
  absent s id t es fresh = All-weaken es (λ x h e. absurd (cc (h, e, fresh)))

  -- An id that the other side's order has is in no order of this side.
  foreign :
      (s s' : Side) (id : ℤ) (location : OrderLocation) (t : m.Table) (es : List Entry)
      → s ≢ s'
      → m.find id t ≡ some location
      → location.side ≡ s'
      → All (λ e. m.find (id_of e) t ≡ some (location_of s e)) es
      → All (λ x. id_of x ≢ id) es
  foreign s s' id location t es ne found side = All-weaken es (λ x h e. ne (side_path x h e))
    where
      side_path : (x : Entry) → m.find (id_of x) t ≡ some (location_of s x) → id_of x ≡ id → s ≡ s'
      side_path x h e = ground (arith, h, found, side, e)

  put_listed :
      (s : Side) (id : ℤ) (location : OrderLocation) (t : m.Table) (es : List Entry)
      → All (λ x. id_of x ≢ id) es
      → All (λ e. m.find (id_of e) t ≡ some (location_of s e)) es
      → All (λ e. m.find (id_of e) (m.put id location t) ≡ some (location_of s e)) es
  put_listed s id location t [] h k = tt
  put_listed s id location t (e ∷ es) h k =
      (laws.find-put_ne (id_of e) id location t h.0 ∙ k.0, put_listed s id location t es h.1 k.1)

  erase_listed :
      (s : Side) (id : ℤ) (t : m.Table) (es : List Entry)
      → All (λ x. id_of x ≢ id) es
      → All (λ e. m.find (id_of e) t ≡ some (location_of s e)) es
      → All (λ e. m.find (id_of e) (m.erase id t) ≡ some (location_of s e)) es
  erase_listed s id t [] h k = tt
  erase_listed s id t (e ∷ es) h k =
      (laws.find-erase_ne (id_of e) id t h.0 ∙ k.0, erase_listed s id t es h.1 k.1)

  -- Resting an order with a fresh id.
  pub insert_entry-IsTable :
      (s : Side) (price : ℤ) (o : RestingOrder) (t : m.Table) (es : List Entry)
      → m.find o.order_id t ≡ none
      → IsTable m s t es
      → IsTable m s (m.put o.order_id (location_of s (price, o)) t) (insert_entry s price o es)
  insert_entry-IsTable s price o t es fresh i =
      let away = absent s o.order_id t es fresh i.listed in
      record {
        listed =
            All-insert_entry _ s price o es
              (laws.find-put_self o.order_id (location_of s (price, o)) t)
              (put_listed s o.order_id (location_of s (price, o)) t es away i.listed);
        distinct = Distinct-insert_entry s price o es away i.distinct;
        present = λ id location h side.
            HasEntry-insert_entry s price o es id location.price location.user_id
              (elim (ℤ-cases id o.order_id) [
                | inl e ↦ inl (
                    ground
                      (arith, h, e, laws.find-put_self o.order_id (location_of s (price, o)) t))
                | inr ne ↦ inr (
                    i.present id location
                      (sym (laws.find-put_ne id o.order_id (location_of s (price, o)) t ne) ∙ h)
                      side)
              ]);
      }

  -- The other side's table when an order is rested.
  pub put_other-IsTable :
      (s : Side) (id : ℤ) (location : OrderLocation) (t : m.Table) (es : List Entry)
      → location.side ≢ s
      → m.find id t ≡ none
      → IsTable m s t es
      → IsTable m s (m.put id location t) es
  put_other-IsTable s id location t es ne fresh i = record {
    listed = put_listed s id location t es (absent s id t es fresh i.listed) i.listed;
    distinct = i.distinct;
    present = λ j loc h side. elim (ℤ-cases j id) [
      | inl e ↦ absurd (ne (ground (arith, h, e, side, laws.find-put_self id location t)))
      | inr nj ↦ i.present j loc (sym (laws.find-put_ne j id location t nj) ∙ h) side
    ];
  }

  removed_away :
      (s : Side) (id : ℤ) (location : OrderLocation) (t : m.Table) (es : List Entry)
      → m.find id t ≡ some location
      → All (λ e. m.find (id_of e) t ≡ some (location_of s e)) es
      → All (λ x. id_of x ≢ id) (remove_entry location.price id es)
  unfolding remove_entry
  removed_away s id location t [] found h = tt
  removed_away s id location t (e ∷ es) found h =
      elim (Bool-cases (e.0 ==ℤ location.price && id_of e ==ℤ id)) [
        | inl b ↦ rw b (removed_away s id location t es found h.1)
        | inr b ↦
            rw b (
              (λ same. ground (arith, same, found, h.0)),
              removed_away s id location t es found h.1,
            )
      ]

  -- Cancelling the order that the table lists under the id.
  pub remove_entry-IsTable :
      (s : Side) (id : ℤ) (location : OrderLocation) (t : m.Table) (es : List Entry)
      → m.find id t ≡ some location
      → IsTable m s t es
      → IsTable m s (m.erase id t) (remove_entry location.price id es)
  remove_entry-IsTable s id location t es found i =
      let es' = remove_entry location.price id es in
      record {
        listed =
            erase_listed s id t es' (removed_away s id location t es found i.listed)
              (All-remove_entry _ location.price id es i.listed);
        distinct = Distinct-remove_entry location.price id es i.distinct;
        present = λ j loc h side.
            let (ne, old) = find-of-erase laws j id t h in
            HasEntry-remove_entry location.price id es j loc.price loc.user_id ne
              (i.present j loc old side);
      }

  -- The other side's table when an order is cancelled.
  pub erase_other-IsTable :
      (s : Side) (id : ℤ) (location : OrderLocation) (t : m.Table) (es : List Entry)
      → s ≢ location.side
      → m.find id t ≡ some location
      → IsTable m s t es
      → IsTable m s (m.erase id t) es
  erase_other-IsTable s id location t es ne found i = record {
    listed =
        erase_listed s id t es (foreign s location.side id location t es ne found refl i.listed)
          i.listed;
    distinct = i.distinct;
    present = λ j loc h side. i.present j loc (find-of-erase laws j id t h).1 side;
  }

  -- The table of one side when orders of the other are filled.
  pub fills_other-IsTable :
      (crosses : ℤ → Bool) (s s' : Side) (remaining : ℤ) (t : m.Table) (own other : List Entry)
      → s' ≢ s
      → IsTable m s' t other
      → IsTable m s t own
      → IsTable m s (foldl (unindex m) t (fill_queue crosses remaining other).fills) own
  fills_other-IsTable crosses s s' remaining t own other ne i' i = record {
    listed =
        All-weaken own
          (λ e h.
            find-unindexed_other laws crosses (id_of e) remaining other t
              (foreign s' s (id_of e) (location_of s e) t other ne h refl i'.listed)
            ∙ h)
          i.listed;
    distinct = i.distinct;
    present = λ j loc h side.
        i.present j loc (find-of-unindexed laws j (fill_queue crosses remaining other).fills t h)
          side;
  }
