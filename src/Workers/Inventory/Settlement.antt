-- ===== src/Workers/Inventory/Settlement.antt =====
-- What the settlement of trades does to the positions of all users together.
use toy_exchange.Base.{
  ◌≡◌, refl, ℕ, zero, suc, ◌<◌, List, [], ◌∷◌, Option, none, some, arith, inl, inr, ◌⊎◌, ◌↔◌, ◌≤◌,
  ◌^◌, ◌≢◌, ◌∙◌, ap, length, get_elem?, get_elem?-none, get_elem?-some, modify, length-modify, All,
}
use toy_exchange.Base.Int.{ℤ, pos, negsuc, Fits, ◌<ℤ◌, ◌≤ℤ◌, ◌+ℤ◌, int_laws}
use toy_exchange.Core.Tickers.{Ticker-cases}
use toy_exchange.Core.Types.{Ticker, Side, buy, sell, Trade}
use toy_exchange.Extern.UnorderedMap.{IsMap}
use toy_exchange.Extern.Double.{Double}
use toy_exchange.Engine.User.{Inventory, User, apply_fill, position, signed_delta}
use toy_exchange.Engine.User.Position.{
  position-apply_fill_self, position-apply_fill_ne, position-refresh,
}
use toy_exchange.Engine.UserRegistry.{UserRegistry, size_t_of}
use toy_exchange.Workers.Inventory.{maker_side, fill_both, refresh_both, settle, run_inventory}

module _ {W : Type 0} (d : Double W) (inv : Inventory W) where
  -- The shares of a ticker that all users hold together.
  abbrev pub total_position : UserRegistry inv → Ticker → ℤ
  total_position [] t = pos 0
  total_position (u ∷ us) t = position d inv u t +ℤ total_position us t

  -- Changing every user's position by one amount changes the total by it, if the user is there.
  total_position-modify :
      (us : UserRegistry inv) (i : ℕ) (f : User inv → User inv) (t : Ticker) (delta : ℤ)
      → i < length us
      → ((u : User inv) → position d inv (f u) t ≡ position d inv u t +ℤ delta)
      → total_position (modify us i f) t ≡ total_position us t +ℤ delta
  total_position-modify [] i f t delta h e = elim h [ ]
  total_position-modify (u ∷ us) zero f t delta h e = rw (e u) (omega int_laws)
  total_position-modify (u ∷ us) (suc i) f t delta h e =
      rw (total_position-modify us i f t delta (omega arith) e) (omega int_laws)

  total_position-same :
      (us : UserRegistry inv) (i : ℕ) (f : User inv → User inv) (t : Ticker)
      → ((u : User inv) → position d inv (f u) t ≡ position d inv u t)
      → total_position (modify us i f) t ≡ total_position us t
  total_position-same [] i f t e = refl
  total_position-same (u ∷ us) zero f t e = rw (e u)
  total_position-same (u ∷ us) (suc i) f t e = rw (total_position-same us i f t e)

-- Both users of the trade are in the registry.
abbrev pub HasUsers : ℕ → Trade → Type 0
HasUsers n t = (size_t_of t.maker_id < n) × (size_t_of t.taker_id < n)

opposite_deltas :
    (side : Side) (total volume : ℤ)
    → total +ℤ signed_delta (maker_side side) volume +ℤ signed_delta side volume ≡ total
opposite_deltas buy total volume = omega int_laws
opposite_deltas sell total volume = omega int_laws

module _ {W : Type 0} (d : Double W) (inv : Inventory W) (laws : IsMap inv) where
  total_position-fill_both :
      (us : UserRegistry inv) (t : Trade) (s : Ticker)
      → size_t_of t.maker_id < length us
      → size_t_of t.taker_id < length us
      → total_position d inv (fill_both d inv us t) s ≡ total_position d inv us s
  total_position-fill_both us t s m k = elim (Ticker-cases s t.ticker) [
    | inl e ↦
        let side = t.taker_side in
        let filled : UserRegistry inv =
          modify us (size_t_of t.maker_id)
            (λ u. apply_fill d inv u t.ticker (maker_side side) t.execution_price t.volume) in
        let maker =
          total_position-modify d inv us (size_t_of t.maker_id)
            (λ u. apply_fill d inv u t.ticker (maker_side side) t.execution_price t.volume) t.ticker
            (signed_delta (maker_side side) t.volume) m
            (λ u.
              position-apply_fill_self d inv laws u t.ticker (maker_side side) t.execution_price
                t.volume) in
        let taker =
          total_position-modify d inv filled (size_t_of t.taker_id)
            (λ u. apply_fill d inv u t.ticker side t.execution_price t.volume) t.ticker
            (signed_delta side t.volume)
            (rw
              (length-modify us (size_t_of t.maker_id)
                (λ u. apply_fill d inv u t.ticker (maker_side side) t.execution_price t.volume))
              k)
            (λ u. position-apply_fill_self d inv laws u t.ticker side t.execution_price t.volume) in
        rw e (
          taker
          ∙ ap (λ p. p +ℤ signed_delta side t.volume) maker
          ∙ opposite_deltas side (total_position d inv us t.ticker) t.volume)
    | inr ne ↦
        total_position-same d inv _ (size_t_of t.taker_id) _ s (λ u.
          position-apply_fill_ne d inv laws u t.ticker t.taker_side t.execution_price t.volume s ne)
        ∙ total_position-same d inv us (size_t_of t.maker_id) _ s (λ u.
          position-apply_fill_ne d inv laws u t.ticker (maker_side t.taker_side) t.execution_price
            t.volume s ne)
  ]

  total_position-refresh_both :
      (us : UserRegistry inv) (t : Trade) (mid : Option ℤ) (s : Ticker)
      → total_position d inv (refresh_both d inv us t mid) s ≡ total_position d inv us s
  total_position-refresh_both us t none s = refl
  total_position-refresh_both us t (some mid) s =
      total_position-same d inv _ (size_t_of t.taker_id) _ s
        (λ u. position-refresh d inv laws u t.ticker s mid)
      ∙ total_position-same d inv us (size_t_of t.maker_id) _ s
          (λ u. position-refresh d inv laws u t.ticker s mid)

  length-refresh_both :
      (us : UserRegistry inv) (t : Trade) (mid : Option ℤ)
      → length (refresh_both d inv us t mid) ≡ length us
  length-refresh_both us t none = refl
  length-refresh_both us t (some mid) =
      length-modify _ (size_t_of t.taker_id) _ ∙ length-modify us (size_t_of t.maker_id) _

  -- A trade between users of the registry is settled, whatever the mid price: the registry keeps
  -- its users, and of every ticker they hold together what they held before.
  pub settle-total_position :
      (us : UserRegistry inv) (t : Trade) (mid : Option ℤ) (s : Ticker)
      → HasUsers (length us) t
      → (us' : UserRegistry inv) × (settle d inv us t mid ≡ some us')
        × (length us' ≡ length us)
        × (total_position d inv us' s ≡ total_position d inv us s)
  unfolding settle
  settle-total_position us t mid s (m, k) =
      let (maker, found_maker) = get_elem?-some us (size_t_of t.maker_id) m in
      let (taker, found_taker) = get_elem?-some us (size_t_of t.taker_id) k in
      (
        refresh_both d inv (fill_both d inv us t) t mid,
        rw (found_maker, settle) (rw found_taker refl),
        length-refresh_both (fill_both d inv us t) t mid
            ∙ length-modify _ (size_t_of t.taker_id) _
            ∙ length-modify us (size_t_of t.maker_id) _,
        total_position-refresh_both (fill_both d inv us t) t mid s
            ∙ total_position-fill_both us t s m k,
      )

  -- The whole run over trades between users of the registry ends, and conserves every ticker's
  -- shares.
  pub run_inventory-total_position :
      (us : UserRegistry inv) (ts : List (Trade × Option ℤ)) (s : Ticker)
      → All (λ t. HasUsers (length us) t.0) ts
      → (us' : UserRegistry inv) × (run_inventory d inv us ts ≡ some us')
        × (length us' ≡ length us)
        × (total_position d inv us' s ≡ total_position d inv us s)
  unfolding run_inventory
  run_inventory-total_position us [] s h = (us, refl, refl, refl)
  run_inventory-total_position us ((t, mid) ∷ ts) s h =
      let (us', done, size, total) = settle-total_position us t mid s h.0 in
      let (us'', finished, size', total') = run_inventory-total_position us' ts s (rw size h.1) in
      (us'', rw (done, run_inventory) finished, size' ∙ size, total' ∙ total)

-- Users are numbered from 0.
abbrev pub IsStranger : ℕ → ℤ → Type 0
IsStranger count id = (id <ℤ pos 0) ⊎ (pos count ≤ℤ id)

IsStranger-cases : (count : ℕ) (id : ℤ) → IsStranger count id ⊎ (size_t_of id < count)
IsStranger-cases count (pos n) = ground arith
IsStranger-cases count (negsuc n) = inl (omega arith)

-- An `int64_t` that is negative is cast to a number that no registry reaches.
size_t_of_stranger :
    (count : ℕ) (id : ℤ) → count ≤ 2 ^ 63 → Fits id → IsStranger count id → count ≤ size_t_of id
size_t_of_stranger count (pos n) h fits unknown = ground arith
size_t_of_stranger count (negsuc n) h fits unknown = ground arith

module _ {W : Type 0} (d : Double W) (inv : Inventory W) where
  settle-none :
      (us : UserRegistry inv) (t : Trade) (mid : Option ℤ)
      → (get_elem? us (size_t_of t.maker_id) ≡ none) ⊎ (get_elem? us (size_t_of t.taker_id) ≡ none)
      → settle d inv us t mid ≡ none
  unfolding settle
  settle-none us t mid h = ground arith

  settle-known :
      (us : UserRegistry inv) (t : Trade) (mid : Option ℤ)
      → size_t_of t.maker_id < length us
      → size_t_of t.taker_id < length us
      → settle d inv us t mid ≢ none
  unfolding settle
  settle-known us t mid maker taker thrown =
      let (u, found) = get_elem?-some us (size_t_of t.maker_id) maker in
      let (v, found') = get_elem?-some us (size_t_of t.taker_id) taker in
      cc (rw (settle, found, found') at thrown)

  -- Settlement throws exactly when the maker or the taker of the trade is negative or not below the
  -- number of users: the exception of `at`. The ids fit in an `int64_t`, and the registry has at
  -- most 2^63 users.
  pub settle-unknown_user :
      (us : UserRegistry inv) (t : Trade) (mid : Option ℤ)
      → length us ≤ 2 ^ 63
      → Fits t.maker_id
      → Fits t.taker_id
      → (settle d inv us t mid ≡ none)
        ↔ (IsStranger (length us) t.maker_id ⊎ IsStranger (length us) t.taker_id)
  settle-unknown_user us t mid h maker taker = (throws, unknown)
    where
      throws :
          settle d inv us t mid ≡ none
          → IsStranger (length us) t.maker_id ⊎ IsStranger (length us) t.taker_id
      throws thrown = elim (IsStranger-cases (length us) t.maker_id) [
        | inl u ↦ inl u
        | inr k ↦ elim (IsStranger-cases (length us) t.taker_id) [
          | inl u ↦ inr u
          | inr k' ↦ absurd (settle-known us t mid k k' thrown)
        ]
      ]

      unknown :
          IsStranger (length us) t.maker_id ⊎ IsStranger (length us) t.taker_id
          → settle d inv us t mid ≡ none
      unknown (inl u) =
          settle-none us t mid
            (inl (get_elem?-none us _ (size_t_of_stranger (length us) t.maker_id h maker u)))
      unknown (inr u) =
          settle-none us t mid
            (inr (get_elem?-none us _ (size_t_of_stranger (length us) t.taker_id h taker u)))
