-- ===== src/Net/Gateway/Sockets/Tables.antt =====
-- The descriptors in `connections_` of common/net/gateway.hpp, each counted once.
use toy_exchange.Base.{
  ◌≡◌, ◌≢◌, refl, sym, subst, ℕ, ◌+◌, List, ◌∷◌, Option, none, some, ◌==◌, ==_iff, Bool-cases, inl,
  inr, arith,
}
use toy_exchange.Extern.UnorderedMap.{IsMap, lookup}
use toy_exchange.Net.Descriptors.{bit, bit_self, ==→ne}
use toy_exchange.Net.Gateway.{Connection, ConnectionMap}

abbrev pub counted {ℓ} : {A : Type ℓ} → Option A → ℕ
counted none = 0
counted (some c) = 1

pub counted_zero {ℓ} : {A : Type ℓ} (o : Option A) → 0 ≡ counted o → o ≡ none
counted_zero none e = refl
counted_zero (some c) e = absurd (omega arith)

-- To show an equation for the descriptor at hand and for every other one.
pub by_descriptor : (P : ℕ → Type 0) (fd : ℕ) → P fd → ((n : ℕ) → n ≢ fd → P n) → (n : ℕ) → P n
by_descriptor P fd here elsewhere n = elim (Bool-cases (n == fd)) [
  | inl e ↦ subst P (sym ((==_iff n fd).0 e)) here
  | inr e ↦ elsewhere n (==→ne n fd e)
]

pub bit_other : (n fd : ℕ) → n ≢ fd → bit (n == fd) ≡ 0
bit_other n fd ne = elim (Bool-cases (n == fd)) [
  | inl e ↦ absurd (ne ((==_iff n fd).0 e))
  | inr e ↦ rw e refl
]

module _ (t : ConnectionMap) (laws : IsMap t) where
  abbrev pub in_table : t.Table → ℕ → ℕ
  in_table tbl n = counted (t.find n tbl)

  pub in_table_new :
      (tbl : t.Table) (fd : ℕ) (c : Connection)
      → t.find fd tbl ≡ none
      → (n : ℕ) → in_table tbl n + bit (n == fd) ≡ in_table (t.put fd c tbl) n
  in_table_new tbl fd c new =
      by_descriptor (λ n. in_table tbl n + bit (n == fd) ≡ in_table (t.put fd c tbl) n) fd
        (rw (laws.find-put_self fd c tbl, new, bit_self fd) refl)
        (λ n ne. rw (laws.find-put_ne n fd c tbl ne, bit_other n fd ne) (omega arith))

  pub in_table_stored :
      (tbl : t.Table) (fd : ℕ) (b c : Connection)
      → t.find fd tbl ≡ some b
      → (n : ℕ) → in_table tbl n ≡ in_table (t.put fd c tbl) n
  in_table_stored tbl fd b c found =
      by_descriptor (λ n. in_table tbl n ≡ in_table (t.put fd c tbl) n) fd
        (rw (laws.find-put_self fd c tbl, found) refl)
        (λ n ne. rw (laws.find-put_ne n fd c tbl ne) refl)

  pub in_table_erased :
      (tbl : t.Table) (fd : ℕ) (c : Connection)
      → t.find fd tbl ≡ some c
      → (n : ℕ) → in_table tbl n ≡ in_table (t.erase fd tbl) n + bit (n == fd)
  in_table_erased tbl fd c found =
      by_descriptor (λ n. in_table tbl n ≡ in_table (t.erase fd tbl) n + bit (n == fd)) fd
        (rw (laws.find-erase_self fd tbl, found, bit_self fd) refl)
        (λ n ne. rw (laws.find-erase_ne n fd tbl ne, bit_other n fd ne) (omega arith))

-- The keys that an iteration visits.
abbrev pub in_entries : List (ℕ × Connection) → ℕ → ℕ
in_entries es n = counted (lookup (λ i j. i == j) n es)

pub in_entries_first :
    (fd : ℕ) (c : Connection) (es : List (ℕ × Connection))
    → lookup (λ i j. i == j) fd es ≡ none
    → (n : ℕ) → in_entries ((fd, c) ∷ es) n ≡ in_entries es n + bit (n == fd)
in_entries_first fd c es once =
    by_descriptor (λ n. in_entries ((fd, c) ∷ es) n ≡ in_entries es n + bit (n == fd)) fd
      (rw (once, (==_iff fd fd).1 refl) refl)
      (λ n ne. elim (Bool-cases (n == fd)) [
        | inl e ↦ absurd (ne ((==_iff n fd).0 e))
        | inr e ↦ rw e (omega arith)
      ])
