-- ===== src/Extern/FileTable.antt =====
-- A list of open descriptors: a table that meets what is asked of a `Kernel`, for the tests.
use toy_exchange.Base.{
  ◌≡◌, ◌≢◌, ◌<◌, refl, sym, ◌∙◌, subst, ℕ, suc, List, [], ◌∷◌, some, Bool, true, false,
  if◌then◌else◌, leb, ◌==◌, ==_iff, Bool-cases, inl, inr, arith,
}
use mathlib.Core.Option.{some-injective}
use toy_exchange.Extern.Kernel.{Kernel, IsKernel}

abbrev is_listed : List ℕ → ℕ → Bool
is_listed [] n = false
is_listed (fd ∷ fds) n = if n == fd then true else is_listed fds n

-- A number above all of them.
abbrev above : List ℕ → ℕ
above [] = 0
above (fd ∷ fds) = if leb (above fds) fd then suc fd else above fds

abbrev without : ℕ → List ℕ → List ℕ
without n [] = []
without n (fd ∷ fds) = if n == fd then without n fds else fd ∷ without n fds

abbrev pub file_table : Kernel
file_table = record {
  Files = List ℕ;
  is_open = is_listed;
  open_new = λ fds. some (above fds, above fds ∷ fds);
  close = without;
}

==_self : (n : ℕ) → (n == n) ≡ true
==_self n = (==_iff n n).1 refl

ne→== : (m n : ℕ) → m ≢ n → (m == n) ≡ false
ne→== m n ne = ground arith

is_listed-above : (fds : List ℕ) (n : ℕ) → above fds < suc n → is_listed fds n ≡ false
is_listed-above [] n h = refl
is_listed-above (fd ∷ fds) n h =
    let fds_below : above fds < suc n = ground arith in
    rw (ne→== n fd (λ e. ground arith)) (is_listed-above fds n fds_below)

is_listed-without_self : (n : ℕ) (fds : List ℕ) → is_listed (without n fds) n ≡ false
is_listed-without_self n [] = refl
is_listed-without_self n (fd ∷ fds) = elim (Bool-cases (n == fd)) [
  | inl e ↦ rw e (is_listed-without_self n fds)
  | inr e ↦ rw (e, e) (is_listed-without_self n fds)
]

is_listed-without_ne :
    (fds : List ℕ) (n j : ℕ) → j ≢ n → is_listed (without n fds) j ≡ is_listed fds j
is_listed-without_ne [] n j ne = refl
is_listed-without_ne (fd ∷ fds) n j ne = elim (Bool-cases (n == fd)) [
  | inl e ↦
      rw (e, ne→== j fd (λ q. ne (q ∙ sym ((==_iff n fd).0 e)))) (is_listed-without_ne fds n j ne)
  | inr e ↦ rw (e, is_listed-without_ne fds n j ne) refl
]

pub file_table-IsKernel : IsKernel file_table
file_table-IsKernel = record {
  fresh = λ f g n e.
      subst (λ p. is_listed f p.0 ≡ false) (some-injective _ _ e)
        (is_listed-above f (above f) (omega arith));
  is_open-open_new_self = λ f g n e.
      subst (λ p. is_listed p.1 p.0 ≡ true) (some-injective _ _ e) (rw (==_self (above f)) refl);
  is_open-open_new_ne = λ f g n j e ne.
      subst (λ p. j ≢ p.0 → is_listed p.1 j ≡ is_listed f j) (some-injective _ _ e)
        (λ d. rw (ne→== j (above f) d) refl) ne;
  is_open-close_self = λ f n. is_listed-without_self n f;
  is_open-close_ne = is_listed-without_ne;
}
