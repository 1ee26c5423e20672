-- ===== src/Net/Descriptors.antt =====
-- The descriptors that the classes of common/net open and close.
use toy_exchange.Base.{
  ◌≡◌, ◌≢◌, refl, sym, ◌∙◌, ap, ap₂, subst, ℕ, suc, ◌+◌, Option, none, some, Bool, true, false,
  if◌then◌else◌, ◌==◌, ==_iff, Bool-cases, inl, inr, arith,
}
use mathlib.Core.Option.{some-injective}
use toy_exchange.Extern.Kernel.{Kernel, IsKernel}

abbrev pub bit : Bool → ℕ
bit true = 1
bit false = 0

-- Whether a member that is a descriptor, or -1, is `n`.
abbrev pub holds : Option ℕ → ℕ → ℕ
holds none n = 0
holds (some fd) n = bit (n == fd)

pub bit_self : (n : ℕ) → bit (n == n) ≡ 1
bit_self n = rw ((==_iff n n).1 refl) refl

bit_eq : (b c : Bool) → bit b ≡ bit c → b ≡ c
bit_eq true true e = refl
bit_eq true false e = absurd (omega arith)
bit_eq false true e = absurd (omega arith)
bit_eq false false e = refl

-- A descriptor that is counted is open.
pub bit_suc : (b : Bool) (n : ℕ) → bit b ≡ n + 1 → b ≡ true
bit_suc true n e = refl
bit_suc false n e = absurd (omega arith)

pub bit_one : (b : Bool) (n : ℕ) → bit b ≡ n + 1 → 0 ≡ n
bit_one true n e = omega arith
bit_one false n e = absurd (omega arith)

pub not_held : (n fd rest : ℕ) → (n == fd) ≡ false → rest + bit (n == fd) ≡ rest
not_held n fd rest e = rw e (omega arith)

pub ==→ne : (m n : ℕ) → (m == n) ≡ false → m ≢ n
==→ne m n e = ground arith

pub assoc_last : (a b c : ℕ) → (a + b) + c ≡ a + (b + c)
assoc_last a b c = omega arith

module _ (k : Kernel) where
  -- The descriptors of the process, and how often `close` was called on one that is not open.
  pub record Held : Type 0 where
    pub files : k.Files
    pub bad_closes : ℕ

  abbrev pub start_held : k.Files → Held
  start_held files = record { files = files; bad_closes = 0 }

  abbrev pub close_fd : Held → ℕ → Held
  close_fd h fd = record {
    files = k.close fd h.files;
    bad_closes = if k.is_open h.files fd then h.bad_closes else suc h.bad_closes;
  }

  abbrev with_files : Held → Option (ℕ × k.Files) → Option (ℕ × Held)
  with_files h none = none
  with_files h (some (fd, files)) = some (fd, record h { files = files })

  -- A call that makes a descriptor, which fails for want of one or for another reason.
  abbrev pub open_fd : Held → Bool → Option (ℕ × Held)
  open_fd h was_made = if was_made then with_files h (k.open_new h.files) else none

  -- `if (fd >= 0) close(fd)`
  abbrev pub close_member : Held → Option ℕ → Held
  close_member h none = h
  close_member h (some fd) = close_fd h fd

  -- The open descriptors are those of `rest`, each once, and all that was closed was open.
  abbrev pub AreHeld : Held → (ℕ → ℕ) → Type 0
  AreHeld h rest = ((n : ℕ) → bit (k.is_open h.files n) ≡ rest n) × (h.bad_closes ≡ 0)

  pub AreHeld-eq :
      (h : Held) (rest more : ℕ → ℕ) → ((n : ℕ) → rest n ≡ more n) → AreHeld h rest → AreHeld h more
  AreHeld-eq h rest more same (counted, none_bad) = (λ n. counted n ∙ same n, none_bad)

  -- The same descriptors are open, and nothing was closed that was not open.
  abbrev pub IsAsBefore : k.Files → Held → Type 0
  IsAsBefore files h = ((n : ℕ) → k.is_open h.files n ≡ k.is_open files n) × (h.bad_closes ≡ 0)

  pub AreHeld-IsAsBefore :
      (files : k.Files) (h : Held) → AreHeld h (λ n. bit (k.is_open files n)) → IsAsBefore files h
  AreHeld-IsAsBefore files h (counted, none_bad) = (λ n. bit_eq _ _ (counted n), none_bad)

  pub start-AreHeld : (files : k.Files) → AreHeld (start_held files) (λ n. bit (k.is_open files n))
  start-AreHeld files = (λ n. refl, refl)

  with_files-some :
      (h : Held) (o : Option (ℕ × k.Files)) (fd : ℕ) (h' : Held)
      → with_files h o ≡ some (fd, h')
      → (o ≡ some (fd, h'.files)) × (h'.bad_closes ≡ h.bad_closes)
  with_files-some h none fd h' e = absurd (cc e)
  with_files-some h (some (j, files)) fd h' e =
      let q = some-injective _ _ e in
      (ap (λ p. some (p.0, p.1.files)) q, ap (λ p. p.1.bad_closes) (sym q))

  -- The descriptor and the files of a call that succeeds.
  open_fd_new :
      (h : Held) (was_made : Bool) (fd : ℕ) (h' : Held)
      → open_fd h was_made ≡ some (fd, h')
      → (k.open_new h.files ≡ some (fd, h'.files)) × (h'.bad_closes ≡ h.bad_closes)
  open_fd_new h false fd h' opened = absurd (cc opened)
  open_fd_new h true fd h' opened = with_files-some h (k.open_new h.files) fd h' opened

  module _ (laws : IsKernel k) where
    pub close_fd-AreHeld :
        (h : Held) (fd : ℕ) (rest : ℕ → ℕ)
        → AreHeld h (λ n. rest n + bit (n == fd))
        → AreHeld (close_fd h fd) rest
    close_fd-AreHeld h fd rest (counted, none_bad) =
        let held = counted fd ∙ ap (λ b. rest fd + b) (bit_self fd) in
        (
          λ n. elim (Bool-cases (n == fd)) [
            | inl e ↦
                subst (λ j. bit (k.is_open (k.close fd h.files) j) ≡ rest j)
                  (sym ((==_iff n fd).0 e))
                  (ap bit (laws.is_open-close_self h.files fd) ∙ bit_one _ _ held)
            | inr e ↦
                ap bit (laws.is_open-close_ne h.files fd n (==→ne n fd e))
                ∙ counted n
                ∙ not_held n fd (rest n) e
          ],
          rw (bit_suc _ _ held) none_bad,
        )

    pub open_fd-AreHeld :
        (h : Held) (was_made : Bool) (fd : ℕ) (h' : Held) (rest : ℕ → ℕ)
        → open_fd h was_made ≡ some (fd, h')
        → AreHeld h rest
        → AreHeld h' (λ n. rest n + bit (n == fd))
    open_fd-AreHeld h was_made fd h' rest opened (counted, none_bad) =
        let (new, same) = open_fd_new h was_made fd h' opened in
        let closed = laws.fresh h.files h'.files fd new in
        (
          λ n. elim (Bool-cases (n == fd)) [
            | inl e ↦
                subst (λ j. bit (k.is_open h'.files j) ≡ rest j + bit (j == fd))
                  (sym ((==_iff n fd).0 e))
                  (ap bit (laws.is_open-open_new_self h.files h'.files fd new)
                    ∙ ap₂ (λ a b. a + b) (ap bit (sym closed) ∙ counted fd) (sym (bit_self fd)))
            | inr e ↦
                ap bit (laws.is_open-open_new_ne h.files h'.files fd n new (==→ne n fd e))
                ∙ counted n
                ∙ sym (not_held n fd (rest n) e)
          ],
          same ∙ none_bad,
        )

    pub close_member-AreHeld :
        (h : Held) (o : Option ℕ) (rest : ℕ → ℕ)
        → AreHeld h (λ n. rest n + holds o n)
        → AreHeld (close_member h o) rest
    close_member-AreHeld h none rest (counted, none_bad) = (λ n. counted n ∙ omega arith, none_bad)
    close_member-AreHeld h (some fd) rest held = close_fd-AreHeld h fd rest held
