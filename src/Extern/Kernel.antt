-- ===== src/Extern/Kernel.antt =====
-- The descriptors of the process, which the operating system keeps: the calls of common/net that
-- make and close them, and what POSIX says of them.
use toy_exchange.Base.{ℕ, ◌≡◌, ◌≢◌, Option, some, Bool, true, false}

pub record Kernel : Type 1 where
  pub Files : Type 0
  pub is_open : Files → ℕ → Bool
  -- A call of `socket`, `epoll_create1` or `accept4`; `none` is a negative result.
  pub open_new : Files → Option (ℕ × Files)
  pub close : ℕ → Files → Files

pub record IsKernel (k : Kernel) : Type 0 where
  pub fresh : (f g : k.Files) (n : ℕ) → k.open_new f ≡ some (n, g) → k.is_open f n ≡ false
  pub is_open-open_new_self :
      (f g : k.Files) (n : ℕ) → k.open_new f ≡ some (n, g) → k.is_open g n ≡ true
  pub is_open-open_new_ne :
      (f g : k.Files) (n j : ℕ) → k.open_new f ≡ some (n, g) → j ≢ n → k.is_open g j ≡ k.is_open f j
  pub is_open-close_self : (f : k.Files) (n : ℕ) → k.is_open (k.close n f) n ≡ false
  pub is_open-close_ne : (f : k.Files) (n j : ℕ) → j ≢ n → k.is_open (k.close n f) j ≡ k.is_open f j
