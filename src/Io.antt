-- ===== src/Io.antt =====
-- `std::io::Result`, with the kinds of error that the sources tell apart.
pub data IoError : Type 0 where
  enospc invalid_data unexpected_eof other : IoError

pub data IoResult {ℓ} (A : Type ℓ) : Type ℓ where
  ok : A → IoResult A
  err : IoError → IoResult A

infixl 5 ◌>>=◌
abbrev pub ◌>>=◌ {ℓ κ} : {A : Type ℓ} {B : Type κ} → IoResult A → (A → IoResult B) → IoResult B
ok a >>= f = f a
err e >>= f = err e
