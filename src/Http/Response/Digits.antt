-- ===== src/Http/Response/Digits.antt =====
-- The encoder writes numbers in digits.
use rust_tcp_server.Base.{
  ℕ, zero, suc, ◌+◌, ◌/◌, ◌%◌, ◌≡◌, refl, subst, Bool-cases, inl, inr, [], ◌∷◌, Option, none, some,
  ◌==◌, Bytes, arith,
}
use rust_tcp_server.Http.Response.{write_digits, write_usize, appended}
use rust_tcp_server.Text.Digits.{AllDigits}

write_digits-AllDigits :
    (i n : ℕ) (tmp ds : Bytes) → AllDigits tmp → write_digits i n tmp ≡ some ds → AllDigits ds
unfolding write_digits
write_digits-AllDigits zero n tmp ds h e = elim (Bool-cases (n == 0)) [
  | inl z ↦ (let same : tmp ≡ ds = ground arith in subst AllDigits same h)
  | inr s ↦ cc (rw s at e)
]
write_digits-AllDigits (suc i) n tmp ds h e = elim (Bool-cases (n == 0)) [
  | inl z ↦ (let same : tmp ≡ ds = ground arith in subst AllDigits same h)
  | inr s ↦
      write_digits-AllDigits i (n / 10) ((b'0' + n % 10) ∷ tmp) ds (ground arith, h) (rw s at e)
]

appended-AllDigits :
    (n : ℕ) (o : Option Bytes) → write_digits 20 n [] ≡ o → AllDigits (appended [] o)
appended-AllDigits n none e = tt
appended-AllDigits n (some ds) e = write_digits-AllDigits 20 n [] ds tt e

pub write_usize-AllDigits : (n : ℕ) → AllDigits (write_usize [] n)
unfolding write_usize
write_usize-AllDigits n = elim (Bool-cases (n == 0)) [
  | inl z ↦ rw z (refl, tt)
  | inr s ↦ rw s (appended-AllDigits n (write_digits 20 n []) refl)
]
