-- ===== src/Llama/Gguf/Calm.antt =====
-- Readers of crates/tiny-mite-llama-cpp/src/gguf.rs that need no more stack than they have bytes.
use tiny_mite.Llama.Gguf.{Decoding, IoError}
use tiny_mite.Llama.Gguf.Bytes.{
  Reader, done, refuse, ◌>>=◌, read_exact, read_le, read_u32le, read_u64le, read_i32le, read_f32le,
  read_string,
}
use tiny_mite.Llama.Gguf.Values.{read_scalar}
use tiny_mite.Prelude.{
  ℕ, zero, suc, ◌+◌, ◌≤◌, ◌<◌, ◌≡◌, ◌≢◌, refl, Bool, true, false, String, List, [], ◌∷◌, arith,
  length, ◌==◌, if◌then◌else◌, ok, err, Result-cases, inl, inr, sym, ◌∙◌,
}

-- A reader that never gives bytes back, and that does not overflow the stack on fewer than so many
-- bytes.
pub record Calm {ℓ} {A : Type ℓ} (n : ℕ) (m : Reader A) : Type ℓ where
  pub within :
      (bytes : List ℕ) (a : A) (rest : List ℕ) → m bytes ≡ ok (a, rest) → length rest ≤ length bytes
  pub no_overflow : (bytes : List ℕ) → length bytes < n → m bytes ≢ err IoError.stack_overflow

module _ {A : Type 0} where
  pub done-Calm : (n : ℕ) (a : A) → Calm n (done a)
  done-Calm n a = record {
    within = λ bytes b rest h. ground arith;
    no_overflow = λ bytes l h. ground arith;
  }

  pub invalid_data-Calm : (n : ℕ) (e : String) → Calm {A = A} n (refuse (IoError.invalid_data e))
  invalid_data-Calm n e = record {
    within = λ bytes b rest h. absurd (ground arith);
    no_overflow = λ bytes l h. ground arith;
  }

  pub if-Calm :
      (n : ℕ) (b : Bool) (m k : Reader A) → Calm n m → Calm n k → Calm n (if b then m else k)
  if-Calm n true m k c d = c
  if-Calm n false m k c d = d

-- A reader that takes at least one byte.
pub record Strict {A : Type 0} (m : Reader A) : Type 0 where
  pub takes :
      (bytes : List ℕ) (a : A) (rest : List ℕ) → m bytes ≡ ok (a, rest) → length rest < length bytes

module _ {A B : Type 0} (m : Reader A) (f : A → Reader B) where
  pub bind-ok :
      (bytes : List ℕ) (a : A) (left : List ℕ) → m bytes ≡ ok (a, left) → (m >>= f) bytes ≡ f a left
  bind-ok bytes a left r = rw (r, ◌>>=◌) refl

  pub bind-err : (bytes : List ℕ) (e : IoError) → m bytes ≡ err e → (m >>= f) bytes ≡ err e
  bind-err bytes e r = rw (r, ◌>>=◌) refl

  pub >>=-Calm : (n : ℕ) → Calm n m → ((a : A) → Calm n (f a)) → Calm n (m >>= f)
  >>=-Calm n c d = record {
    within = λ bytes b rest h. elim (Result-cases (m bytes)) [
      | inl (e, r) ↦ absurd (ground (arith, bind-err bytes e r))
      | inr ((a, left), r) ↦
          let after = (d a).within left b rest (sym (bind-ok bytes a left r) ∙ h) in
          omega (arith, c.within bytes a left r)
    ];
    no_overflow = λ bytes l h. elim (Result-cases (m bytes)) [
      | inl (e, r) ↦ c.no_overflow bytes l (ground (arith, bind-err bytes e r))
      | inr ((a, left), r) ↦
          (d a).no_overflow left (omega (arith, c.within bytes a left r))
            (sym (bind-ok bytes a left r) ∙ h)
    ];
  }

  -- What follows a reader that takes a byte has more of the stack than bytes by one.
  pub >>=-Calm-Strict :
      (n : ℕ) → Strict m → Calm (suc n) m → ((a : A) → Calm n (f a)) → Calm (suc n) (m >>= f)
  >>=-Calm-Strict n t c d = record {
    within = λ bytes b rest h. elim (Result-cases (m bytes)) [
      | inl (e, r) ↦ absurd (ground (arith, bind-err bytes e r))
      | inr ((a, left), r) ↦
          let after = (d a).within left b rest (sym (bind-ok bytes a left r) ∙ h) in
          omega (arith, c.within bytes a left r)
    ];
    no_overflow = λ bytes l h. elim (Result-cases (m bytes)) [
      | inl (e, r) ↦ c.no_overflow bytes l (ground (arith, bind-err bytes e r))
      | inr ((a, left), r) ↦
          (d a).no_overflow left (omega (arith, t.takes bytes a left r))
            (sym (bind-ok bytes a left r) ∙ h)
    ];
  }

module _ {A B : Type 0} where
  pub then_done-Calm :
      (n : ℕ) (m : Reader A) (g : A → B) → Calm n m → Calm n (m >>= λ a. done (g a))
  then_done-Calm n m g c = >>=-Calm m _ n c (λ a. done-Calm n (g a))

read_exact-length :
    (n : ℕ) (bytes buffer rest : List ℕ)
    → read_exact n bytes ≡ ok (buffer, rest)
    → length rest + n ≡ length bytes
unfolding read_exact
read_exact-length zero bytes buffer rest h = ground arith
read_exact-length (suc n) [] buffer rest h = absurd (ground arith)
read_exact-length (suc n) (b ∷ bytes) buffer rest h = elim (Result-cases (read_exact n bytes)) [
  | inl (e, r) ↦ absurd (ground arith)
  | inr ((front, left), r) ↦ ground (arith, read_exact-length n bytes front left r)
]

read_exact_no_overflow : (n : ℕ) (bytes : List ℕ) → read_exact n bytes ≢ err IoError.stack_overflow
unfolding read_exact
read_exact_no_overflow zero bytes h = ground arith
read_exact_no_overflow (suc n) [] h = ground arith
read_exact_no_overflow (suc n) (b ∷ bytes) h = elim (Result-cases (read_exact n bytes)) [
  | inl (e, r) ↦ read_exact_no_overflow n bytes (ground arith)
  | inr ((front, left), r) ↦ ground arith
]

pub read_exact-Calm : (n width : ℕ) → Calm n (read_exact width)
read_exact-Calm n width = record {
  within = λ bytes a rest h. omega (arith, read_exact-length width bytes a rest h);
  no_overflow = λ bytes l h. read_exact_no_overflow width bytes h;
}

pub read_le-Calm : (n width : ℕ) → Calm n (read_le width)
unfolding read_le
read_le-Calm n width =
    >>=-Calm (read_exact width) _ n (read_exact-Calm n width) (λ b. done-Calm n _)

pub read_u32le-Calm : (n : ℕ) → Calm n read_u32le
unfolding read_u32le
read_u32le-Calm n = read_le-Calm n 4

pub read_u64le-Calm : (n : ℕ) → Calm n read_u64le
unfolding read_u64le
read_u64le-Calm n = read_le-Calm n 8

pub read_u32le-Strict : Strict read_u32le
unfolding read_u32le read_le
read_u32le-Strict = record {
  takes = λ bytes a rest h. elim (Result-cases (read_exact 4 bytes)) [
    | inl (e, r) ↦ absurd (ground arith)
    | inr ((front, left), r) ↦ ground (arith, read_exact-length 4 bytes front left r)
  ];
}

module _ (D : Decoding) where
  pub read_string-Calm : (n : ℕ) → Calm n (read_string D)
  unfolding read_string read_u64le
  read_string-Calm n = >>=-Calm (read_le 8) _ n (read_le-Calm n 8) (λ len.
      if-Calm n _ _ _ (invalid_data-Calm n _)
        (>>=-Calm (read_exact len) _ n (read_exact-Calm n len) (λ b. done-Calm n _)))

  pub read_scalar-Calm : (n gtype : ℕ) → Calm n (read_scalar D gtype)
  unfolding read_scalar read_u32le read_u64le read_i32le read_f32le
  read_scalar-Calm n gtype = if-Calm n (gtype == 0) _ _ (then_done-Calm n _ _ (read_le-Calm n 1)) (
      if-Calm n (gtype == 1) _ _ (then_done-Calm n _ _ (read_le-Calm n 1)) (
        if-Calm n (gtype == 2) _ _ (then_done-Calm n _ _ (read_le-Calm n 2)) (
          if-Calm n (gtype == 3) _ _ (then_done-Calm n _ _ (read_le-Calm n 2)) (
            if-Calm n (gtype == 4) _ _ (then_done-Calm n _ _ (read_le-Calm n 4)) (
              if-Calm n (gtype == 5) _ _
                (then_done-Calm n _ _ (then_done-Calm n _ _ (read_le-Calm n 4)))
                (if-Calm n (gtype == 6) _ _
                  (then_done-Calm n _ _ (then_done-Calm n _ _ (read_le-Calm n 4)))
                  (if-Calm n (gtype == 7) _ _ (then_done-Calm n _ _ (read_le-Calm n 1)) (
                    if-Calm n (gtype == 8) _ _ (then_done-Calm n _ _ (read_string-Calm n)) (
                      if-Calm n (gtype == 10) _ _ (then_done-Calm n _ _ (read_le-Calm n 8)) (
                        if-Calm n (gtype == 11) _ _ (then_done-Calm n _ _ (read_le-Calm n 8)) (
                          if-Calm n (gtype == 12) _ _ (then_done-Calm n _ _ (read_le-Calm n 8))
                            (invalid_data-Calm n _))))))))))))
