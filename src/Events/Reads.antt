-- ===== src/Events/Reads.antt =====
-- What it is for a reader to take a value off the bytes, and the fields of an event.
use tokenir.Prelude.{
  ℕ, ◌^◌, ◌<◌, ◌≡◌, refl, sym, ap, ◌∙◌, Bool, true, false, none, some, List, [], ◌∷◌, ◌++◌, length,
  all, append_assoc, arith,
}
use tokenir.Prelude.Int.{ℤ, pos, negsuc, as_i64, as_u64}
use tokenir.Prelude.Text.{Text}
use tokenir.Solana.{Pubkey}
use tokenir.Borsh.{le_bytes, utf8, text_bytes}
use tokenir.Borsh.Utf8.{is_scalar}
use tokenir.Borsh.Read.{
  Reader, pure, ◌>>=◌, then_read, read_text, read_bool, read_bytes-append, read_number-append,
  read_text-append,
}
use tokenir.Events.Decode.{read_u64, read_i64, read_pubkey, read_flag}

abbrev pub IsU64 : ℕ → Type 0
IsU64 n = n < 2 ^ 64

abbrev pub IsI64 : ℤ → Type 0
IsI64 (pos n) = n < 2 ^ 63
IsI64 (negsuc n) = n < 2 ^ 63

abbrev pub IsKey : Pubkey → Type 0
IsKey k = length k ≡ 32

abbrev pub IsText : Text → Type 0
IsText s = (all is_scalar s ≡ true) × (length (utf8 s) < 2 ^ 32)

-- The reader takes `a` off `bytes` and leaves what follows.
pub record Reads {A : Type 0} (r : Reader A) (a : A) (bytes : List ℕ) : Type 0 where
  pub at : (rest : List ℕ) → r (bytes ++ rest) ≡ some (a, rest)

module _ {A : Type 0} where
  pub pure-Reads : (a : A) → Reads (pure a) a []
  unfolding pure
  pure-Reads a = record { at = λ rest. refl }

module _ {A B : Type 0} where
  pub bind-Reads :
      {m : Reader A} (f : A → Reader B) {a : A} {b : B} {xs ys : List ℕ}
      → Reads m a xs
      → Reads (f a) b ys
      → Reads (m >>= f) b (xs ++ ys)
  unfolding ◌>>=◌
  bind-Reads {m} f {a} {b} {xs} {ys} h k = record {
    at = λ rest.
        ap (λ bs. then_read (m bs) f) (append_assoc xs ys rest)
        ∙ ap (λ o. then_read o f) (h.at (ys ++ rest))
        ∙ k.at rest;
  }

pub read_u64-Reads : {n : ℕ} → IsU64 n → Reads read_u64 n (le_bytes 8 n)
unfolding read_u64
read_u64-Reads {n} h = record { at = λ rest. read_number-append 8 n rest (omega arith) }

as_i64-as_u64 : (t : ℤ) → IsI64 t → as_i64 (as_u64 t) ≡ t
unfolding as_i64 as_u64
as_i64-as_u64 (pos n) h = ground arith
as_i64-as_u64 (negsuc n) h = ground arith

as_u64-lt : (t : ℤ) → IsI64 t → as_u64 t < 2 ^ 64
unfolding as_u64
as_u64-lt (pos n) h = omega arith
as_u64-lt (negsuc n) h = omega arith

pub read_i64-Reads : {t : ℤ} → IsI64 t → Reads read_i64 t (le_bytes 8 (as_u64 t))
unfolding read_i64 ◌>>=◌ pure
read_i64-Reads {t} h = record {
  at = λ rest.
      ap (λ o. then_read o (λ w bs. some (as_i64 w, bs))) ((read_u64-Reads (as_u64-lt t h)).at rest)
      ∙ ap (λ v. some (v, rest)) (as_i64-as_u64 t h);
}

pub read_pubkey-Reads : {k : Pubkey} → IsKey k → Reads read_pubkey k k
unfolding read_pubkey
read_pubkey-Reads {k} h = record { at = λ rest. rw (sym h) (read_bytes-append k rest) }

pub read_text-Reads : {s : Text} → IsText s → Reads read_text s (text_bytes s)
read_text-Reads {s} h = record { at = λ rest. read_text-append s rest h.0 h.1 }

abbrev pub bool_byte : Bool → ℕ
bool_byte false = 0
bool_byte true = 1

pub read_bool-Reads : (b : Bool) → Reads read_bool b (bool_byte b ∷ [])
unfolding read_bool
read_bool-Reads false = record { at = λ rest. refl }
read_bool-Reads true = record { at = λ rest. refl }

pub read_flag-Reads : (b : Bool) → Reads read_flag b (bool_byte b ∷ [])
unfolding read_flag
read_flag-Reads false = record { at = λ rest. refl }
read_flag-Reads true = record { at = λ rest. refl }

module _ {A B : Type 0} where
  pub bind-fails :
      {m : Reader A} (f : A → Reader B) {a : A} {xs : List ℕ} (ys rest : List ℕ)
      → Reads m a xs
      → f a (ys ++ rest) ≡ none
      → (m >>= f) ((xs ++ ys) ++ rest) ≡ none
  unfolding ◌>>=◌
  bind-fails {m} f {a} {xs} ys rest h k =
      ap (λ bs. then_read (m bs) f) (append_assoc xs ys rest)
      ∙ ap (λ o. then_read o f) (h.at (ys ++ rest))
      ∙ k
