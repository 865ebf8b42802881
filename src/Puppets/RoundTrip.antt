-- ===== src/Puppets/RoundTrip.antt =====
-- That a saved puppet master is read back (puppetmaster.rs).
use tokenir.Prelude.{
  ℕ, ◌≡◌, refl, Bool, true, ◌||◌, not, some, List, [], ◌∷◌, ◌++◌, nat_beq, all, arith, append_assoc,
  ap, ◌∙◌,
}
use tokenir.Prelude.Text.{Text}
use tokenir.Puppets.{
  Keypair, Keys, PuppetMaster, ok, line_of, lines, lines_of, encode, keypair_from_str, read_puppets,
  decode,
}

-- What base58 is relied on for: it decodes what it encoded, to a text in one line.
abbrev pub is_inline : ℕ → Bool
is_inline c = not (nat_beq c 10 || nat_beq c 13)

pub record IsBase58 (keys : Keys) : Type 0 where
  pub decodes : (bytes : List ℕ) → keys.decode (keys.encode bytes) ≡ some bytes
  pub one_line : (bytes : List ℕ) → all is_inline (keys.encode bytes) ≡ true

-- The bytes are those of a keypair: its first half makes it again.
abbrev pub IsKeypair : Keys → Keypair → Type 0
IsKeypair keys keypair = keys.keypair_from_seed keypair ≡ some keypair

abbrev pub AreKeypairs : Keys → List Keypair → Type 0
AreKeypairs keys [] = Unit
AreKeypairs keys (k ∷ ks) = (IsKeypair keys k) × (AreKeypairs keys ks)

lines-append :
    (line rest : Text) → all is_inline line ≡ true → lines (line ++ (10 ∷ rest)) ≡ line ∷ lines rest
unfolding lines
lines-append [] rest h = refl
lines-append (c ∷ line) rest h = ground (arith, lines-append line rest)

module _ (keys : Keys) (works : IsBase58 keys) where
  lines-line_of :
      (k : Keypair) (rest : Text) → lines (line_of keys k ++ rest) ≡ keys.encode k ∷ lines rest
  lines-line_of k rest =
      ap lines (append_assoc (keys.encode k) (10 ∷ []) rest)
      ∙ lines-append (keys.encode k) rest (works.one_line k)

  keypair_from_str-encode :
      (k : Keypair) → IsKeypair keys k → keypair_from_str keys (keys.encode k) ≡ ok k
  unfolding keypair_from_str
  keypair_from_str-encode k h = rw (works.decodes k) (rw h refl)

  read_puppets-lines_of :
      (ks : List Keypair)
      → AreKeypairs keys ks
      → read_puppets keys (lines (lines_of keys ks)) ≡ ok ks
  unfolding read_puppets lines_of lines
  read_puppets-lines_of [] h = refl
  read_puppets-lines_of (k ∷ ks) h =
      rw (lines-line_of k (lines_of keys ks))
        (rw (keypair_from_str-encode k h.0) (rw (read_puppets-lines_of ks h.1) refl))

  -- Reading a saved puppet master gives it back, if its keys are keypairs.
  pub decode-encode :
      (p : PuppetMaster)
      → IsKeypair keys p.master
      → AreKeypairs keys p.puppets
      → decode keys (some (encode keys p)) ≡ ok p
  unfolding decode encode
  decode-encode p h k =
      rw (lines-line_of p.master (lines_of keys p.puppets))
        (rw (keypair_from_str-encode p.master h) (rw (read_puppets-lines_of p.puppets k) refl))
