-- ===== src/Puppets.antt =====
-- tokenir_ui/src/pump_interaction/puppeting/puppetmaster.rs: a file of keypairs, one in each line. A
-- keypair is its 64 bytes. What `bs58` and `solana_sdk` do is a parameter.
pub mod RoundTrip
use tokenir.Prelude.{
  ℕ, zero, suc, Bool, true, false, ◌&&◌, Option, none, some, List, [], ◌∷◌, ◌++◌, nat_beq,
  if◌then◌else◌,
}
use tokenir.Prelude.Text.{Text, codes}

abbrev pub Keypair : Type 0
Keypair = List ℕ

-- `to_base58_string` is the base58 text of a keypair's bytes.
pub record Keys : Type 0 where
  pub encode : List ℕ → Text
  pub decode : Text → Option (List ℕ)
  pub keypair_from_seed : List ℕ → Option Keypair

pub record PuppetMaster : Type 0 where
  pub master : Keypair
  pub puppets : List Keypair

pub data Read {ℓ} (A : Type ℓ) : Type ℓ where
  ok : A → Read A
  err : Text → Read A

-- `generate n` is the n-th keypair that is made.
abbrev generated : (ℕ → Keypair) → ℕ → ℕ → List Keypair
generated generate i zero = []
generated generate i (suc n) = generate i ∷ generated generate (suc i) n

unfoldable pub new : (ℕ → Keypair) → ℕ → PuppetMaster
new generate wallet_amount = record {
  puppets = generated generate 0 wallet_amount;
  master = generate wallet_amount;
}

-- `str::lines`: a line ends at `\n` or `\r\n`, and there is none behind the last end.
abbrev starts_line : Text → Bool
starts_line [] = false
starts_line (c ∷ s) = nat_beq c 10

abbrev in_front : ℕ → List Text → List Text
in_front c [] = (c ∷ []) ∷ []
in_front c (l ∷ ls) = (c ∷ l) ∷ ls

unfoldable pub lines : Text → List Text
lines [] = []
lines (c ∷ s) =
    let rest = lines s in
    if nat_beq c 10
    then [] ∷ rest
    else if nat_beq c 13 && starts_line s
    then rest
    else in_front c rest

module _ (keys : Keys) where
  abbrev pub line_of : Keypair → Text
  line_of keypair = keys.encode keypair ++ (10 ∷ [])

  unfoldable pub lines_of : List Keypair → Text
  lines_of [] = []
  lines_of (keypair ∷ keypairs) = line_of keypair ++ lines_of keypairs

  unfoldable pub encode : PuppetMaster → Text
  encode p = line_of p.master ++ lines_of p.puppets

  abbrev from_seed : Option Keypair → Read Keypair
  from_seed none = err (codes "Not valid keypair")
  from_seed (some keypair) = ok keypair

  abbrev from_bytes : Option (List ℕ) → Read Keypair
  from_bytes none = err (codes "Not BASE58 encoded keypair")
  from_bytes (some bytes) = from_seed (keys.keypair_from_seed bytes)

  unfoldable pub keypair_from_str : Text → Read Keypair
  keypair_from_str text = from_bytes (keys.decode text)

  abbrev push : Read Keypair → Read (List Keypair) → Read (List Keypair)
  push (err e) rest = err (codes "Not valid keypair")
  push (ok keypair) (err e) = err e
  push (ok keypair) (ok keypairs) = ok (keypair ∷ keypairs)

  unfoldable pub read_puppets : List Text → Read (List Keypair)
  read_puppets [] = ok []
  read_puppets (entry ∷ entries) = push (keypair_from_str entry) (read_puppets entries)

  abbrev with_puppets : Keypair → Read (List Keypair) → Read PuppetMaster
  with_puppets master (err e) = err e
  with_puppets master (ok puppets) = ok (record { master = master; puppets = puppets })

  abbrev with_master : Read Keypair → List Text → Read PuppetMaster
  with_master (err e) entries = err (codes "Not valid master keypair")
  with_master (ok master) entries = with_puppets master (read_puppets entries)

  abbrev read_lines : List Text → Read PuppetMaster
  read_lines [] = err (codes "Not found master wallet")
  read_lines (master ∷ entries) = with_master (keypair_from_str master) entries

  -- From what the file holds, if it can be read.
  unfoldable pub decode : Option Text → Read PuppetMaster
  decode none = err (codes "Not found config")
  decode (some data_read) = read_lines (lines data_read)
