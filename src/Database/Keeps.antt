-- ===== src/Database/Keeps.antt =====
-- Properties of the tables that an action keeps, one rule for each way to build an action.
use tokenir.Prelude.{Bool, true, false, arith}
use tokenir.Database.{
  SqlError, Result, ok, err, Tables, Store, Sql, pure, raise, guard, ◌>>=◌, statement, query,
  transaction, later_faults,
}

-- `m` keeps `P` of the tables, whether it succeeds or fails.
pub record Keeps {A : Type 0} (P : Tables → Type 0) (m : Sql A) : Type 0 where
  pub at : (s : Store) → P s.tables → P (m s).1.tables

module _ {A : Type 0} {P : Tables → Type 0} where
  pub Keeps-pure : (a : A) → Keeps P (pure a)
  unfolding pure
  Keeps-pure a = record { at = λ s h. h }

  pub Keeps-raise : (e : SqlError) → Keeps P (raise {A = A} e)
  unfolding raise
  Keeps-raise e = record { at = λ s h. h }

  pub Keeps-statement :
      (needs : Tables → Bool) (run : Tables → Result A × Tables)
      → ((t : Tables) → P t → P (run t).1)
      → Keeps P (statement needs run)
  unfolding statement
  Keeps-statement needs run h = record { at = λ s v. ground (arith, h s.tables v) }

  pub Keeps-query : (needs : Tables → Bool) (run : Tables → Result A) → Keeps P (query needs run)
  Keeps-query needs run = Keeps-statement needs (λ t. (run t, t)) (λ t v. v)

  pub Keeps-transaction : (m : Sql A) → Keeps P m → Keeps P (transaction m)
  unfolding transaction
  Keeps-transaction m k = record {
    at = λ s v. ground (arith, k.at (record s { faults = later_faults s.faults }) v);
  }

pub Keeps-guard : {P : Tables → Type 0} (b : Bool) (e : SqlError) → Keeps P (guard b e)
unfolding guard
Keeps-guard true e = Keeps-pure tt
Keeps-guard false e = Keeps-raise e

module _ {A B : Type 0} {P : Tables → Type 0} where
  pub Keeps-bind :
      (m : Sql A) (f : A → Sql B) → Keeps P m → ((a : A) → Keeps P (f a)) → Keeps P (m >>= f)
  unfolding ◌>>=◌
  Keeps-bind m f km kf = record { at = λ s h. go (m s).0 (m s).1 (km.at s h) }
    where
      go : (r : Result A) (s' : Store) → P s'.tables → P (((λ q. (r, q)) >>= f) s').1.tables
      go (ok a) s' k = (kf a).at s' k
      go (err e) s' k = k

pub ruleset keeps_rules = (
  Keeps-pure, Keeps-raise, Keeps-guard, Keeps-statement, Keeps-query, Keeps-bind, Keeps-transaction,
)
