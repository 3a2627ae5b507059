-- ===== src/Redis.antt =====
-- The Redis server, which the gateway only calls: the commands it sends, and what the server's
-- documentation says of them while the server can be reached.
pub mod Store
pub mod Pipeline
pub mod Hashes
pub mod Counters
pub mod Tallies
use ajah.Text.{Bytes}
use ajah.Prelude.{ℕ, suc, ◌≡◌, Bool, true, false, String, str_eq, Option, none, some, if◌then◌else◌}

pub record Redis : Type 1 where
  -- The server's contents.
  pub Db : Type 0
  -- A command gives the new contents and the reply; no reply is an error. Reads leave the contents.
  pub exists : String → Db → Option Bool
  pub get : String → Db → Option (Option Bytes)
  -- The remaining seconds of a key's time.
  pub ttl : String → Db → ℕ
  -- GET read as a whole number, 0 on an error.
  pub get_int : String → Db → ℕ
  pub set : String → Bytes → ℕ → Db → Db × Option (Unit {0})
  pub del : String → Db → Db × Option (Unit {0})
  -- A pipeline of INCR and EXPIRE of one key.
  pub incr_expire : String → ℕ → Db → Db × Option ℕ

-- Whether a key is present, and the number that it holds, 0 if it is absent. INCR replies with the next
-- number, as it does for the keys that it is sent for, which hold a number or nothing.
pub record IsReachable (r : Redis) : Type 0 where
  pub holds : r.Db → String → Bool
  pub counter : r.Db → String → ℕ
  -- The time of a key runs out.
  pub expire_now : String → r.Db → r.Db
  pub exists_lem : (k : String) (db : r.Db) → r.exists k db ≡ some (holds db k)
  pub get_int_lem : (k : String) (db : r.Db) → r.get_int k db ≡ counter db k
  pub get-set :
      (k : String) (v : Bytes) (n : ℕ) (db : r.Db) → r.get k (r.set k v n db).0 ≡ some (some v)
  pub holds-set :
      (k : String) (v : Bytes) (n : ℕ) (db : r.Db) (j : String)
      → holds (r.set k v n db).0 j ≡ (if str_eq k j then true else holds db j)
  pub counter-set :
      (k : String) (v : Bytes) (n : ℕ) (db : r.Db) (j : String)
      → str_eq k j ≡ false
      → counter (r.set k v n db).0 j ≡ counter db j
  pub holds-del :
      (k : String) (db : r.Db) (j : String)
      → holds (r.del k db).0 j ≡ (if str_eq k j then false else holds db j)
  pub counter-del :
      (k : String) (db : r.Db) (j : String)
      → counter (r.del k db).0 j ≡ (if str_eq k j then 0 else counter db j)
  pub incr_reply :
      (k : String) (n : ℕ) (db : r.Db) → (r.incr_expire k n db).1 ≡ some (suc (counter db k))
  pub holds-incr :
      (k : String) (n : ℕ) (db : r.Db) (j : String)
      → holds (r.incr_expire k n db).0 j ≡ (if str_eq k j then true else holds db j)
  pub counter-incr :
      (k : String) (n : ℕ) (db : r.Db) (j : String)
      → counter (r.incr_expire k n db).0 j
        ≡ (if str_eq k j then suc (counter db k) else counter db j)
  pub holds-expire :
      (k : String) (db : r.Db) (j : String)
      → holds (expire_now k db) j ≡ (if str_eq k j then false else holds db j)
  pub counter-expire :
      (k : String) (db : r.Db) (j : String)
      → counter (expire_now k db) j ≡ (if str_eq k j then 0 else counter db j)
