-- ===== src/Redis/Counters.antt =====
-- The counters and lists that the gateway keeps in Redis besides those of `Redis`: the commands, and
-- what the server's documentation says of them while the server can be reached.
use ajah.Prelude.{ℕ, suc, ◌≡◌, Bool, true, false, String, str_eq, Option, none, some, if◌then◌else◌}
use ajah.Text.{Bytes}
use ajah.Float.{Float64}

-- A command gives the new contents and the reply; no reply is an error.
pub record Counters (f : Float64) (Db : Type 0) : Type 0 where
  pub incr : String → Db → Db × Option ℕ
  pub expire : String → ℕ → Db → Db × Option (Unit {0})
  pub incr_by_float : String → f.F → Db → Db × Option f.F
  -- GET read as a float; an absent key is an error.
  pub get_float : String → Db → Option f.F
  -- SETNX with a time to live: whether the key was set.
  pub set_nx : String → Bytes → ℕ → Db → Db × Option Bool
  -- LPUSH, then LTRIM to this many entries; the replies are not read.
  pub push_trim : String → Bytes → ℕ → Db → Db

-- The number that a key counts and the amount that it sums, 0 if it is absent, and whether it is there,
-- for keys that hold nothing but what these commands put there. INCRBYFLOAT is the addition of float64,
-- up to how Redis rounds; EXPIRE is sent with a positive time.
pub record IsCounting (f : Float64) (Db : Type 0) (c : Counters f Db) : Type 0 where
  pub count : Db → String → ℕ
  pub amount : Db → String → f.F
  pub holds : Db → String → Bool
  pub incr_reply : (k : String) (db : Db) → (c.incr k db).1 ≡ some (suc (count db k))
  pub count-incr :
      (k : String) (db : Db) (j : String)
      → count (c.incr k db).0 j ≡ (if str_eq k j then suc (count db k) else count db j)
  pub amount-incr :
      (k : String) (db : Db) (j : String)
      → str_eq k j ≡ false
      → amount (c.incr k db).0 j ≡ amount db j
  pub holds-incr :
      (k : String) (db : Db) (j : String)
      → holds (c.incr k db).0 j ≡ (if str_eq k j then true else holds db j)
  pub count-expire :
      (k : String) (n : ℕ) (db : Db) (j : String) → count (c.expire k n db).0 j ≡ count db j
  pub amount-expire :
      (k : String) (n : ℕ) (db : Db) (j : String) → amount (c.expire k n db).0 j ≡ amount db j
  pub holds-expire :
      (k : String) (n : ℕ) (db : Db) (j : String) → holds (c.expire k n db).0 j ≡ holds db j
  pub incr_by_float_reply :
      (k : String) (x : f.F) (db : Db) → (c.incr_by_float k x db).1 ≡ some (f.add (amount db k) x)
  pub amount-incr_by_float :
      (k : String) (x : f.F) (db : Db) (j : String)
      → amount (c.incr_by_float k x db).0 j
        ≡ (if str_eq k j then f.add (amount db k) x else amount db j)
  pub count-incr_by_float :
      (k : String) (x : f.F) (db : Db) (j : String)
      → str_eq k j ≡ false
      → count (c.incr_by_float k x db).0 j ≡ count db j
  pub holds-incr_by_float :
      (k : String) (x : f.F) (db : Db) (j : String)
      → holds (c.incr_by_float k x db).0 j ≡ (if str_eq k j then true else holds db j)
  pub get_float_lem :
      (k : String) (db : Db) → c.get_float k db ≡ (if holds db k then some (amount db k) else none)
  pub set_nx_reply :
      (k : String) (v : Bytes) (n : ℕ) (db : Db)
      → (c.set_nx k v n db).1 ≡ some (if holds db k then false else true)
  pub holds-set_nx :
      (k : String) (v : Bytes) (n : ℕ) (db : Db) (j : String)
      → holds (c.set_nx k v n db).0 j ≡ (if str_eq k j then true else holds db j)
  pub amount-set_nx :
      (k : String) (v : Bytes) (n : ℕ) (db : Db) (j : String)
      → str_eq k j ≡ false
      → amount (c.set_nx k v n db).0 j ≡ amount db j
  pub holds-push_trim :
      (k : String) (v : Bytes) (n : ℕ) (db : Db) (j : String)
      → str_eq k j ≡ false
      → holds (c.push_trim k v n db) j ≡ holds db j
  pub amount-push_trim :
      (k : String) (v : Bytes) (n : ℕ) (db : Db) (j : String)
      → str_eq k j ≡ false
      → amount (c.push_trim k v n db) j ≡ amount db j
