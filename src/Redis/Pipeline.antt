-- ===== src/Redis/Pipeline.antt =====
-- Pipelines of commands on lists and hashes, which the sessions send, and what the server's
-- documentation says of them while the server can be reached.
use ajah.Prelude.{ℕ, ◌+◌, ◌≡◌, Bool, false, ◌&&◌, ◌||◌, String, str_eq, List, [], ◌∷◌, Option, some}
use ajah.Text.{Bytes}
use ajah.Float.{Float64}

module _ (f : Float64) where
  pub data Command : Type 0 where
    rpush : String → Bytes → Command
    hsetnx : String → String → ℕ → Command
    -- HSET of last_seen, feature_name and user_id.
    hset_seen : String → ℕ → String → String → Command
    hincrbyfloat : String → String → f.F → Command
    hincrby : String → String → ℕ → Command
    expire : String → ℕ → Command

  pub data Answer : Type 0 where
    done : Answer
    int_reply : ℕ → Answer
    float_reply : f.F → Answer

  -- Whether a command may change a field of a hash.
  unfoldable pub touches : Command → String → String → Bool
  touches (rpush k v) key name = str_eq k key
  touches (hsetnx k n v) key name = str_eq k key && str_eq n name
  touches (hset_seen k t x u) key name =
      str_eq k key
      && (str_eq "last_seen" name || (str_eq "feature_name" name || str_eq "user_id" name))
  touches (hincrbyfloat k n x) key name = str_eq k key && str_eq n name
  touches (hincrby k n x) key name = str_eq k key && str_eq n name
  touches (expire k n) key name = false

  -- The answers of the commands in order, none on an error.
  abbrev pub Exec : Type 0 → Type 0
  Exec Db = List Command → Db → Db × Option (List Answer)

  -- The commands run one after the other; the increments give the new value.
  pub record IsSequential (Db : Type 0) (exec : Exec Db) : Type 0 where
    pub run : Command → Db → Db × Answer
    pub int_field : Db → String → String → ℕ
    pub float_field : Db → String → String → f.F
    pub exec-nil : (db : Db) → exec [] db ≡ (db, some [])
    pub exec-cons :
        (c : Command) (cs : List Command) (db : Db) (answers : List Answer)
        → (exec cs (run c db).0).1 ≡ some answers
        → exec (c ∷ cs) db ≡ ((exec cs (run c db).0).0, some ((run c db).1 ∷ answers))
    pub run-hincrby :
        (k n : String) (x : ℕ) (db : Db)
        → (run (hincrby k n x) db).1 ≡ int_reply (int_field db k n + x)
    pub run-hincrbyfloat :
        (k n : String) (x : f.F) (db : Db)
        → (run (hincrbyfloat k n x) db).1 ≡ float_reply (f.add (float_field db k n) x)
    pub int_field-run :
        (c : Command) (k n : String) (db : Db)
        → touches c k n ≡ false
        → int_field (run c db).0 k n ≡ int_field db k n
    pub float_field-run :
        (c : Command) (k n : String) (db : Db)
        → touches c k n ≡ false
        → float_field (run c db).0 k n ≡ float_field db k n

  -- DEL of a key leaves the fields of the hashes of the other keys.
  pub record IsKeyed (Db : Type 0) (exec : Exec Db) (order : IsSequential Db exec)
      (del : String → Db → Db × Option (Unit {0})) : Type 0 where
    pub int_field-del :
        (k key n : String) (db : Db)
        → str_eq k key ≡ false
        → order.int_field (del k db).0 key n ≡ order.int_field db key n
    pub float_field-del :
        (k key n : String) (db : Db)
        → str_eq k key ≡ false
        → order.float_field (del k db).0 key n ≡ order.float_field db key n
